-- ===== src/Tests.antt =====
-- Instances of the theorems at concrete inputs, and runs of the definitions.
mod WalTests
mod ModelTests
mod HeadTests
mod AlertTests
mod PromqlTests
mod EngineTests
