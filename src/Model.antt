-- ===== src/Model.antt =====
-- internal/model: the shared vocabulary of labels, samples, metric types and matchers.
pub mod Labels
pub mod Matcher
