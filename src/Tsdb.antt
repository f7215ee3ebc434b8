-- ===== src/Tsdb.antt =====
-- internal/tsdb: the head block, its write-ahead log and the appender.
pub mod Binary
pub mod Record
pub mod Head
pub mod Wal
pub mod Db
