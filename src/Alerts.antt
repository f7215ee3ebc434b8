-- ===== src/Alerts.antt =====
-- The alerting engine (internal/alerts).
pub mod State
pub mod Fingerprint
pub mod Rule
pub mod Severity
