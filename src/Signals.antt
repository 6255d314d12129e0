-- ===== src/Signals.antt =====
-- eir-svc/src/signals: what the collectors' reports become before a decision cycle reads them.
pub mod Feed
pub mod Screen
pub mod LogMemory
