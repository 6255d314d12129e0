-- ===== src/Updater.antt =====
-- eir-svc/src/updater: the application updater, from a failure's meaning to the next attempt.
pub mod Domain
pub mod Classify
pub mod Diagnose
pub mod Heal
pub mod Hosts
pub mod Plan
pub mod Check
pub mod Available
pub mod Selection
pub mod Cycle
pub mod Rows
pub mod Guidance
pub mod Retried
pub mod Retry
pub mod Notes
pub mod Names
pub mod Winget
pub mod Config
pub mod Version
pub mod Backoff
