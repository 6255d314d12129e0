-- ===== src/Json.antt =====
-- eir-svc/src/ai/json.rs: the JSON inside a model's reply. serde_json is a parameter.
pub mod Scan
pub mod Repair
pub mod Read
