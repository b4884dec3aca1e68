-- ===== src/Privacy.antt =====
-- crates/agentprof-core/src/analyzer/redact.rs: the placeholders of redacted names.
pub mod Redactor
pub mod Inverse
mod Examples
