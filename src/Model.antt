-- ===== src/Model.antt =====
-- crates/agentprof-core/src/model: where a tool comes from.
pub mod ToolSource
pub mod Names
mod Examples
