-- ===== src/Waste.antt =====
-- crates/agentprof-core/src/analyzer/waste.rs: which MCP tools a session loads and does not call.
pub mod Report
pub mod Compute
pub mod Servers
pub mod Across
pub mod Calls
pub mod Accounts
pub mod Sources
pub mod CrossRows
pub mod Sessions
mod Examples
