-- ===== src/Aggregate.antt =====
-- crates/agentprof-core/src/analyzer/aggregate: reports over several sessions.
mod Wall
mod ByModel
unfoldable pub use Wall.*
unfoldable pub use ByModel.*
pub mod Duration
pub mod Models
pub mod Buckets
mod Examples
