-- ===== src/Analyzer.antt =====
-- crates/agentprof-core/src/analyzer: what is reported of the episodes of a session.
mod Stats
mod Rank
mod Pending
mod Summary
unfoldable pub use Stats.*
unfoldable pub use Rank.*
unfoldable pub use Pending.*
unfoldable pub use Summary.*
pub mod Percentiles
pub mod Ranking
pub mod Waiting
pub mod Reports
mod Examples
