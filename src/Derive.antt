-- ===== src/Derive.antt =====
-- crates/agentprof-core/src/episode/derive.rs: from the events of a session to its episodes.
mod State
mod Turns
mod Skills
mod Tools
mod Hooks
mod Session
mod Loop
pub mod Counts
pub mod Keeps
pub mod TurnOrder
pub mod Ledger
pub mod References
pub mod Modes
pub mod Windows
pub mod Invoked
pub mod Requests
pub mod Aborts
pub mod Streams
mod Examples
pub mod Named
pub mod Balance
pub mod Orphans
pub mod Totals
unfoldable pub use State.*
unfoldable pub use Turns.*
unfoldable pub use Skills.*
unfoldable pub use Tools.*
unfoldable pub use Hooks.*
unfoldable pub use Session.*
unfoldable pub use Loop.*
