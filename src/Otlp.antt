-- ===== src/Otlp.antt =====
-- crates/agentprof-storage/src/otlp: the buffers of the telemetry receiver.
mod Typed
mod Buffer
mod Routing
unfoldable pub use Typed.*
unfoldable pub use Buffer.*
unfoldable pub use Routing.*
pub mod Index
pub mod Admission
pub mod Limits
pub mod Conserved
pub mod Shutdown
pub mod Isolation
pub mod History
pub mod Pairing
pub mod Sweeper
mod Examples
