-- ===== src/Episode.antt =====
-- crates/agentprof-core/src/episode: what is derived from the events of a session.
mod Calls
mod Turns
mod Result
unfoldable pub use Calls.*
unfoldable pub use Turns.*
unfoldable pub use Result.*
