-- ===== src/Tui.antt =====
-- crates/agentprof-tui/src: the state of the terminal interface and what a key does to it.
pub mod Keys
pub mod Detail
pub mod State
pub mod Dispatch
pub mod Bounds
pub mod Moves
pub mod Sound
pub mod Answers
mod Examples
