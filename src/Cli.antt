-- ===== src/Cli.antt =====
-- crates/agentprof-cli/src: the value of `--since`.
pub mod Since
pub mod Accepts
pub mod RoundTrip
mod Examples
