-- ===== src/Derive/References.antt =====
-- The references between turns, calls and skills: each names a call that is there.
mod Grow
pub mod Valid
pub mod Kept
