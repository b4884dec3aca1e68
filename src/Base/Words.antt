-- ===== src/Base/Words.antt =====
-- Unsigned machine words, and the saturating addition of the Rust standard library.
use agentprof.Base.{ℕ, ◌+◌, ◌-◌, ◌^◌, ◌≡◌, min, arith}

abbrev pub u32_max : ℕ
u32_max = 2 ^ 32 - 1

abbrev pub u64_max : ℕ
u64_max = 2 ^ 64 - 1

-- `a.saturating_add(b)` at a word whose largest value is `top`
abbrev pub saturating_add : ℕ → ℕ → ℕ → ℕ
saturating_add top a b = min (a + b) top

-- Adding one by one and clamping at each step is clamping the sum once.
pub saturating_add-min : (top a b : ℕ) → saturating_add top (min a top) b ≡ min (a + b) top
saturating_add-min top a b = omega arith
