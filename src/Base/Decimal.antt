-- ===== src/Base/Decimal.antt =====
-- Decimal numbers as texts: what the Rust standard library prints, and what digits stand for.
use agentprof.Base.{
  ℕ, zero, suc, ◌+◌, ◌-◌, ◌*◌, ◌/◌, ◌%◌, ◌<◌, ◌≡◌, List, [], ◌∷◌, ◌++◌, ltb, if◌then◌else◌, arith,
  refl, inl, inr, Bool-cases,
}

-- The number behind digits that follow `acc`.
unfoldable pub value : ℕ → List ℕ → ℕ
value acc [] = acc
value acc (c ∷ cs) = value (acc * 10 + (c - b'0')) cs

-- The digits of a number, with enough fuel.
unfoldable pub print_digits : ℕ → ℕ → List ℕ
print_digits zero n = []
print_digits (suc fuel) n =
    let before = print_digits fuel (n / 10) in
    if ltb n 10 then (b'0' + n) ∷ [] else before ++ (b'0' + n % 10) ∷ []

-- `n.to_string()`; a number has at most as many digits as it counts, plus one.
unfoldable pub decimal : ℕ → List ℕ
unfolding print_digits
decimal n = print_digits (n + 1) n

pub value-append :
    (acc : ℕ) (cs : List ℕ) (c : ℕ) → value acc (cs ++ c ∷ []) ≡ value acc cs * 10 + (c - b'0')
unfolding value
value-append acc [] c = refl
value-append acc (d ∷ cs) c = value-append (acc * 10 + (d - b'0')) cs c

value-print_digits : (fuel n : ℕ) → n < fuel → value 0 (print_digits fuel n) ≡ n
unfolding print_digits value
value-print_digits zero n h = ground (arith, h)
value-print_digits (suc fuel) n h = elim (Bool-cases (ltb n 10)) [
  | inl e ↦ rw (e, if◌then◌else◌) (ground arith)
  | inr e ↦
      rw (e, if◌then◌else◌)
        (ground (
          arith,
          e,
          h,
          value-append 0 (print_digits fuel (n / 10)) (b'0' + n % 10),
          value-print_digits fuel (n / 10) (ground (arith, e, h)),
        ))
]

-- The digits of a number stand for it.
pub value-decimal : (n : ℕ) → value 0 (decimal n) ≡ n
unfolding decimal
value-decimal n = value-print_digits (n + 1) n (omega arith)
