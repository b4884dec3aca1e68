-- ===== src/Cli/RoundTrip.antt =====
-- What is printed with a unit is read back.
use agentprof.Base.{
  ℕ, zero, suc, ◌+◌, ◌*◌, ◌/◌, ◌%◌, ◌<◌, ◌≤◌, ◌≡◌, true, some, [], ◌∷◌, ◌++◌, min, length,
  length-append, ltb, All-append, arith, inl, inr, subst, sym, Bool-cases, if◌then◌else◌,
}
use agentprof.Base.Decimal.{value, print_digits, decimal, value-decimal}
use agentprof.Base.Words.{u64_max}
use agentprof.Order.{Text}
use agentprof.Cli.Since.{parse_since, unit_secs, is_digit, ok, from_secs}
use agentprof.Cli.Accepts.{AreDigits, IsNumber, plain, window, parse_since-Accepts}

print_digits-AreDigits : (fuel n : ℕ) → AreDigits (print_digits fuel n)
unfolding print_digits
print_digits-AreDigits zero n = tt
print_digits-AreDigits (suc fuel) n = elim (Bool-cases (ltb n 10)) [
  | inl e ↦ rw (e, if◌then◌else◌) (ground (arith, e), tt)
  | inr e ↦
      rw (e, if◌then◌else◌)
        (All-append (λ c. is_digit c ≡ true) (print_digits fuel (n / 10)) ((b'0' + n % 10) ∷ [])
          (print_digits-AreDigits fuel (n / 10)) (ground arith, tt))
]

succ : (n : ℕ) → n + 1 ≡ suc n
succ n = omega arith

-- A text of digits with a number of 64 bits that is not empty is that number.
digits-IsNumber :
    (s : Text) (n : ℕ) → AreDigits s → value 0 s ≡ n → n ≤ u64_max → 0 < length s → IsNumber s n
digits-IsNumber [] n h e le lt = ground (arith, lt)
digits-IsNumber (c ∷ cs) n h e le lt =
    subst (IsNumber (c ∷ cs)) e (plain c cs h (subst (λ m. m ≤ u64_max) (sym e) le))

length-print_digits : (fuel n : ℕ) → 0 < length (print_digits (suc fuel) n)
unfolding print_digits
length-print_digits fuel n = elim (Bool-cases (ltb n 10)) [
  | inl e ↦ rw (e, if◌then◌else◌) (ground arith)
  | inr e ↦
      rw (e, if◌then◌else◌)
        (ground (arith, length-append (print_digits fuel (n / 10)) ((b'0' + n % 10) ∷ [])))
]

decimal-IsNumber : (n : ℕ) → n ≤ u64_max → IsNumber (decimal n) n
unfolding decimal
decimal-IsNumber n le =
    digits-IsNumber (decimal n) n (print_digits-AreDigits (n + 1) n) (value-decimal n) le
      (subst (λ f. 0 < length (print_digits f n)) (sym (succ n)) (length-print_digits n n))

-- A number of 64 bits that is printed with a unit is read back as so many of the unit's seconds,
-- cut off at 64 bits.
pub parse_since-decimal :
    (n c unit : ℕ)
    → n ≤ u64_max
    → unit_secs c ≡ some unit
    → parse_since (decimal n ++ c ∷ []) ≡ ok (from_secs (min (n * unit) u64_max))
parse_since-decimal n c unit le u =
    (parse_since-Accepts (decimal n ++ c ∷ []) (from_secs (min (n * unit) u64_max))).1
      (window (decimal n) n c unit (decimal-IsNumber n le) u)
