-- ===== src/Cli/Accepts.antt =====
-- Which texts `--since` accepts, and as what.
use agentprof.Base.{
  ℕ, ◌+◌, ◌-◌, ◌*◌, ◌≤◌, ◌≡◌, ◌↔◌, Bool, true, false, not, Option, none, some, [], ◌∷◌, ◌++◌, ◌==◌,
  min, ltb, arith, refl, if◌then◌else◌, Bool-cases, inl, inr, All, ap, sym, subst, ◌∙◌,
}
use agentprof.Base.Decimal.{value}
use agentprof.Base.Words.{u64_max}
use agentprof.Order.{Text, text, text_ord, text_cmp, eqb, eqb_iff}
use agentprof.Cli.Since.{
  ParseIntError, Result, ok, err, Duration, duration_max, from_secs, is_digit, parse_digits,
  parse_u64, split_last, unit_secs, with_number, with_unit, with_last, parse_since,
}

abbrev pub AreDigits : Text → Type 0
AreDigits cs = All (λ c. is_digit c ≡ true) cs

le-value : (acc : ℕ) (cs : Text) → acc ≤ value acc cs
unfolding value
le-value acc [] = omega arith
le-value acc (c ∷ cs) = omega (arith, le-value (acc * 10 + (c - b'0')) cs)

-- A text is a number of 64 bits, perhaps behind a plus sign.
pub data IsNumber : Text → ℕ → Type 0 where
  plain :
      (c : ℕ) (cs : Text)
      → AreDigits (c ∷ cs)
      → value 0 (c ∷ cs) ≤ u64_max
      → IsNumber (c ∷ cs) (value 0 (c ∷ cs))
  signed :
      (c : ℕ) (cs : Text)
      → AreDigits (c ∷ cs)
      → value 0 (c ∷ cs) ≤ u64_max
      → IsNumber (b'+' ∷ c ∷ cs) (value 0 (c ∷ cs))

-- A text is `all`, or a number with a unit; a product above 64 bits is cut off.
pub data Accepts : Text → Duration → Type 0 where
  unlimited : Accepts (text "all") duration_max
  window :
      (n_str : Text) (n c unit : ℕ)
      → IsNumber n_str n
      → unit_secs c ≡ some unit
      → Accepts (n_str ++ c ∷ []) (from_secs (min (n * unit) u64_max))

abbrev ok_value : {E A : Type 0} → A → Result E A → A
ok_value d (ok a) = a
ok_value d (err e) = d

-- A test that does not fail.
if-ok :
    {E A : Type 0} (b : Bool) (e : E) (r : Result E A) (a : A)
    → (if b then err e else r) ≡ ok a
    → (b ≡ false) × (r ≡ ok a)
if-ok true e r a h = ground (arith, h)
if-ok false e r a h = (refl, h)

parse_digits-ok :
    (acc : ℕ) (cs : Text) (n : ℕ)
    → parse_digits acc cs ≡ ok n
    → acc ≤ u64_max
    → AreDigits cs × (value acc cs ≡ n) × (n ≤ u64_max)
unfolding parse_digits value
parse_digits-ok acc [] n h le = let e = ap (ok_value 0) h in (tt, e, omega (arith, e, le))
parse_digits-ok acc (c ∷ cs) n h le =
    let (digit, h') = if-ok (not (is_digit c)) ParseIntError.invalid_digit _ n h in
    let (small, h'') =
      if-ok (ltb u64_max (acc * 10 + (c - b'0'))) ParseIntError.pos_overflow _ n h' in
    let (ds, e, le') = parse_digits-ok (acc * 10 + (c - b'0')) cs n h'' (ground (arith, small)) in
    ((ground (arith, digit), ds), e, le')

parse_digits_lem :
    (acc : ℕ) (cs : Text)
    → AreDigits cs
    → value acc cs ≤ u64_max
    → parse_digits acc cs ≡ ok (value acc cs)
unfolding parse_digits value
parse_digits_lem acc [] h le = refl
parse_digits_lem acc (c ∷ cs) (d, ds) le =
    let le' = le-value (acc * 10 + (c - b'0')) cs in
    rw (d, not, if◌then◌else◌)
      (ground (arith, le, le', parse_digits_lem (acc * 10 + (c - b'0')) cs ds le))

is_plus : (c : ℕ) → (c == b'+') ≡ true → c ≡ b'+'
is_plus c h = ground (arith, h)

parse_u64-ok : (s : Text) (n : ℕ) → parse_u64 s ≡ ok n → IsNumber s n
unfolding parse_u64
parse_u64-ok [] n h = ground (arith, h)
parse_u64-ok (c ∷ []) n h =
    let (ds, e, le) = parse_digits-ok 0 (c ∷ []) n h (omega arith) in
    subst (IsNumber (c ∷ [])) e (plain c [] ds (subst (λ m. m ≤ u64_max) (sym e) le))
parse_u64-ok (c ∷ d ∷ cs) n h = elim (Bool-cases (c == b'+')) [
  | inl q ↦
      let (ds, e, le) =
        parse_digits-ok 0 (d ∷ cs) n
          (subst (λ b. (if b then parse_digits 0 (d ∷ cs) else parse_digits 0 (c ∷ d ∷ cs)) ≡ ok n)
            q h)
          (omega arith) in
      subst (λ x. IsNumber (x ∷ d ∷ cs) n) (sym (is_plus c q))
        (subst (IsNumber (b'+' ∷ d ∷ cs)) e (signed d cs ds (subst (λ m. m ≤ u64_max) (sym e) le)))
  | inr q ↦
      let (ds, e, le) =
        parse_digits-ok 0 (c ∷ d ∷ cs) n
          (subst (λ b. (if b then parse_digits 0 (d ∷ cs) else parse_digits 0 (c ∷ d ∷ cs)) ≡ ok n)
            q h)
          (omega arith) in
      subst (IsNumber (c ∷ d ∷ cs)) e (plain c (d ∷ cs) ds (subst (λ m. m ≤ u64_max) (sym e) le))
]

IsNumber-parse_u64 : {s : Text} {n : ℕ} → IsNumber s n → parse_u64 s ≡ ok n
unfolding parse_u64
IsNumber-parse_u64 (plain c [] ds le) = parse_digits_lem 0 (c ∷ []) ds le
IsNumber-parse_u64 (plain c (d ∷ cs) ds le) =
    ground (arith, ds.0, parse_digits_lem 0 (c ∷ d ∷ cs) ds le)
IsNumber-parse_u64 (signed c cs ds le) = parse_digits_lem 0 (c ∷ cs) ds le

split_last-append : (s : Text) (c : ℕ) → split_last (s ++ c ∷ []) ≡ some (s, c)
unfolding split_last
split_last-append [] c = refl
split_last-append (x ∷ s) c = rw (split_last-append s c) refl

-- A text in two parts.
abbrev Joins : Text → Option (Text × ℕ) → Type 0
Joins s none = s ≡ []
Joins s (some (before, c)) = s ≡ before ++ c ∷ []

split_last-step :
    (c : ℕ) (cs : Text) (o : Option (Text × ℕ))
    → Joins cs o
    → Joins
        (c ∷ cs)
        (elim o [ none ↦ some ([], c) | some (before, last) ↦ some (c ∷ before, last) ])
split_last-step c cs none h = ap (λ t. c ∷ t) h
split_last-step c cs (some (before, last)) h = ap (λ t. c ∷ t) h

split_last-Joins : (s : Text) → Joins s (split_last s)
unfolding split_last
split_last-Joins [] = refl
split_last-Joins (c ∷ cs) = split_last-step c cs (split_last cs) (split_last-Joins cs)

with_number-ok :
    (n_str : Text) (c unit : ℕ) (r : Result ParseIntError ℕ) (d : Duration)
    → parse_u64 n_str ≡ r
    → unit_secs c ≡ some unit
    → with_number n_str unit r ≡ ok d
    → Accepts (n_str ++ c ∷ []) d
unfolding with_number
with_number-ok n_str c unit (err e) d p u h = ground (arith, h)
with_number-ok n_str c unit (ok n) d p u h =
    subst (Accepts (n_str ++ c ∷ [])) (ap (ok_value duration_max) h)
      (window n_str n c unit (parse_u64-ok n_str n p) u)

with_unit-ok :
    (s n_str : Text) (c : ℕ) (o : Option ℕ) (d : Duration)
    → unit_secs c ≡ o
    → with_unit s n_str o ≡ ok d
    → Accepts (n_str ++ c ∷ []) d
unfolding with_unit
with_unit-ok s n_str c none d u h = ground (arith, h)
with_unit-ok s n_str c (some unit) d u h = with_number-ok n_str c unit (parse_u64 n_str) d refl u h

with_last-ok :
    (s : Text) (o : Option (Text × ℕ)) (d : Duration)
    → Joins s o
    → with_last s o ≡ ok d
    → Accepts s d
unfolding with_last
with_last-ok s none d j h = ground (arith, h)
with_last-ok s (some (n_str, c)) d j h =
    subst (λ t. Accepts t d) (sym j) (with_unit-ok s n_str c (unit_secs c) d refl h)

parse_since-ok : (s : Text) (d : Duration) → parse_since s ≡ ok d → Accepts s d
unfolding parse_since
parse_since-ok s d h = elim (Bool-cases (eqb s (text "all"))) [
  | inl e ↦
      let h' : ok duration_max ≡ ok d =
        subst (λ b. (if b then ok duration_max else with_last s (split_last s)) ≡ ok d) e h in
      subst (Accepts s) (ap (ok_value duration_max) h')
        (subst (λ t. Accepts t duration_max) (sym ((eqb_iff s (text "all")).0 e)) unlimited)
  | inr e ↦
      with_last-ok s (split_last s) d (split_last-Joins s)
        (subst (λ b. (if b then ok duration_max else with_last s (split_last s)) ≡ ok d) e h)
]

abbrev last_or_zero : Option (Text × ℕ) → ℕ
last_or_zero none = 0
last_or_zero (some (before, c)) = c

-- A text that ends in a unit is not `all`.
unit_not_all :
    (n_str : Text) (c unit : ℕ)
    → unit_secs c ≡ some unit
    → eqb (n_str ++ c ∷ []) (text "all") ≡ false
unfolding split_last unit_secs
unit_not_all n_str c unit u = elim (Bool-cases (eqb (n_str ++ c ∷ []) (text "all"))) [
  | inr e ↦ e
  | inl e ↦
      let l : c ≡ b'l' = ap last_or_zero (
        sym (split_last-append n_str c)
        ∙ ap split_last ((eqb_iff (n_str ++ c ∷ []) (text "all")).0 e)) in
      ground (arith, l, u)
]

Accepts-parse_since : {s : Text} {d : Duration} → Accepts s d → parse_since s ≡ ok d
unfolding parse_since with_last with_unit with_number text_cmp
Accepts-parse_since unlimited = refl
Accepts-parse_since (window n_str n c unit h u) =
    rw (unit_not_all n_str c unit u, split_last-append n_str c, u, IsNumber-parse_u64 h) refl

-- A text is accepted exactly if it is `all`, with the longest duration, or a number of at most 64
-- bits with one of the four units, with that many seconds, cut off at 64 bits; any other text is
-- an error.
pub parse_since-Accepts : (s : Text) (d : Duration) → (parse_since s ≡ ok d) ↔ Accepts s d
parse_since-Accepts s d = (parse_since-ok s d, Accepts-parse_since)
