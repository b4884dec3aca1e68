-- ===== src/Cli/Since.antt =====
-- crates/agentprof-cli/src/cmd/since.rs: `parse_since`. `parse_u64` is `str::parse::<u64>` of the
-- Rust standard library. An error carries the text that the message shows.
use agentprof.Base.{
  ℕ, ◌+◌, ◌-◌, ◌*◌, Bool, ◌&&◌, not, Option, none, some, [], ◌∷◌, ◌==◌, min, leb, ltb,
  if◌then◌else◌,
}
use agentprof.Base.Words.{u64_max}
use agentprof.Order.{Text, text, text_ord, eqb}

pub data ParseIntError : Type 0 where
  empty invalid_digit pos_overflow : ParseIntError

pub data SinceError : Type 0 where
  unrecognized : Text → SinceError
  not_a_number : Text → ParseIntError → SinceError

pub data Result (E A : Type 0) : Type 0 where
  ok : A → Result E A
  err : E → Result E A

-- `std::time::Duration`
pub record Duration : Type 0 where
  pub secs : ℕ
  pub nanos : ℕ

abbrev pub duration_max : Duration
duration_max = record { secs = u64_max; nanos = 999999999 }

abbrev pub from_secs : ℕ → Duration
from_secs n = record { secs = n; nanos = 0 }

abbrev pub is_digit : ℕ → Bool
is_digit c = leb b'0' c && leb c b'9'

-- The digits from left to right: a bad digit is reported first, then an overflow of the product or
-- of the sum.
unfoldable pub parse_digits : ℕ → Text → Result ParseIntError ℕ
parse_digits acc [] = ok acc
parse_digits acc (c ∷ cs) =
    let rest = parse_digits (acc * 10 + (c - b'0')) cs in
    if not (is_digit c)
    then err invalid_digit
    else if ltb u64_max (acc * 10 + (c - b'0'))
    then err pos_overflow
    else rest

-- A sign `+` may stand before the digits, but not alone.
unfoldable pub parse_u64 : Text → Result ParseIntError ℕ
unfolding parse_digits
parse_u64 [] = err empty
parse_u64 (c ∷ []) = parse_digits 0 (c ∷ [])
parse_u64 (c ∷ d ∷ cs) = if c == b'+' then parse_digits 0 (d ∷ cs) else parse_digits 0 (c ∷ d ∷ cs)

-- The text before the last character, and that character.
unfoldable pub split_last : Text → Option (Text × ℕ)
split_last [] = none
split_last (c ∷ cs) = elim (split_last cs) [
  | none ↦ some ([], c)
  | some (before, last) ↦ some (c ∷ before, last)
]

unfoldable pub unit_secs : ℕ → Option ℕ
unit_secs c =
    if c == b's'
    then some 1
    else if c == b'm'
    then some 60
    else if c == b'h'
    then some 3600
    else if c == b'd'
    then some 86400
    else none

-- What follows the parsing of the number, the unit and the last character.
unfoldable pub with_number : Text → ℕ → Result ParseIntError ℕ → Result SinceError Duration
with_number n_str unit (err e) = err (not_a_number n_str e)
with_number n_str unit (ok n) = ok (from_secs (min (n * unit) u64_max))

unfoldable pub with_unit : Text → Text → Option ℕ → Result SinceError Duration
unfolding with_number parse_u64
with_unit s n_str none = err (unrecognized s)
with_unit s n_str (some unit) = with_number n_str unit (parse_u64 n_str)

unfoldable pub with_last : Text → Option (Text × ℕ) → Result SinceError Duration
unfolding with_unit unit_secs
with_last s none = err (unrecognized s)
with_last s (some (n_str, c)) = with_unit s n_str (unit_secs c)

unfoldable pub parse_since : Text → Result SinceError Duration
unfolding with_last split_last
parse_since s = if eqb s (text "all") then ok duration_max else with_last s (split_last s)
