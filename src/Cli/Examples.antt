-- ===== src/Cli/Examples.antt =====
-- Values of `--since` as in the tests of the command line.
use agentprof.Base.Decimal.{decimal}
use agentprof.Base.Words.{u64_max}
use agentprof.Cli.RoundTrip.{parse_since-decimal}
use agentprof.Base.{◌++◌, ◌*◌, min, arith, [], ◌∷◌, ◌^◌, ◌-◌, ◌≡◌, ◌↔◌, refl}
use agentprof.Order.{text, text_ord, text_cmp}
use agentprof.Cli.Since.{
  unit_secs, parse_since, ok, err, from_secs, unrecognized, not_a_number, invalid_digit,
}
use agentprof.Cli.Accepts.{Accepts, parse_since-Accepts}

days : parse_since (text "7d") ≡ ok (from_secs 604800)
unfolding parse_since text_cmp
days = refl

-- The doc comment says that this saturates to `Duration::MAX`; it has no nanoseconds.
saturated : parse_since (text "1000000000000000000d") ≡ ok (from_secs (2 ^ 64 - 1))
unfolding parse_since text_cmp
saturated = refl

bad_unit : parse_since (text "12x") ≡ err (unrecognized (text "12x"))
unfolding parse_since text_cmp
bad_unit = refl

bad_number : parse_since (text "12.5d") ≡ err (not_a_number (text "12.5") invalid_digit)
unfolding parse_since text_cmp
bad_number = refl

parse_since-Accepts_example :
    (parse_since (text "30m") ≡ ok (from_secs 1800)) ↔ Accepts (text "30m") (from_secs 1800)
parse_since-Accepts_example = parse_since-Accepts (text "30m") (from_secs 1800)

parse_since-decimal_example :
    parse_since (decimal 36 ++ b'h' ∷ []) ≡ ok (from_secs (min (36 * 3600) u64_max))
unfolding unit_secs
parse_since-decimal_example = parse_since-decimal 36 b'h' 3600 (omega arith) refl
