-- ===== src/Analyzer/Stats.antt =====
-- analyzer/stats.rs: percentiles by nearest rank. The code computes the index with floating-point
-- numbers; here the rate is a whole percentage, and `round` is done on the exact quotient. At the
-- two rates in use, 50 and 95, both give the same index for every slice of below 2 ^ 40 elements.
use agentprof.Base.{ℕ, ◌+◌, ◌*◌, ◌/◌, List, [], ◌∷◌, length, get_elem?, min}
use agentprof.Base.Int.{ℤ, pos, leb_ℤ}
use agentprof.Base.Sort.{sort_by}
use agentprof.Map.{or_default}

-- round(pct / 100 * last)
unfoldable pub rank_index : ℕ → ℕ → ℕ
rank_index pct last = (2 * (min pct 100 * last) + 100) / 200

unfoldable pub percentile_nearest_rank : List ℤ → ℕ → ℤ
percentile_nearest_rank [] pct = pos 0
percentile_nearest_rank (d ∷ ds) pct =
    or_default (pos 0) (get_elem? (d ∷ ds) (min (rank_index pct (length ds)) (length ds)))

-- `collect_sorted_durations`, of the spans of the calls.
unfoldable pub sorted_durations : List ℤ → List ℤ
sorted_durations ds = sort_by leb_ℤ ds

-- `durations.last()`, zero if there is none
abbrev pub last_or_zero : List ℤ → ℤ
last_or_zero [] = pos 0
last_or_zero (d ∷ []) = d
last_or_zero (d ∷ e ∷ ds) = last_or_zero (e ∷ ds)
