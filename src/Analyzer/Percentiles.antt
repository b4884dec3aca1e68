-- ===== src/Analyzer/Percentiles.antt =====
-- Percentiles of a sorted list: they grow with the rate and end at the last element.
use native.Mathlib.Numerals.{unary_clauses}
use native.Mathlib.Nat.{mul-le-mul_right}
use agentprof.Base.{
  ℕ, zero, suc, ◌*◌, ◌≤◌, ◌≡◌, true, List, [], ◌∷◌, arith, refl, length, get_elem?, min,
}
use agentprof.Base.Int.{ℤ, pos, leb_ℤ, ◌≤ℤ◌}
use agentprof.Base.Sort.{IsSortedBy, IsPreorder, sort_by-IsSortedBy}
use agentprof.Map.{or_default}
use agentprof.Analyzer.Stats.{rank_index, percentile_nearest_rank, sorted_durations, last_or_zero}

pub leb_ℤ-IsPreorder : IsPreorder leb_ℤ
leb_ℤ-IsPreorder = record { total = λ a b. ground arith; trans = λ a b c h k. ground arith }

pub sorted_durations-IsSortedBy : (ds : List ℤ) → IsSortedBy leb_ℤ (sorted_durations ds)
unfolding sorted_durations
sorted_durations-IsSortedBy ds = sort_by-IsSortedBy leb_ℤ leb_ℤ-IsPreorder ds

-- The element at a position, the last one behind the end.
abbrev clamped_elem : ℤ → List ℤ → ℕ → ℤ
clamped_elem d [] i = d
clamped_elem d (e ∷ ds) zero = d
clamped_elem d (e ∷ ds) (suc i) = clamped_elem e ds i

clamped_elem_lem :
    (d : ℤ) (ds : List ℤ) (i : ℕ)
    → or_default (pos 0) (get_elem? (d ∷ ds) (min i (length ds))) ≡ clamped_elem d ds i
clamped_elem_lem d [] zero = refl
clamped_elem_lem d [] (suc i) = simp unary_clauses refl
clamped_elem_lem d (e ∷ ds) zero = simp unary_clauses refl
clamped_elem_lem d (e ∷ ds) (suc i) = simp unary_clauses (clamped_elem_lem e ds i)

clamped_elem_first :
    (d : ℤ) (ds : List ℤ) (i : ℕ) → IsSortedBy leb_ℤ (d ∷ ds) → d ≤ℤ clamped_elem d ds i
clamped_elem_first d [] i h = omega arith
clamped_elem_first d (e ∷ ds) zero h = omega arith
clamped_elem_first d (e ∷ ds) (suc i) h =
    let first : leb_ℤ d e ≡ true = h.0.0 in ground (arith, first, clamped_elem_first e ds i h.1)

clamped_elem_mono :
    (d : ℤ) (ds : List ℤ) (i j : ℕ)
    → IsSortedBy leb_ℤ (d ∷ ds)
    → i ≤ j
    → clamped_elem d ds i ≤ℤ clamped_elem d ds j
clamped_elem_mono d [] i j h le = omega arith
clamped_elem_mono d (e ∷ ds) zero j h le = clamped_elem_first d (e ∷ ds) j h
clamped_elem_mono d (e ∷ ds) (suc i) zero h le = absurd (omega arith)
clamped_elem_mono d (e ∷ ds) (suc i) (suc j) h le = clamped_elem_mono e ds i j h.1 (omega arith)

rank_index_mono : (p q last : ℕ) → p ≤ q → rank_index p last ≤ rank_index q last
unfolding rank_index
rank_index_mono p q last h =
    let products : min p 100 * last ≤ min q 100 * last = mul-le-mul_right last (omega arith) in
    omega (arith, products)

clamped_elem-le-last :
    (d : ℤ) (ds : List ℤ) (i : ℕ)
    → IsSortedBy leb_ℤ (d ∷ ds)
    → clamped_elem d ds i ≤ℤ last_or_zero (d ∷ ds)
clamped_elem-le-last d [] i h = omega arith
clamped_elem-le-last d (e ∷ ds) zero h =
    let first : leb_ℤ d e ≡ true = h.0.0 in
    ground (arith, first, clamped_elem-le-last e ds zero h.1)
clamped_elem-le-last d (e ∷ ds) (suc i) h = clamped_elem-le-last e ds i h.1

percentile_nearest_rank_lem :
    (d : ℤ) (ds : List ℤ) (p : ℕ)
    → percentile_nearest_rank (d ∷ ds) p ≡ clamped_elem d ds (rank_index p (length ds))
unfolding percentile_nearest_rank
percentile_nearest_rank_lem d ds p = clamped_elem_lem d ds (rank_index p (length ds))

-- In a sorted list a percentile grows with its rate, and no percentile is above the last element.
pub percentile_nearest_rank_mono :
    (ds : List ℤ) (p q : ℕ)
    → IsSortedBy leb_ℤ ds
    → p ≤ q
    → (percentile_nearest_rank ds p ≤ℤ percentile_nearest_rank ds q)
      × (percentile_nearest_rank ds q ≤ℤ last_or_zero ds)
unfolding percentile_nearest_rank
percentile_nearest_rank_mono [] p q h le = (omega arith, omega arith)
percentile_nearest_rank_mono (d ∷ ds) p q h le =
    let n = length ds in
    rw (percentile_nearest_rank_lem d ds p, percentile_nearest_rank_lem d ds q)
      (
        clamped_elem_mono d ds (rank_index p n) (rank_index q n) h (rank_index_mono p q n le),
        clamped_elem-le-last d ds (rank_index q n) h,
      )
