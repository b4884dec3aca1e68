-- ===== src/Order/Pairs.antt =====
-- The lexicographic order of pairs, the keys of a `BTreeMap<(String, String), _>`.
use Prim.Native.Nat.{Ordering}
use agentprof.Base.{◌≡◌, ◌↔◌, arith}
use agentprof.Order.Defs.{Ord}
use agentprof.Order.Lexicographic.{Text, text_cmp, text_cmp_eq, text_cmp_swap, text_cmp_trans}

unfoldable pub pair_cmp : Text × Text → Text × Text → Ordering
pair_cmp (a, b) (c, d) = elim (text_cmp a c) [
  | Ordering.lt ↦ Ordering.lt
  | Ordering.gt ↦ Ordering.gt
  | Ordering.eq ↦ text_cmp b d
]

pub pair_cmp_eq : (p q : Text × Text) → (pair_cmp p q ≡ Ordering.eq) ↔ (p ≡ q)
unfolding pair_cmp
pair_cmp_eq (a, b) (c, d) = ground (arith, text_cmp_eq a c, text_cmp_eq b d)

pub pair_cmp_swap :
    (p q : Text × Text) → (pair_cmp p q ≡ Ordering.lt) ↔ (pair_cmp q p ≡ Ordering.gt)
unfolding pair_cmp
pair_cmp_swap (a, b) (c, d) = ground (
  arith,
  text_cmp_eq a c,
  text_cmp_eq c a,
  text_cmp_swap a c,
  text_cmp_swap c a,
  text_cmp_swap b d,
)

pub pair_cmp_trans :
    (p q r : Text × Text)
    → pair_cmp p q ≡ Ordering.lt
    → pair_cmp q r ≡ Ordering.lt
    → pair_cmp p r ≡ Ordering.lt
unfolding pair_cmp
pair_cmp_trans (a, b) (c, d) (e, f) h k = ground (
  arith,
  text_cmp_eq a c,
  text_cmp_eq c e,
  text_cmp_eq a e,
  text_cmp_trans a c e,
  text_cmp_trans b d f,
)

instance abbrev pub pair_ord : Ord (Text × Text)
pair_ord = record {
  cmp = pair_cmp;
  cmp_eq = pair_cmp_eq;
  cmp_swap = pair_cmp_swap;
  cmp_trans = pair_cmp_trans;
}
