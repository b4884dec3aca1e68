-- ===== src/Order/Lexicographic.antt =====
-- Texts, their lexicographic order, and the string functions that the program calls.
use Prim.Native.Nat.{compare, Ordering}
use Prim.Native.Char.{code}
use Prim.Native.String.{String}
use agentprof.Base.{ℕ, ◌≡◌, ◌↔◌, List, [], ◌∷◌, refl, arith}
use agentprof.Order.Defs.{Ord, nat_ord}

abbrev pub Text : Type 0
Text = List ℕ

-- The code points of a literal.
abbrev pub text : String → Text
text String.[] = []
text (String.◌∷◌ c s) = code c ∷ text s

unfoldable pub text_cmp : Text → Text → Ordering
text_cmp [] [] = Ordering.eq
text_cmp [] (y ∷ ys) = Ordering.lt
text_cmp (x ∷ xs) [] = Ordering.gt
text_cmp (x ∷ xs) (y ∷ ys) = elim (compare x y) [
  | Ordering.lt ↦ Ordering.lt
  | Ordering.gt ↦ Ordering.gt
  | Ordering.eq ↦ text_cmp xs ys
]

pub text_cmp_eq : (a b : Text) → (text_cmp a b ≡ Ordering.eq) ↔ (a ≡ b)
unfolding text_cmp
text_cmp_eq [] [] = ground arith
text_cmp_eq [] (y ∷ ys) = ground arith
text_cmp_eq (x ∷ xs) [] = ground arith
text_cmp_eq (x ∷ xs) (y ∷ ys) = ground (arith, text_cmp_eq xs ys)

pub text_cmp_swap : (a b : Text) → (text_cmp a b ≡ Ordering.lt) ↔ (text_cmp b a ≡ Ordering.gt)
unfolding text_cmp
text_cmp_swap [] [] = ground arith
text_cmp_swap [] (y ∷ ys) = ground arith
text_cmp_swap (x ∷ xs) [] = ground arith
text_cmp_swap (x ∷ xs) (y ∷ ys) = ground (arith, text_cmp_swap xs ys)

pub text_cmp_trans :
    (a b c : Text)
    → text_cmp a b ≡ Ordering.lt
    → text_cmp b c ≡ Ordering.lt
    → text_cmp a c ≡ Ordering.lt
unfolding text_cmp
text_cmp_trans [] [] c h k = ground arith
text_cmp_trans [] (y ∷ ys) [] h k = ground arith
text_cmp_trans [] (y ∷ ys) (z ∷ zs) h k = refl
text_cmp_trans (x ∷ xs) [] c h k = ground arith
text_cmp_trans (x ∷ xs) (y ∷ ys) [] h k = ground arith
text_cmp_trans (x ∷ xs) (y ∷ ys) (z ∷ zs) h k = ground (arith, text_cmp_trans xs ys zs)

instance abbrev pub text_ord : Ord Text
text_ord = record {
  cmp = text_cmp;
  cmp_eq = text_cmp_eq;
  cmp_swap = text_cmp_swap;
  cmp_trans = text_cmp_trans;
}
