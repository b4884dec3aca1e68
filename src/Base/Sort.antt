-- ===== src/Base/Sort.antt =====
-- The stable sort of the Rust standard library, by insertion, and what it promises.
use mathlib.Core.List.{Perm}
use mathlib.Core.List.Perm
use agentprof.Base.{
  ℕ, ◌+◌, ◌≡◌, ◌⊎◌, Bool, true, false, List, [], ◌∷◌, ◌++◌, arith, refl, All, Bool-cases, inl, inr,
  length, count, if◌then◌else◌,
}

-- The sum of a number over the elements of a list.
abbrev pub sum_by {ℓ} : {A : Type ℓ} → (A → ℕ) → List A → ℕ
sum_by g [] = 0
sum_by g (x ∷ xs) = g x + sum_by g xs

-- Counting is a sum.
pub count-sum_by {ℓ} :
    {A : Type ℓ} (p : A → Bool) (xs : List A) → count p xs ≡ sum_by (λ x. if p x then 1 else 0) xs
count-sum_by p [] = omega arith
count-sum_by p (x ∷ xs) = omega (arith, count-sum_by p xs)

pub sum_by-append {ℓ} :
    {A : Type ℓ} (g : A → ℕ) (xs ys : List A) → sum_by g (xs ++ ys) ≡ sum_by g xs + sum_by g ys
sum_by-append g [] ys = omega arith
sum_by-append g (x ∷ xs) ys = omega (arith, sum_by-append g xs ys)

pub sum_by-one {ℓ} : {A : Type ℓ} (xs : List A) → sum_by (λ x. 1) xs ≡ length xs
sum_by-one [] = refl
sum_by-one (x ∷ xs) = omega (arith, sum_by-one xs)

-- A Boolean test that is a total preorder.
pub record IsPreorder {A : Type 0} (le : A → A → Bool) : Type 0 where
  pub total : (a b : A) → (le a b ≡ true) ⊎ (le b a ≡ true)
  pub trans : (a b c : A) → le a b ≡ true → le b c ≡ true → le a c ≡ true

module _ {A : Type 0} (le : A → A → Bool) where
  -- An element goes before the first one that it may stand before.
  unfoldable pub insert_by : A → List A → List A
  insert_by x [] = x ∷ []
  insert_by x (y ∷ ys) = let rest = insert_by x ys in if le x y then x ∷ y ∷ ys else y ∷ rest

  unfoldable pub sort_by : List A → List A
  unfolding insert_by
  sort_by [] = []
  sort_by (x ∷ xs) = insert_by x (sort_by xs)

  -- Each element may stand before all that follow it.
  abbrev pub IsSortedBy : List A → Type 0
  IsSortedBy [] = Unit
  IsSortedBy (x ∷ xs) = All (λ y. le x y ≡ true) xs × IsSortedBy xs

  insert_by-perm : (x : A) (ys : List A) → Perm (insert_by x ys) (x ∷ ys)
  unfolding insert_by
  insert_by-perm x [] = Perm.refl (x ∷ [])
  insert_by-perm x (y ∷ ys) = elim (Bool-cases (le x y)) [
    | inl e ↦ rw e (Perm.refl (x ∷ y ∷ ys))
    | inr e ↦ rw e (Perm.trans (Perm.cons y (insert_by-perm x ys)) (Perm.swap x y ys))
  ]

  -- Sorting permutes.
  pub sort_by-perm : (xs : List A) → Perm (sort_by xs) xs
  unfolding sort_by
  sort_by-perm [] = Perm.refl []
  sort_by-perm (x ∷ xs) = Perm.trans (insert_by-perm x (sort_by xs)) (Perm.cons x (sort_by-perm xs))

  All-insert_by : (P : A → Type 0) (x : A) (ys : List A) → P x → All P ys → All P (insert_by x ys)
  unfolding insert_by
  All-insert_by P x [] px h = (px, tt)
  All-insert_by P x (y ∷ ys) px h = elim (Bool-cases (le x y)) [
    | inl e ↦ rw e (px, h)
    | inr e ↦ rw e (h.0, All-insert_by P x ys px h.1)
  ]

  -- What holds of all elements holds of all sorted ones.
  pub All-sort_by : (P : A → Type 0) (xs : List A) → All P xs → All P (sort_by xs)
  unfolding sort_by
  All-sort_by P [] h = tt
  All-sort_by P (x ∷ xs) h = All-insert_by P x (sort_by xs) h.0 (All-sort_by P xs h.1)

  sum_by-insert_by :
      (g : A → ℕ) (x : A) (ys : List A) → sum_by g (insert_by x ys) ≡ g x + sum_by g ys
  unfolding insert_by
  sum_by-insert_by g x [] = omega arith
  sum_by-insert_by g x (y ∷ ys) = ground (arith, sum_by-insert_by g x ys)

  -- Sorting keeps sums.
  pub sum_by-sort_by : (g : A → ℕ) (xs : List A) → sum_by g (sort_by xs) ≡ sum_by g xs
  unfolding sort_by
  sum_by-sort_by g [] = omega arith
  sum_by-sort_by g (x ∷ xs) = omega (arith, sum_by-insert_by g x (sort_by xs), sum_by-sort_by g xs)

  length-insert_by : (x : A) (ys : List A) → length (insert_by x ys) ≡ length ys + 1
  unfolding insert_by
  length-insert_by x [] = omega arith
  length-insert_by x (y ∷ ys) = ground (arith, length-insert_by x ys)

  -- Sorting keeps the length.
  pub length-sort_by : (xs : List A) → length (sort_by xs) ≡ length xs
  unfolding sort_by
  length-sort_by [] = omega arith
  length-sort_by (x ∷ xs) = omega (arith, length-insert_by x (sort_by xs), length-sort_by xs)

  module _ (order : IsPreorder le) where
    open order use {total, trans}

    All-le_trans :
        (x y : A) (ys : List A)
        → le x y ≡ true
        → All (λ z. le y z ≡ true) ys
        → All (λ z. le x z ≡ true) ys
    All-le_trans x y [] e h = tt
    All-le_trans x y (z ∷ ys) e h = (trans x y z e h.0, All-le_trans x y ys e h.1)

    flip : (x y : A) → le x y ≡ false → le y x ≡ true
    flip x y e = elim (total x y) [ inl xy ↦ cc | inr yx ↦ yx ]

    insert_by-IsSortedBy : (x : A) (ys : List A) → IsSortedBy ys → IsSortedBy (insert_by x ys)
    unfolding insert_by
    insert_by-IsSortedBy x [] h = (tt, tt)
    insert_by-IsSortedBy x (y ∷ ys) h = elim (Bool-cases (le x y)) [
      | inl e ↦ rw (e, IsSortedBy) ((e, All-le_trans x y ys e h.0), h)
      | inr e ↦
          rw (e, IsSortedBy)
            (
              All-insert_by (λ z. le y z ≡ true) x ys (flip x y e) h.0,
              insert_by-IsSortedBy x ys h.1,
            )
    ]

    -- Sorting sorts.
    pub sort_by-IsSortedBy : (xs : List A) → IsSortedBy (sort_by xs)
    unfolding sort_by
    sort_by-IsSortedBy [] = tt
    sort_by-IsSortedBy (x ∷ xs) = insert_by-IsSortedBy x (sort_by xs) (sort_by-IsSortedBy xs)
