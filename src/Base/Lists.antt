-- ===== src/Base/Lists.antt =====
-- Lists measured and indexed by native numbers, under the library's names, with the updates in
-- place that the program makes.
use Prim.Native.Nat.{ℕ, zero, suc, ◌+◌, ◌≤◌}
use mathlib.Core.Path.{◌≡◌, refl, ap}
use mathlib.Core.Bool.{Bool, true, false}
use mathlib.Core.List.{map, reverse, reverse-cons, List, [], ◌∷◌, ◌++◌}
use mathlib.Core.Option.{Option, none, some}
use native.Mathlib.Omega.{arith}
use agentprof.Base.Tests.{if◌then◌else◌}

module _ {ℓ} {A : Type ℓ} where
  abbrev pub length : List A → ℕ
  length [] = 0
  length (x ∷ xs) = suc (length xs)

  abbrev pub get_elem? : List A → ℕ → Option A
  get_elem? [] i = none
  get_elem? (x ∷ xs) zero = some x
  get_elem? (x ∷ xs) (suc i) = get_elem? xs i

  -- `if let Some(x) = xs.get_mut(i) { *x = f(x) }`
  abbrev pub modify_at : ℕ → (A → A) → List A → List A
  modify_at i f [] = []
  modify_at zero f (x ∷ xs) = f x ∷ xs
  modify_at (suc i) f (x ∷ xs) = x ∷ modify_at i f xs

  -- `if let Some(x) = xs.last_mut() { *x = f(x) }`
  abbrev pub modify_last : (A → A) → List A → List A
  modify_last f [] = []
  modify_last f (x ∷ []) = f x ∷ []
  modify_last f (x ∷ y ∷ ys) = x ∷ modify_last f (y ∷ ys)

  -- `xs.iter().rposition(p)`: the last position whose element passes the test.
  abbrev pub rposition : (A → Bool) → List A → Option ℕ
  rposition p [] = none
  rposition p (x ∷ xs) = elim (rposition p xs) [
    | some i ↦ some (suc i)
    | none ↦ if p x then some 0 else none
  ]

  -- How many elements pass a test.
  abbrev pub count : (A → Bool) → List A → ℕ
  count p [] = 0
  count p (x ∷ xs) = (if p x then 1 else 0) + count p xs

  abbrev pub any : (A → Bool) → List A → Bool
  any p [] = false
  any p (x ∷ xs) = if p x then true else any p xs

  abbrev pub filter : (A → Bool) → List A → List A
  filter p [] = []
  filter p (x ∷ xs) = if p x then x ∷ filter p xs else filter p xs

  abbrev pub All {κ} : (A → Type κ) → List A → Type κ
  All P [] = Unit
  All P (x ∷ xs) = P x × All P xs

module _ {ℓ} {A : Type ℓ} where
  pub length-append : (xs ys : List A) → length (xs ++ ys) ≡ length xs + length ys
  length-append [] ys = omega arith
  length-append (x ∷ xs) ys = omega (arith, length-append xs ys)

  pub length-reverse : (xs : List A) → length (reverse xs) ≡ length xs
  length-reverse [] = refl
  length-reverse (x ∷ xs) =
      rw reverse-cons (omega (arith, length-append (reverse xs) (x ∷ []), length-reverse xs))

  pub length-modify_at : (i : ℕ) (f : A → A) (xs : List A) → length (modify_at i f xs) ≡ length xs
  length-modify_at i f [] = refl
  length-modify_at zero f (x ∷ xs) = refl
  length-modify_at (suc i) f (x ∷ xs) = ap suc (length-modify_at i f xs)

  pub length-modify_last : (f : A → A) (xs : List A) → length (modify_last f xs) ≡ length xs
  length-modify_last f [] = refl
  length-modify_last f (x ∷ []) = refl
  length-modify_last f (x ∷ y ∷ ys) = ap suc (length-modify_last f (y ∷ ys))

  pub count-append : (p : A → Bool) (xs ys : List A) → count p (xs ++ ys) ≡ count p xs + count p ys
  count-append p [] ys = omega arith
  count-append p (x ∷ xs) ys = omega (arith, count-append p xs ys)

  pub filter-append :
      (p : A → Bool) (xs ys : List A) → filter p (xs ++ ys) ≡ filter p xs ++ filter p ys
  filter-append p [] ys = refl
  filter-append p (x ∷ xs) ys = ground (arith, filter-append p xs ys)

  pub count-le-length : (p : A → Bool) (xs : List A) → count p xs ≤ length xs
  count-le-length p [] = omega arith
  count-le-length p (x ∷ xs) = ground (arith, count-le-length p xs)

  pub modify_last-append :
      (f : A → A) (xs : List A) (x : A) → modify_last f (xs ++ x ∷ []) ≡ xs ++ f x ∷ []
  modify_last-append f [] x = refl
  modify_last-append f (y ∷ []) x = refl
  modify_last-append f (y ∷ z ∷ xs) x = ap (λ l. y ∷ l) (modify_last-append f (z ∷ xs) x)

  module _ {κ} (P : A → Type κ) where
    pub All-append : (xs ys : List A) → All P xs → All P ys → All P (xs ++ ys)
    All-append [] ys hx hy = hy
    All-append (x ∷ xs) ys hx hy = (hx.0, All-append xs ys hx.1 hy)

    pub All-modify_at :
        (i : ℕ) (f : A → A) (xs : List A)
        → ((x : A) → P x → P (f x))
        → All P xs
        → All P (modify_at i f xs)
    All-modify_at i f [] keep h = tt
    All-modify_at zero f (x ∷ xs) keep h = (keep x h.0, h.1)
    All-modify_at (suc i) f (x ∷ xs) keep h = (h.0, All-modify_at i f xs keep h.1)

  pub All-map {κ μ} :
      (P : A → Type κ) (Q : A → Type μ) (xs : List A) → ((x : A) → P x → Q x) → All P xs → All Q xs
  All-map P Q [] f h = tt
  All-map P Q (x ∷ xs) f h = (f x h.0, All-map P Q xs f h.1)

pub length-map {ℓ κ} :
    {A : Type ℓ} {B : Type κ} (f : A → B) (xs : List A) → length (map f xs) ≡ length xs
length-map f [] = omega arith
length-map f (x ∷ xs) = omega (arith, length-map f xs)
