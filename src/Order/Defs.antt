-- ===== src/Order/Defs.antt =====
-- A total order with a three-way comparison, the `Ord` of the keys of ordered maps.
use Prim.Native.Nat.{compare, Ordering}
use agentprof.Base.{◌⊎◌, inl, inr, ℕ, ◌≡◌, ◌↔◌, Bool, true, false, refl, arith}

pub record Ord (K : Type 0) : Type 0 where
  pub cmp : K → K → Ordering
  pub cmp_eq : (a b : K) → (cmp a b ≡ Ordering.eq) ↔ (a ≡ b)
  pub cmp_swap : (a b : K) → (cmp a b ≡ Ordering.lt) ↔ (cmp b a ≡ Ordering.gt)
  pub cmp_trans :
      (a b c : K) → cmp a b ≡ Ordering.lt → cmp b c ≡ Ordering.lt → cmp a c ≡ Ordering.lt

-- To split on a comparison and keep the equation.
pub Ordering-cases : (c : Ordering) → (c ≡ Ordering.lt) ⊎ ((c ≡ Ordering.eq) ⊎ (c ≡ Ordering.gt))
Ordering-cases Ordering.lt = inl refl
Ordering-cases Ordering.eq = inr (inl refl)
Ordering-cases Ordering.gt = inr (inr refl)

-- The test `a == b` of a type with an order.
abbrev pub eqb : {K : Type 0} ⦃o : Ord K⦄ → K → K → Bool
eqb ⦃o⦄ a b = elim (o.cmp a b) [ Ordering.eq ↦ true | _ ↦ false ]

module _ {K : Type 0} ⦃o : Ord K⦄ where
  pub eqb_iff : (a b : K) → (eqb a b ≡ true) ↔ (a ≡ b)
  eqb_iff a b = (λ h. (o.cmp_eq a b).0 (ground arith), λ e. ground (arith, (o.cmp_eq a b).1 e))

  pub cmp_refl : (a : K) → o.cmp a a ≡ Ordering.eq
  cmp_refl a = (o.cmp_eq a a).1 refl

pub nat_cmp_eq : (a b : ℕ) → (compare a b ≡ Ordering.eq) ↔ (a ≡ b)
nat_cmp_eq a b = ground arith

pub nat_cmp_swap : (a b : ℕ) → (compare a b ≡ Ordering.lt) ↔ (compare b a ≡ Ordering.gt)
nat_cmp_swap a b = ground arith

pub nat_cmp_trans :
    (a b c : ℕ) → compare a b ≡ Ordering.lt → compare b c ≡ Ordering.lt → compare a c ≡ Ordering.lt
nat_cmp_trans a b c h k = ground arith

instance abbrev pub nat_ord : Ord ℕ
nat_ord = record {
  cmp = compare;
  cmp_eq = nat_cmp_eq;
  cmp_swap = nat_cmp_swap;
  cmp_trans = nat_cmp_trans;
}
