-- ===== src/Map/Ordered.antt =====
-- The order of the keys of a map, which its updates keep, and with which each entry is found.
use Prim.Native.Nat.{Ordering}
use agentprof.Base.{
  ◌≡◌, ◌≤◌, Bool-cases, subst, refl, [], ◌∷◌, arith, none, some, inl, inr, if◌then◌else◌,
}
use agentprof.Order.{Ord, eqb, eqb_iff, Ordering-cases, cmp_refl}
use agentprof.Map.Defs.{BTreeMap, get, upsert, remove}
use agentprof.Map.Sums.{AllEntries, sum_entries}

module _ {K V : Type 0} ⦃o : Ord K⦄ where
  -- A key is below all keys of a map.
  abbrev pub IsBelow : K → BTreeMap K V → Type 0
  IsBelow k m = AllEntries (λ j v. o.cmp k j ≡ Ordering.lt) m

  abbrev pub IsOrdered : BTreeMap K V → Type 0
  IsOrdered [] = Unit
  IsOrdered ((k, v) ∷ m) = IsBelow k m × IsOrdered m

  pub IsBelow-trans :
      (i k : K) (m : BTreeMap K V) → o.cmp i k ≡ Ordering.lt → IsBelow k m → IsBelow i m
  IsBelow-trans i k [] e h = tt
  IsBelow-trans i k ((j, v) ∷ m) e h = (o.cmp_trans i k j e h.0, IsBelow-trans i k m e h.1)

  IsBelow-upsert :
      (i k : K) (d : V) (f : V → V) (m : BTreeMap K V)
      → o.cmp i k ≡ Ordering.lt
      → IsBelow i m
      → IsBelow i (upsert k d f m)
  unfolding upsert
  IsBelow-upsert i k d f [] e h = (e, tt)
  IsBelow-upsert i k d f ((j, v) ∷ m) e h = elim (Ordering-cases (o.cmp k j)) [
    | inl c ↦ rw (c, upsert, AllEntries) (e, h)
    | inr (inl c) ↦ rw (c, upsert, AllEntries) h
    | inr (inr c) ↦ rw (c, upsert, AllEntries) (h.0, IsBelow-upsert i k d f m e h.1)
  ]

  -- Updates keep the order.
  pub upsert-IsOrdered :
      (k : K) (d : V) (f : V → V) (m : BTreeMap K V) → IsOrdered m → IsOrdered (upsert k d f m)
  unfolding upsert
  upsert-IsOrdered k d f [] h = (tt, tt)
  upsert-IsOrdered k d f ((j, v) ∷ m) h = elim (Ordering-cases (o.cmp k j)) [
    | inl c ↦ rw (c, upsert, IsOrdered) ((c, IsBelow-trans k j m c h.0), h)
    | inr (inl c) ↦ rw (c, upsert, IsOrdered) h
    | inr (inr c) ↦
        rw (c, upsert, IsOrdered)
          (IsBelow-upsert j k d f m ((o.cmp_swap j k).1 c) h.0, upsert-IsOrdered k d f m h.1)
  ]

  get_below :
      (j : K) (w : V) (m : BTreeMap K V) (n : BTreeMap K V)
      → IsBelow j n
      → AllEntries (λ k v. get k m ≡ some v) n
      → AllEntries (λ k v. get k ((j, w) ∷ m) ≡ some v) n
  unfolding get
  get_below j w m [] below h = tt
  get_below j w m ((k, v) ∷ n) below h =
      (ground (arith, below.0, h.0, o.cmp_swap j k), get_below j w m n below.1 h.1)

  -- In a map whose keys are in order each entry is the one that its key finds.
  pub IsOrdered-get : (m : BTreeMap K V) → IsOrdered m → AllEntries (λ k v. get k m ≡ some v) m
  unfolding get
  IsOrdered-get [] h = tt
  IsOrdered-get ((k, v) ∷ m) h =
      (ground (arith, cmp_refl k), get_below k v m m h.0 (IsOrdered-get m h.1))

  IsBelow-remove : (i k : K) (m : BTreeMap K V) → IsBelow i m → IsBelow i (remove k m)
  unfolding remove
  IsBelow-remove i k [] h = tt
  IsBelow-remove i k ((j, v) ∷ m) h = elim (Ordering-cases (o.cmp k j)) [
    | inl c ↦ rw (c, remove, AllEntries) h
    | inr (inl c) ↦ rw (c, remove, AllEntries) h.1
    | inr (inr c) ↦ rw (c, remove, AllEntries) (h.0, IsBelow-remove i k m h.1)
  ]

  pub remove-IsOrdered : (k : K) (m : BTreeMap K V) → IsOrdered m → IsOrdered (remove k m)
  unfolding remove
  remove-IsOrdered k [] h = tt
  remove-IsOrdered k ((j, v) ∷ m) h = elim (Ordering-cases (o.cmp k j)) [
    | inl c ↦ rw (c, remove, IsOrdered) h
    | inr (inl c) ↦ rw (c, remove, IsOrdered) h.1
    | inr (inr c) ↦ rw (c, remove, IsOrdered) (IsBelow-remove j k m h.0, remove-IsOrdered k m h.1)
  ]

  -- A key below all keys of a map finds nothing.
  pub IsBelow-get : (k : K) (m : BTreeMap K V) → IsBelow k m → get k m ≡ none
  unfolding get
  IsBelow-get k [] h = ground arith
  IsBelow-get k ((j, v) ∷ m) h = ground (arith, h.0)

  pub IsBelow-get_lt :
      (j i : K) (m : BTreeMap K V) → IsBelow i m → o.cmp j i ≡ Ordering.lt → get j m ≡ none
  IsBelow-get_lt j i m h e = IsBelow-get j m (IsBelow-trans j i m e h)

  -- Looking up behind a removal, in a map whose keys are in order.
  pub get-remove :
      (j k : K) (m : BTreeMap K V)
      → IsOrdered m
      → get j (remove k m) ≡ (if eqb j k then none else get j m)
  unfolding get remove
  get-remove j k [] h = ground arith
  get-remove j k ((i, v) ∷ m) h = ground (
    arith,
    o.cmp_eq j k,
    o.cmp_eq k i,
    o.cmp_eq j i,
    IsBelow-get i m h.0,
    IsBelow-get_lt j i m h.0,
    get-remove j k m h.1,
  )

  IsBelow-no_entry :
      (k : K) (m : BTreeMap K V) → IsBelow k m → sum_entries (λ j v. if eqb j k then 1 else 0) m ≡ 0
  IsBelow-no_entry k [] h = refl
  IsBelow-no_entry k ((j, v) ∷ m) h = ground (arith, IsBelow-no_entry k m h.1, h.0, o.cmp_swap k j)

  -- In a map whose keys are in order a key stands at most once.
  pub IsOrdered-one_entry :
      (k : K) (m : BTreeMap K V) → IsOrdered m → sum_entries (λ j v. if eqb j k then 1 else 0) m ≤ 1
  IsOrdered-one_entry k [] h = omega arith
  IsOrdered-one_entry k ((j, v) ∷ m) h = elim (Bool-cases (eqb j k)) [
    | inl e ↦
        rw (e, if◌then◌else◌)
          (omega (arith, IsBelow-no_entry k m (subst (λ i. IsBelow i m) ((eqb_iff j k).0 e) h.0)))
    | inr e ↦ rw (e, if◌then◌else◌) (omega (arith, IsOrdered-one_entry k m h.1))
  ]
