-- ===== src/Map/Sums.antt =====
-- Predicates on every entry of a map, and sums over its values.
use agentprof.Base.{ℕ, ◌+◌, ◌≡◌, Option, [], ◌∷◌, arith, none, some, inl, inr, subst, sym}
use agentprof.Order.{Ord, Ordering-cases}
use agentprof.Map.Defs.{BTreeMap, get, upsert, adjust, remove}
use agentprof.Map.Lookup.{or_default}

-- The sum of a number over the values of a map.
abbrev pub sum_values : {K V : Type 0} → (V → ℕ) → BTreeMap K V → ℕ
sum_values g [] = 0
sum_values g ((k, v) ∷ m) = g v + sum_values g m

-- The same of a number that may depend on the key.
abbrev pub sum_entries : {K V : Type 0} → (K → V → ℕ) → BTreeMap K V → ℕ
sum_entries g [] = 0
sum_entries g ((k, v) ∷ m) = g k v + sum_entries g m

-- Every entry, key and value, has a property.
abbrev pub AllEntries : {K V : Type 0} → (K → V → Type 0) → BTreeMap K V → Type 0
AllEntries P [] = Unit
AllEntries P ((k, v) ∷ m) = P k v × AllEntries P m

-- The number of a value that may be absent.
abbrev pub weight : {V : Type 0} → (V → ℕ) → Option V → ℕ
weight g none = 0
weight g (some v) = g v

module _ {K V : Type 0} ⦃o : Ord K⦄ where
  -- Where an update adds `c` to the number of every value, the sum grows by `c`.
  pub sum_values-upsert :
      (g : V → ℕ) (c : ℕ) (k : K) (d : V) (f : V → V) (m : BTreeMap K V)
      → g d ≡ 0
      → ((v : V) → g (f v) ≡ g v + c)
      → sum_values g (upsert k d f m) ≡ sum_values g m + c
  unfolding upsert
  sum_values-upsert g c k d f [] z h = omega (arith, h d)
  sum_values-upsert g c k d f ((j, v) ∷ m) z h =
      ground (arith, h d, h v, sum_values-upsert g c k d f m z h)

  pub sum_entries-upsert :
      (g : K → V → ℕ) (c : ℕ) (k : K) (d : V) (f : V → V) (m : BTreeMap K V)
      → g k d ≡ 0
      → ((v : V) → g k (f v) ≡ g k v + c)
      → sum_entries g (upsert k d f m) ≡ sum_entries g m + c
  unfolding upsert
  sum_entries-upsert g c k d f [] z h = omega (arith, h d, z)
  sum_entries-upsert g c k d f ((j, v) ∷ m) z h = elim (Ordering-cases (o.cmp k j)) [
    | inl e ↦ rw (e, sum_entries) (omega (arith, h d, z))
    | inr (inl e) ↦
        let same : k ≡ j = (o.cmp_eq k j).0 e in
        rw (e, sum_entries) (omega (arith, subst (λ i. g i (f v) ≡ g i v + c) same (h v)))
    | inr (inr e) ↦ rw (e, sum_entries) (omega (arith, sum_entries-upsert g c k d f m z h))
  ]

  -- Where an update in place leaves the number of every value, it leaves the sum.
  pub sum_values-adjust :
      (g : V → ℕ) (k : K) (f : V → V) (m : BTreeMap K V)
      → ((v : V) → g (f v) ≡ g v)
      → sum_values g (adjust k f m) ≡ sum_values g m
  unfolding adjust
  sum_values-adjust g k f [] h = omega arith
  sum_values-adjust g k f ((j, v) ∷ m) h = ground (arith, h v, sum_values-adjust g k f m h)

  -- An update takes the number of the old value out of the sum and puts that of the new one in.
  pub sum_values-upsert_at :
      (g : V → ℕ) (k : K) (d : V) (f : V → V) (m : BTreeMap K V)
      → sum_values g (upsert k d f m) + weight g (get k m)
        ≡ sum_values g m + g (f (or_default d (get k m)))
  unfolding upsert get
  sum_values-upsert_at g k d f [] = omega arith
  sum_values-upsert_at g k d f ((j, v) ∷ m) = ground (arith, sum_values-upsert_at g k d f m)

  -- A removal takes the number of the value out.
  pub sum_values-remove :
      (g : V → ℕ) (k : K) (m : BTreeMap K V)
      → sum_values g (remove k m) + weight g (get k m) ≡ sum_values g m
  unfolding remove get
  sum_values-remove g k [] = omega arith
  sum_values-remove g k ((j, v) ∷ m) = ground (arith, sum_values-remove g k m)

  pub AllEntries-upsert :
      (P : K → V → Type 0) (k : K) (d : V) (f : V → V) (m : BTreeMap K V)
      → P k (f d)
      → ((j : K) (v : V) → k ≡ j → P j v → P j (f v))
      → AllEntries P m
      → AllEntries P (upsert k d f m)
  unfolding upsert
  AllEntries-upsert P k d f [] new keep h = (new, tt)
  AllEntries-upsert P k d f ((j, v) ∷ m) new keep h = elim (Ordering-cases (o.cmp k j)) [
    | inl e ↦ rw (e, upsert, AllEntries) (new, h)
    | inr (inl e) ↦ rw (e, upsert, AllEntries) (keep j v ((o.cmp_eq k j).0 e) h.0, h.1)
    | inr (inr e) ↦ rw (e, upsert, AllEntries) (h.0, AllEntries-upsert P k d f m new keep h.1)
  ]

  pub AllEntries-adjust :
      (P : K → V → Type 0) (k : K) (f : V → V) (m : BTreeMap K V)
      → ((j : K) (v : V) → P j v → P j (f v))
      → AllEntries P m
      → AllEntries P (adjust k f m)
  unfolding adjust
  AllEntries-adjust P k f [] keep h = tt
  AllEntries-adjust P k f ((j, v) ∷ m) keep h = elim (Ordering-cases (o.cmp k j)) [
    | inl e ↦ rw (e, adjust, AllEntries) h
    | inr (inl e) ↦ rw (e, adjust, AllEntries) (keep j v h.0, h.1)
    | inr (inr e) ↦ rw (e, adjust, AllEntries) (h.0, AllEntries-adjust P k f m keep h.1)
  ]

  -- What is found by a lookup is an entry.
  pub AllEntries-get :
      (P : K → V → Type 0) (k : K) (v : V) (m : BTreeMap K V)
      → AllEntries P m
      → get k m ≡ some v
      → P k v
  unfolding get
  AllEntries-get P k v [] h e = absurd (ground arith)
  AllEntries-get P k v ((j, w) ∷ m) h e = elim (Ordering-cases (o.cmp k j)) [
    | inl c ↦ absurd (ground arith)
    | inr (inl c) ↦
        let same : w ≡ v = ground arith in
        subst (λ x. P x v) (sym ((o.cmp_eq k j).0 c)) (subst (P j) same h.0)
    | inr (inr c) ↦ AllEntries-get P k v m h.1 (rw (c, get) at e)
  ]

pub AllEntries-map :
    {K V : Type 0} (P Q : K → V → Type 0) (m : BTreeMap K V)
    → ((k : K) (v : V) → P k v → Q k v)
    → AllEntries P m
    → AllEntries Q m
AllEntries-map P Q [] f h = tt
AllEntries-map P Q ((k, v) ∷ m) f h = (f k v h.0, AllEntries-map P Q m f h.1)

module _ {K V : Type 0} ⦃o : Ord K⦄ where
  pub AllEntries-remove :
      (P : K → V → Type 0) (k : K) (m : BTreeMap K V) → AllEntries P m → AllEntries P (remove k m)
  unfolding remove
  AllEntries-remove P k [] h = tt
  AllEntries-remove P k ((j, v) ∷ m) h = elim (Ordering-cases (o.cmp k j)) [
    | inl e ↦ rw (e, remove, AllEntries) h
    | inr (inl e) ↦ rw (e, remove) h.1
    | inr (inr e) ↦ rw (e, remove, AllEntries) (h.0, AllEntries-remove P k m h.1)
  ]
