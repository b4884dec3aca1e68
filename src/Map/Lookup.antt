-- ===== src/Map/Lookup.antt =====
-- What a lookup finds after each operation.
use agentprof.Base.{
  ◌≡◌, Bool, true, false, refl, Option, none, some, List, [], ◌∷◌, arith, if◌then◌else◌,
}
use agentprof.Order.{Ord, eqb, cmp_refl}
use agentprof.Map.Defs.{
  BTreeMap, BTreeSet, get, upsert, insert, adjust, remove, contains_key, insert_elem, extend,
}

-- Whether a key stands among entries, whatever their order.
abbrev pub has_key : {K V : Type 0} ⦃o : Ord K⦄ → K → List (K × V) → Bool
has_key k [] = false
has_key k ((j, v) ∷ m) = if eqb k j then true else has_key k m

-- `unwrap_or`
abbrev pub or_default : {V : Type 0} → V → Option V → V
or_default d none = d
or_default d (some v) = v

abbrev pub map_option : {V W : Type 0} → (V → W) → Option V → Option W
map_option f none = none
map_option f (some v) = some (f v)

module _ {K V : Type 0} ⦃o : Ord K⦄ where
  -- Looking up after an update in place or an insertion of a default that is then updated.
  pub get-upsert :
      (j k : K) (d : V) (f : V → V) (m : BTreeMap K V)
      → get j (upsert k d f m) ≡ (if eqb j k then some (f (or_default d (get k m))) else get j m)
  unfolding get upsert
  get-upsert j k d f [] = ground arith
  get-upsert j k d f ((i, v) ∷ m) =
      ground
        (arith, get-upsert j k d f m, o.cmp_eq k i, o.cmp_eq j k, o.cmp_eq j i, o.cmp_trans j k i)

  pub get-insert :
      (j k : K) (v : V) (m : BTreeMap K V)
      → get j (insert k v m) ≡ (if eqb j k then some v else get j m)
  unfolding insert
  get-insert j k v m = get-upsert j k v (λ _. v) m

  pub get-adjust :
      (j k : K) (f : V → V) (m : BTreeMap K V)
      → get j (adjust k f m) ≡ (if eqb j k then map_option f (get j m) else get j m)
  unfolding get adjust
  get-adjust j k f [] = ground arith
  get-adjust j k f ((i, v) ∷ m) =
      ground
        (arith, get-adjust j k f m, o.cmp_eq k i, o.cmp_eq j k, o.cmp_eq j i, o.cmp_trans j k i)

  -- A key that was not there is inserted and removed again without a trace.
  pub remove-insert :
      (k : K) (v : V) (m : BTreeMap K V) → get k m ≡ none → remove k (insert k v m) ≡ m
  unfolding insert upsert get remove
  remove-insert k v [] h = rw cmp_refl
  remove-insert k v ((i, w) ∷ m) h = ground (arith, remove-insert k v m, cmp_refl k)

  pub remove-absent : (k : K) (m : BTreeMap K V) → get k m ≡ none → remove k m ≡ m
  unfolding remove get
  remove-absent k [] h = refl
  remove-absent k ((i, w) ∷ m) h = ground (arith, remove-absent k m)

module _ {K : Type 0} ⦃o : Ord K⦄ where
  pub remove-insert_elem :
      (k : K) (s : BTreeSet K) → get k s ≡ none → remove k (insert_elem k s) ≡ s
  unfolding insert_elem
  remove-insert_elem k s h = unfold insert in remove-insert k tt s h

  pub contains-insert_elem :
      (j k : K) (s : BTreeSet K)
      → contains_key j (insert_elem k s) ≡ (if eqb j k then true else contains_key j s)
  unfolding insert_elem
  contains-insert_elem j k s = ground (arith, get-upsert j k tt (λ u. u) s)

  -- A set that is extended holds what it held and what was added, and nothing else.
  pub contains-extend :
      (j : K) (s t : BTreeSet K)
      → contains_key j (extend s t) ≡ (if contains_key j s then true else has_key j t)
  unfolding extend
  contains-extend j s [] = ground arith
  contains-extend j s ((k, u) ∷ t) =
      ground (arith, contains-extend j (insert_elem k s) t, contains-insert_elem j k s)
