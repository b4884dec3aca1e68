-- ===== src/Map/Defs.antt =====
-- The operations of the ordered maps and sets that the program calls.
use Prim.Native.Nat.{Ordering}
use agentprof.Base.{Bool, Option, none, some, List, [], ◌∷◌, map, is_some}
use agentprof.Order.{Ord}

abbrev pub BTreeMap : Type 0 → Type 0 → Type 0
BTreeMap K V = List (K × V)

abbrev pub BTreeSet : Type 0 → Type 0
BTreeSet K = BTreeMap K (Unit {0})

module _ {K V : Type 0} ⦃o : Ord K⦄ where
  -- `m.get(k)`
  unfoldable pub get : K → BTreeMap K V → Option V
  get k [] = none
  get k ((j, v) ∷ m) = elim (o.cmp k j) [
    | Ordering.lt ↦ none
    | Ordering.eq ↦ some v
    | Ordering.gt ↦ get k m
  ]

  -- `f(m.entry(k).or_insert(v))`, with the value stored back.
  unfoldable pub upsert : K → V → (V → V) → BTreeMap K V → BTreeMap K V
  upsert k d f [] = (k, f d) ∷ []
  upsert k d f ((j, v) ∷ m) = elim (o.cmp k j) [
    | Ordering.lt ↦ (k, f d) ∷ (j, v) ∷ m
    | Ordering.eq ↦ (j, f v) ∷ m
    | Ordering.gt ↦ (j, v) ∷ upsert k d f m
  ]

  -- `m.insert(k, v)`: the old value is overwritten.
  unfoldable pub insert : K → V → BTreeMap K V → BTreeMap K V
  unfolding upsert
  insert k v m = upsert k v (λ _. v) m

  -- `if let Some(v) = m.get_mut(k) { *v = f(v) }`
  unfoldable pub adjust : K → (V → V) → BTreeMap K V → BTreeMap K V
  adjust k f [] = []
  adjust k f ((j, v) ∷ m) = elim (o.cmp k j) [
    | Ordering.lt ↦ (j, v) ∷ m
    | Ordering.eq ↦ (j, f v) ∷ m
    | Ordering.gt ↦ (j, v) ∷ adjust k f m
  ]

  -- `m.remove(k)`
  unfoldable pub remove : K → BTreeMap K V → BTreeMap K V
  remove k [] = []
  remove k ((j, v) ∷ m) = elim (o.cmp k j) [
    | Ordering.lt ↦ (j, v) ∷ m
    | Ordering.eq ↦ m
    | Ordering.gt ↦ (j, v) ∷ remove k m
  ]

  -- `m.contains_key(k)`
  abbrev pub contains_key : K → BTreeMap K V → Bool
  contains_key k m = is_some (get k m)

module _ {K : Type 0} ⦃o : Ord K⦄ where
  -- `s.insert(k)` of a set
  unfoldable pub insert_elem : K → BTreeSet K → BTreeSet K
  unfolding upsert
  insert_elem k s = upsert k tt (λ u. u) s

  -- `s.extend(t)`
  unfoldable pub extend : BTreeSet K → List (K × Unit {0}) → BTreeSet K
  unfolding insert_elem
  extend s [] = s
  extend s ((k, _) ∷ t) = extend (insert_elem k s) t

-- `m.values()`
abbrev pub values : {K V : Type 0} → BTreeMap K V → List V
values m = map (λ e. e.1) m
