-- ===== src/SortedMap.antt =====
-- The standard library's `BTreeMap` and `BTreeSet`, as the program uses them: association lists
-- in the strict order of their keys. A set is a map to the unit type.
pub mod Contents
use Prim.Native.Nat.Ordering.{lt, eq, gt}
use contract_kit.Prelude.{Bool, true, false, Option, none, some, List, [], ◌∷◌, ◌++◌}
use contract_kit.Prelude.Order.{Ord}

abbrev pub SortedMap : Type 0 → Type 0 → Type 0
SortedMap K V = List (K × V)

abbrev pub is_some {ℓ} : {A : Type ℓ} → Option A → Bool
is_some none = false
is_some (some a) = true

module _ {K V : Type 0} ⦃o : Ord K⦄ where
  unfoldable pub get : K → SortedMap K V → Option V
  get k [] = none
  get k ((j, v) ∷ m) = elim (o.cmp k j) [ lt ↦ none | eq ↦ some v | gt ↦ get k m ]

  -- `BTreeMap::insert`, which replaces the value at a key that is there.
  unfoldable pub insert : K → V → SortedMap K V → SortedMap K V
  insert k v [] = (k, v) ∷ []
  insert k v ((j, w) ∷ m) = elim (o.cmp k j) [
    | lt ↦ (k, v) ∷ (j, w) ∷ m
    | eq ↦ (k, v) ∷ m
    | gt ↦ (j, w) ∷ insert k v m
  ]

  unfoldable pub remove : K → SortedMap K V → SortedMap K V
  remove k [] = []
  remove k ((j, w) ∷ m) = elim (o.cmp k j) [ lt ↦ (j, w) ∷ m | eq ↦ m | gt ↦ (j, w) ∷ remove k m ]

  abbrev pub contains_key : K → SortedMap K V → Bool
  contains_key k m = is_some (get k m)

abbrev pub or_empty : {V : Type 0} → Option (List V) → List V
or_empty none = []
or_empty (some vs) = vs

-- `map.entry(key).or_default().push(value)` on a map to vectors.
abbrev pub push_at :
    {K V : Type 0} ⦃o : Ord K⦄ → K → V → SortedMap K (List V) → SortedMap K (List V)
push_at k v m = insert k (or_empty (get k m) ++ v ∷ []) m
