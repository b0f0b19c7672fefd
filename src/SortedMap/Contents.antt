-- ===== src/SortedMap/Contents.antt =====
-- What the operations of a sorted map do to its values, and to what holds of its entries.
use Prim.Native.Nat.Ordering.{lt, eq, gt}
use mathlib.Core.List.{Perm, perm_middle, perm_append_comm}
use mathlib.Core.List.Perm
use contract_kit.Prelude.{
  ◌≡◌, ◌≢◌, refl, true, false, Option, none, some, List, [], ◌∷◌, ◌++◌, arith, Ordering,
  append_assoc, length, suc, ◌∙◌,
}
use contract_kit.Prelude.Order.{Ord}
use contract_kit.SortedMap.{SortedMap, get, insert, remove, push_at, contains_key, is_some}

abbrev pub values : {K V : Type 0} → SortedMap K V → List V
values [] = []
values ((k, v) ∷ m) = v ∷ values m

-- All the values of a map to vectors.
abbrev pub members : {K V : Type 0} → SortedMap K (List V) → List V
members [] = []
members ((k, vs) ∷ m) = vs ++ members m

-- Something that holds of each entry.
abbrev pub Entries : {K V : Type 0} → (K → V → Type 0) → SortedMap K V → Type 0
Entries P [] = Unit
Entries P ((k, v) ∷ m) = P k v × Entries P m

module _ {K V : Type 0} ⦃o : Ord K⦄ where
  abbrev pub Front : K → SortedMap K V → Type 0
  Front k m = Entries (λ j _. o.cmp k j ≡ lt) m

  abbrev pub IsSorted : SortedMap K V → Type 0
  IsSorted [] = Unit
  IsSorted ((k, v) ∷ m) = Front k m × IsSorted m

  Front-lt : (i k : K) (m : SortedMap K V) → o.cmp i k ≡ lt → Front k m → Front i m
  Front-lt i k [] h f = tt
  Front-lt i k ((j, v) ∷ m) h f = (o.lt_trans i k j h f.0, Front-lt i k m h f.1)

  pub Entries-insert :
      (P : K → V → Type 0) (k : K) (v : V) (m : SortedMap K V)
      → P k v
      → Entries P m
      → Entries P (insert k v m)
  unfolding insert
  Entries-insert P k v [] p h = (p, tt)
  Entries-insert P k v ((j, w) ∷ m) p h =
      elim (o.cmp k j)
        as (λ c.
          Entries P
            (elim c [ lt ↦ (k, v) ∷ (j, w) ∷ m | eq ↦ (k, v) ∷ m | gt ↦ (j, w) ∷ insert k v m ])) [
              | lt ↦ (p, h)
              | eq ↦ (p, h.1)
              | gt ↦ (h.0, Entries-insert P k v m p h.1)
            ]

  pub Entries-remove :
      (P : K → V → Type 0) (k : K) (m : SortedMap K V) → Entries P m → Entries P (remove k m)
  unfolding remove
  Entries-remove P k [] h = tt
  Entries-remove P k ((j, w) ∷ m) h =
      elim (o.cmp k j)
        as (λ c. Entries P (elim c [ lt ↦ (j, w) ∷ m | eq ↦ m | gt ↦ (j, w) ∷ remove k m ])) [
          | lt ↦ h
          | eq ↦ h.1
          | gt ↦ (h.0, Entries-remove P k m h.1)
        ]

  pub Entries-get :
      (P : K → V → Type 0) (k : K) (v : V) (m : SortedMap K V)
      → Entries P m
      → get k m ≡ some v
      → P k v
  unfolding get
  Entries-get P k v [] h e = absurd (ground arith)
  Entries-get P k v ((j, w) ∷ m) h e = go (o.cmp k j) (o.eq_of_cmp k j) e (Entries-get P k v m h.1)
    where
      go :
          (c : Ordering)
          → (c ≡ eq → k ≡ j)
          → ◌≡◌ {A = Option V} (elim c [ lt ↦ none | eq ↦ some w | gt ↦ get k m ]) (some v)
          → (get k m ≡ some v → P k v)
          → P k v
      go lt same e ih = absurd (ground arith)
      go eq same e ih = let e' : w ≡ v = ground arith in rw (same refl, ← e') h.0
      go gt same e ih = ih e

  pub insert-IsSorted : (k : K) (v : V) (m : SortedMap K V) → IsSorted m → IsSorted (insert k v m)
  unfolding insert
  insert-IsSorted k v [] h = (tt, tt)
  insert-IsSorted k v ((j, w) ∷ m) h = go (o.cmp k j) refl (insert-IsSorted k v m h.1)
    where
      go :
          (c : Ordering)
          → o.cmp k j ≡ c
          → IsSorted (insert k v m)
          → IsSorted
              (elim c [ lt ↦ (k, v) ∷ (j, w) ∷ m | eq ↦ (k, v) ∷ m | gt ↦ (j, w) ∷ insert k v m ])
      go lt e ih = ((e, Front-lt k j m e h.0), h)
      go eq e ih = (rw (o.eq_of_cmp k j e) h.0, h.1)
      go gt e ih = (Entries-insert (λ i _. o.cmp j i ≡ lt) k v m (o.lt_of_gt k j e) h.0, ih)

  -- Inserting at a new key adds the value.
  pub values-insert :
      (k : K) (v : V) (m : SortedMap K V)
      → get k m ≡ none
      → Perm (values (insert k v m)) (v ∷ values m)
  unfolding get insert
  values-insert k v [] h = Perm.refl _
  values-insert k v ((j, w) ∷ m) h = go (o.cmp k j) h (values-insert k v m)
    where
      go :
          (c : Ordering)
          → ◌≡◌ {A = Option V} (elim c [ lt ↦ none | eq ↦ some w | gt ↦ get k m ]) none
          → (get k m ≡ none → Perm (values (insert k v m)) (v ∷ values m))
          → Perm
              (values (elim c [
                | lt ↦ (k, v) ∷ (j, w) ∷ m
                | eq ↦ (k, v) ∷ m
                | gt ↦ (j, w) ∷ insert k v m
              ]))
              (v ∷ w ∷ values m)
      go lt e ih = Perm.refl _
      go eq e ih = absurd (ground arith)
      go gt e ih = Perm.trans (Perm.cons w (ih e)) (Perm.swap v w (values m))

pub exchange {ℓ} : {A : Type ℓ} (xs ys zs : List A) → Perm (xs ++ (ys ++ zs)) (ys ++ (xs ++ zs))
exchange xs ys zs =
    rw (← append_assoc xs ys zs, ← append_assoc ys xs zs)
      (Perm.append_right zs (perm_append_comm xs ys))

module _ {K V : Type 0} ⦃o : Ord K⦄ where
  push_at-cons :
      (k j : K) (v : V) (vs : List V) (m : SortedMap K (List V))
      → push_at k v ((j, vs) ∷ m) ≡ elim (o.cmp k j) [
        | lt ↦ (k, v ∷ []) ∷ (j, vs) ∷ m
        | eq ↦ (k, vs ++ v ∷ []) ∷ m
        | gt ↦ (j, vs) ∷ push_at k v m
      ]
  unfolding get insert
  push_at-cons k j v vs m = ground arith

  -- Pushing at a key adds the value.
  pub members-push_at :
      (k : K) (v : V) (m : SortedMap K (List V)) → Perm (members (push_at k v m)) (v ∷ members m)
  unfolding get insert
  members-push_at k v [] = Perm.refl _
  members-push_at k v ((j, vs) ∷ m) =
      rw (push_at-cons k j v vs m) (go (o.cmp k j) (members-push_at k v m))
    where
      go :
          (c : Ordering)
          → Perm (members (push_at k v m)) (v ∷ members m)
          → Perm
              (members (elim c [
                | lt ↦ (k, v ∷ []) ∷ (j, vs) ∷ m
                | eq ↦ (k, vs ++ v ∷ []) ∷ m
                | gt ↦ (j, vs) ∷ push_at k v m
              ]))
              (v ∷ vs ++ members m)
      go lt ih = Perm.refl _
      go eq ih = rw (append_assoc vs (v ∷ []) (members m)) (perm_middle vs (members m))
      go gt ih = Perm.trans (Perm.append_left vs ih) (perm_middle vs (members m))

  -- Removing a key takes its values away.
  pub members-remove :
      (k : K) (vs : List V) (m : SortedMap K (List V))
      → get k m ≡ some vs
      → Perm (members m) (vs ++ members (remove k m))
  unfolding get remove
  members-remove k vs [] h = absurd (ground arith)
  members-remove k vs ((j, ws) ∷ m) h = go (o.cmp k j) h (members-remove k vs m)
    where
      go :
          (c : Ordering)
          → ◌≡◌ {A = Option (List V)} (elim c [ lt ↦ none | eq ↦ some ws | gt ↦ get k m ]) (some vs)
          → (get k m ≡ some vs → Perm (members m) (vs ++ members (remove k m)))
          → Perm
              (ws ++ members m)
              (vs ++ members (elim c [ lt ↦ (j, ws) ∷ m | eq ↦ m | gt ↦ (j, ws) ∷ remove k m ]))
      go lt e ih = absurd (ground arith)
      go eq e ih = let e' : ws ≡ vs = ground arith in rw e' (Perm.refl _)
      go gt e ih = Perm.trans (Perm.append_left ws (ih e)) (exchange ws vs (members (remove k m)))

-- A lookup behind an insertion.
module _ {K V : Type 0} ⦃o : Ord K⦄ where
  pub get-insert : (k : K) (v : V) (m : SortedMap K V) → get k (insert k v m) ≡ some v
  unfolding get insert
  get-insert k v [] = rw (o.cmp_refl k) refl
  get-insert k v ((j, w) ∷ m) = ground (arith, o.cmp_refl k, get-insert k v m)

  pub get-insert_other :
      (i k : K) (v : V) (m : SortedMap K V) → i ≢ k → get i (insert k v m) ≡ get i m
  unfolding get insert
  get-insert_other i k v [] h = ground (arith, o.eq_of_cmp i k)
  get-insert_other i k v ((j, w) ∷ m) h =
      ground (arith, o.eq_of_cmp i k, o.eq_of_cmp k j, o.lt_trans i k j, get-insert_other i k v m h)

  pub length-insert :
      (k : K) (v : V) (m : SortedMap K V) → get k m ≡ none → length (insert k v m) ≡ suc (length m)
  unfolding get insert
  length-insert k v [] h = refl
  length-insert k v ((j, w) ∷ m) h = ground (arith, length-insert k v m)

  pub contains_key-insert :
      (i k : K) (v : V) (m : SortedMap K V)
      → contains_key i m ≡ true
      → contains_key i (insert k v m) ≡ true
  unfolding get insert
  contains_key-insert i k v [] h = absurd (ground arith)
  contains_key-insert i k v ((j, w) ∷ m) h = ground (
    arith,
    o.eq_of_cmp k j,
    o.lt_of_gt i j,
    o.gt_of_lt k i,
    o.lt_trans k j i,
    o.eq_of_cmp i j,
    contains_key-insert i k v m,
  )

  pub contains_key-false : (k : K) (m : SortedMap K V) → contains_key k m ≡ false → get k m ≡ none
  contains_key-false k m h = go (get k m) h
    where
      go : (found : Option V) → is_some found ≡ false → found ≡ none
      go none e = refl
      go (some v) e = absurd (ground arith)

-- A lookup finds each entry of a sorted map.
module _ {K V : Type 0} ⦃o : Ord K⦄ where
  get-first : (j : K) (w : V) (m : SortedMap K V) → get j ((j, w) ∷ m) ≡ some w
  unfolding get
  get-first j w m = ground (arith, o.cmp_refl j)

  get-later : (k j : K) (w : V) (m : SortedMap K V) → o.cmp k j ≡ gt → get k ((j, w) ∷ m) ≡ get k m
  unfolding get
  get-later k j w m h = ground (arith, h)

  get-behind :
      (j : K) (w : V) (m n : SortedMap K V)
      → Front j n
      → Entries (λ k v. get k m ≡ some v) n
      → Entries (λ k v. get k ((j, w) ∷ m) ≡ some v) n
  get-behind j w m [] f h = tt
  get-behind j w m ((k, v) ∷ n) f h =
      (get-later k j w m (o.gt_of_lt j k f.0) ∙ h.0, get-behind j w m n f.1 h.1)

  pub get-Entries : (m : SortedMap K V) → IsSorted m → Entries (λ k v. get k m ≡ some v) m
  get-Entries [] s = tt
  get-Entries ((j, w) ∷ m) s = (get-first j w m, get-behind j w m m s.0 (get-Entries m s.1))
