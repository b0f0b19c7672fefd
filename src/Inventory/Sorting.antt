-- ===== src/Inventory/Sorting.antt =====
-- The diagnostics of a check are the collected ones, in order.
use Prim.Native.Nat.Ordering.{lt, eq, gt}
use mathlib.Core.List.{Perm}
use mathlib.Core.List.Perm
use contract_kit.Prelude.{
  suc, ◌≢◌, compare, ◌⊎◌, inl, inr, ◌≡◌, refl, ap, ◌∙◌, List, [], ◌∷◌, Ordering, arith, length,
}
use contract_kit.Prelude.Order.{Ord, nat_ord, list_ord, then_with}
use contract_kit.Path.{path_ord}
use contract_kit.Inventory.{
  SketchLocation, compare_location, compare_diagnostic, location, kind_rank, SketchDiagnostic,
  insert_sorted, sort,
}

-- Where the first keys decide, or the second, a comparison turns round.
turn :
    (a b a' b' : Ordering)
    → (a ≡ gt → a' ≡ lt)
    → (a ≡ eq → a' ≡ eq)
    → (b ≡ gt → b' ≡ lt)
    → then_with a b ≡ gt
    → then_with a' b' ≡ lt
turn a b a' b' g e h p = ground (arith, g, e, h)

length-insert_sorted :
    (d : SketchDiagnostic) (ds : List SketchDiagnostic)
    → length (insert_sorted d ds) ≡ suc (length ds)
unfolding insert_sorted
length-insert_sorted d [] = refl
length-insert_sorted d (x ∷ xs) = ground (arith, length-insert_sorted d xs)

pub length-sort : (ds : List SketchDiagnostic) → length (sort ds) ≡ length ds
unfolding sort
length-sort [] = refl
length-sort (d ∷ ds) = length-insert_sorted d (sort ds) ∙ ap suc (length-sort ds)

-- The other way round, two keys that compare equal still do.
eq_turns {ℓ} : {K : Type ℓ} ⦃o : Ord K⦄ (a b : K) → o.cmp a b ≡ eq → o.cmp b a ≡ eq
eq_turns ⦃o⦄ a b h = rw (o.eq_of_cmp a b h) (o.cmp_refl b)

compare_location-gt : (a b : SketchLocation) → compare_location a b ≡ gt → compare_location b a ≡ lt
unfolding compare_location
compare_location-gt a b =
    turn (list_ord.cmp a.sketch_id b.sketch_id) _ (list_ord.cmp b.sketch_id a.sketch_id) _
      (list_ord.lt_of_gt a.sketch_id b.sketch_id) (eq_turns a.sketch_id b.sketch_id)
      (turn (path_ord.cmp a.contract_file b.contract_file) _
        (path_ord.cmp b.contract_file a.contract_file) _
        (path_ord.lt_of_gt a.contract_file b.contract_file)
        (eq_turns a.contract_file b.contract_file)
        (turn (compare a.document_index b.document_index) _
          (compare b.document_index a.document_index) _
          (nat_ord.lt_of_gt a.document_index b.document_index)
          (eq_turns a.document_index b.document_index)
          (path_ord.lt_of_gt a.source_file b.source_file)))

compare_location-eq : (a b : SketchLocation) → compare_location a b ≡ eq → compare_location b a ≡ eq
unfolding compare_location
compare_location-eq a b =
    both (list_ord.cmp a.sketch_id b.sketch_id) _ (list_ord.cmp b.sketch_id a.sketch_id) _
      (eq_turns a.sketch_id b.sketch_id)
      (both (path_ord.cmp a.contract_file b.contract_file) _
        (path_ord.cmp b.contract_file a.contract_file) _ (eq_turns a.contract_file b.contract_file)
        (both (compare a.document_index b.document_index) _
          (compare b.document_index a.document_index) _ (eq_turns a.document_index b.document_index)
          (eq_turns a.source_file b.source_file)))
  where
    both :
        (a b a' b' : Ordering)
        → (a ≡ eq → a' ≡ eq)
        → (b ≡ eq → b' ≡ eq)
        → then_with a b ≡ eq
        → then_with a' b' ≡ eq
    both a b a' b' e h p = ground (arith, e, h)

compare_diagnostic-gt :
    (a b : SketchDiagnostic) → compare_diagnostic a b ≡ gt → compare_diagnostic b a ≡ lt
unfolding compare_diagnostic
compare_diagnostic-gt a b =
    turn (compare_location (location a) (location b)) _ (compare_location (location b) (location a))
      _ (compare_location-gt (location a) (location b))
      (compare_location-eq (location a) (location b)) (nat_ord.lt_of_gt (kind_rank a) (kind_rank b))

-- No diagnostic is greater than the next one.
abbrev pub InOrder : List SketchDiagnostic → Type 0
InOrder [] = Unit
InOrder (d ∷ []) = Unit
InOrder (d ∷ x ∷ xs) = compare_diagnostic d x ≢ gt × InOrder (x ∷ xs)

lt_not_gt : (o : Ordering) → o ≡ lt → o ≢ gt
lt_not_gt o h k = ground arith

-- Greater, or not.
gt_or_not : (o : Ordering) → (o ≡ gt) ⊎ (o ≢ gt)
gt_or_not o = ground arith

insert_sorted-gt :
    (d x : SketchDiagnostic) (xs : List SketchDiagnostic)
    → compare_diagnostic d x ≡ gt
    → insert_sorted d (x ∷ xs) ≡ x ∷ insert_sorted d xs
unfolding insert_sorted
insert_sorted-gt d x xs h = ground (arith, h)

insert_sorted-le :
    (d x : SketchDiagnostic) (xs : List SketchDiagnostic)
    → compare_diagnostic d x ≢ gt
    → insert_sorted d (x ∷ xs) ≡ d ∷ x ∷ xs
unfolding insert_sorted
insert_sorted-le d x xs h = ground (arith, h)

behind :
    (d x : SketchDiagnostic) (xs : List SketchDiagnostic)
    → compare_diagnostic x d ≢ gt
    → InOrder (x ∷ xs)
    → InOrder (insert_sorted d xs)
    → InOrder (x ∷ insert_sorted d xs)
unfolding insert_sorted
behind d x [] h sorted rest = (h, tt)
behind d x (y ∷ ys) h sorted rest = elim (gt_or_not (compare_diagnostic d y)) [
  | inl e ↦ rw (insert_sorted-gt d y ys e) (sorted.0, rw (insert_sorted-gt d y ys e) at rest)
  | inr n ↦ rw (insert_sorted-le d y ys n) (h, (n, sorted.1))
]

insert_sorted-InOrder :
    (d : SketchDiagnostic) (ds : List SketchDiagnostic) → InOrder ds → InOrder (insert_sorted d ds)
insert_sorted-InOrder d [] h = unfold insert_sorted in tt
insert_sorted-InOrder d (x ∷ []) h = elim (gt_or_not (compare_diagnostic d x)) [
  | inl e ↦
      rw (insert_sorted-gt d x [] e)
        (behind d x [] (lt_not_gt _ (compare_diagnostic-gt d x e)) tt (unfold insert_sorted in tt))
  | inr n ↦ rw (insert_sorted-le d x [] n) (n, tt)
]
insert_sorted-InOrder d (x ∷ y ∷ ys) h = elim (gt_or_not (compare_diagnostic d x)) [
  | inl e ↦ rw (insert_sorted-gt d x (y ∷ ys) e) (
      behind d x (y ∷ ys) (lt_not_gt _ (compare_diagnostic-gt d x e)) h
        (insert_sorted-InOrder d (y ∷ ys) h.1))
  | inr n ↦ rw (insert_sorted-le d x (y ∷ ys) n) (n, h)
]

insert_sorted-Perm :
    (d : SketchDiagnostic) (ds : List SketchDiagnostic) → Perm (insert_sorted d ds) (d ∷ ds)
insert_sorted-Perm d [] = unfold insert_sorted in Perm.refl (d ∷ [])
insert_sorted-Perm d (x ∷ xs) = elim (gt_or_not (compare_diagnostic d x)) [
  | inl e ↦
      rw (insert_sorted-gt d x xs e)
        (Perm.trans (Perm.cons x (insert_sorted-Perm d xs)) (Perm.swap d x xs))
  | inr n ↦ rw (insert_sorted-le d x xs n) (Perm.refl (d ∷ x ∷ xs))
]

-- Sorting the diagnostics rearranges them, and leaves none that compares greater than the next one.
pub sort-InOrder : (ds : List SketchDiagnostic) → Perm (sort ds) ds × InOrder (sort ds)
unfolding sort
sort-InOrder [] = (Perm.refl [], tt)
sort-InOrder (d ∷ ds) =
    let rest = sort-InOrder ds in
    (
      Perm.trans (insert_sorted-Perm d (sort ds)) (Perm.cons d rest.0),
      insert_sorted-InOrder d (sort ds) rest.1,
    )

pub sort-Perm : (ds : List SketchDiagnostic) → Perm (sort ds) ds
sort-Perm ds = (sort-InOrder ds).0
