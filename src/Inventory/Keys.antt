-- ===== src/Inventory/Keys.antt =====
-- The keys by which the diagnostics of a check are ordered.
use Prim.Native.Nat.Ordering.{lt, eq, gt}
use mathlib.Core.List.{Perm}
use contract_kit.Prelude.{
  ℕ, ◌≢◌, ◌<◌, ◌⊎◌, inl, inr, ◌≡◌, refl, compare, List, [], ◌∷◌, Ordering, arith,
}
use contract_kit.Prelude.Order.{nat_ord, cmp_list, then_with, eq_of_compare, eq_of_cmp_list}
use contract_kit.Text.{Text}
use contract_kit.Path.{path_ord}
use contract_kit.Inventory.{
  SketchDiagnostic, missing_file, not_matched, occurrence_mismatch, location, kind_rank,
  compare_location, compare_diagnostic, new_comparison,
}
use contract_kit.Inventory.Sorting.{InOrder, sort-InOrder}

-- Lexicographically smaller: a proper prefix, or smaller at the first place where they differ.
abbrev pub IsSmaller : Text → Text → Type 0
IsSmaller [] [] = ⊥
IsSmaller [] (y ∷ ys) = Unit
IsSmaller (x ∷ xs) [] = ⊥
IsSmaller (x ∷ xs) (y ∷ ys) = (x < y) ⊎ ((x ≡ y) × IsSmaller xs ys)

-- A missing file comes first, then a snippet that is not matched, then a mismatch.
abbrev pub KindsAscend : SketchDiagnostic → SketchDiagnostic → Type 0
KindsAscend (missing_file a) x = Unit
KindsAscend (not_matched a n c) (missing_file b) = ⊥
KindsAscend (not_matched a n c) x = Unit
KindsAscend (occurrence_mismatch a o n s t) (occurrence_mismatch b p m u v) = Unit
KindsAscend (occurrence_mismatch a o n s t) x = ⊥

-- By the id; with the same id by the contract file; then by the document, by the source file, and
-- at last by the kind.
abbrev pub KeysAscend : SketchDiagnostic → SketchDiagnostic → Type 0
KeysAscend d x =
    let a = location d in
    let b = location x in
    IsSmaller a.sketch_id b.sketch_id
    ⊎ ((a.sketch_id ≡ b.sketch_id)
        × (IsSmaller a.contract_file.value b.contract_file.value
            ⊎ ((a.contract_file ≡ b.contract_file)
                × ((a.document_index < b.document_index)
                    ⊎ ((a.document_index ≡ b.document_index)
                        × (IsSmaller a.source_file.value b.source_file.value
                            ⊎ ((a.source_file ≡ b.source_file) × KindsAscend d x)))))))

-- Each diagnostic and the next one.
abbrev pub AllAscend : List SketchDiagnostic → Type 0
AllAscend [] = Unit
AllAscend (d ∷ []) = Unit
AllAscend (d ∷ x ∷ xs) = KeysAscend d x × AllAscend (x ∷ xs)

not_gt-then_with : (a b : Ordering) → then_with a b ≢ gt → (a ≡ lt) ⊎ ((a ≡ eq) × (b ≢ gt))
not_gt-then_with lt b h = inl refl
not_gt-then_with eq b h = inr (refl, h)
not_gt-then_with gt b h = absurd (h refl)

then_with_assoc :
    (i f n s k : Ordering)
    → then_with (then_with i (then_with f (then_with n s))) k
      ≡ then_with i (then_with f (then_with n (then_with s k)))
then_with_assoc i f n s k = ground arith

cmp_list-IsSmaller : (xs ys : Text) → cmp_list xs ys ≡ lt → IsSmaller xs ys
unfolding cmp_list
cmp_list-IsSmaller [] [] h = absurd (ground arith)
cmp_list-IsSmaller [] (y ∷ ys) h = tt
cmp_list-IsSmaller (x ∷ xs) [] h = absurd (ground arith)
cmp_list-IsSmaller (x ∷ xs) (y ∷ ys) h = go (compare x y) refl h (cmp_list-IsSmaller xs ys)
  where
    go :
        (c : Ordering)
        → compare x y ≡ c
        → then_with c (cmp_list xs ys) ≡ lt
        → (cmp_list xs ys ≡ lt → IsSmaller xs ys)
        → (x < y) ⊎ ((x ≡ y) × IsSmaller xs ys)
    go lt e k f = inl (ground arith)
    go eq e k f = inr (eq_of_compare x y e, f k)
    go gt e k f = absurd (ground arith)

compare-KindsAscend :
    (d x : SketchDiagnostic) → compare (kind_rank d) (kind_rank x) ≢ gt → KindsAscend d x
unfolding kind_rank
compare-KindsAscend (missing_file a) x h = tt
compare-KindsAscend (not_matched a n c) (missing_file b) h = absurd (h refl)
compare-KindsAscend (not_matched a n c) (not_matched b m d) h = tt
compare-KindsAscend (not_matched a n c) (occurrence_mismatch b p m u v) h = tt
compare-KindsAscend (occurrence_mismatch a o n s t) (missing_file b) h = absurd (h refl)
compare-KindsAscend (occurrence_mismatch a o n s t) (not_matched b m d) h = absurd (h refl)
compare-KindsAscend (occurrence_mismatch a o n s t) (occurrence_mismatch b p m u v) h = tt

-- One more key in front of those that are left.
by_key :
    {Less Same Left : Type 0} (a b : Ordering)
    → (a ≡ lt → Less)
    → (a ≡ eq → Same)
    → (b ≢ gt → Left)
    → then_with a b ≢ gt
    → Less ⊎ (Same × Left)
by_key a b less same left h = elim (not_gt-then_with a b h) [
  | inl e ↦ inl (less e)
  | inr (e, k) ↦ inr (same e, left k)
]

compare_diagnostic-KeysAscend :
    (d x : SketchDiagnostic) → compare_diagnostic d x ≢ gt → KeysAscend d x
unfolding compare_diagnostic compare_location
compare_diagnostic-KeysAscend d x h =
    let a = location d in
    let b = location x in
    by_key (cmp_list a.sketch_id b.sketch_id) _ (cmp_list-IsSmaller a.sketch_id b.sketch_id)
      (eq_of_cmp_list a.sketch_id b.sketch_id)
      (by_key (path_ord.cmp a.contract_file b.contract_file) _
        (cmp_list-IsSmaller a.contract_file.value b.contract_file.value)
        (path_ord.eq_of_cmp a.contract_file b.contract_file)
        (by_key (compare a.document_index b.document_index) _ (λ e. ground arith)
          (eq_of_compare a.document_index b.document_index)
          (by_key (path_ord.cmp a.source_file b.source_file) _
            (cmp_list-IsSmaller a.source_file.value b.source_file.value)
            (path_ord.eq_of_cmp a.source_file b.source_file) (compare-KindsAscend d x))))
      (rw
        (then_with_assoc (cmp_list a.sketch_id b.sketch_id)
          (path_ord.cmp a.contract_file b.contract_file) (compare a.document_index b.document_index)
          (path_ord.cmp a.source_file b.source_file) (compare (kind_rank d) (kind_rank x)))
        at h)

InOrder-AllAscend : (ds : List SketchDiagnostic) → InOrder ds → AllAscend ds
InOrder-AllAscend [] h = tt
InOrder-AllAscend (d ∷ []) h = tt
InOrder-AllAscend (d ∷ x ∷ xs) h =
    (compare_diagnostic-KeysAscend d x h.0, InOrder-AllAscend (x ∷ xs) h.1)

-- The diagnostics of a result are those that were collected, each as often, in an order in which
-- none has greater keys than the next one: the sketch id first, then the contract file, the number
-- of the document, the source file, and at last the kind, of which a missing file is the least and
-- a mismatch of the occurrences the greatest.
pub new_comparison-AllAscend :
    (entries referenced present documents sketches matched : ℕ) (ds : List SketchDiagnostic)
    → Perm (new_comparison entries referenced present documents sketches matched ds).diagnostics ds
      × AllAscend
          (new_comparison entries referenced present documents sketches matched ds).diagnostics
unfolding new_comparison
new_comparison-AllAscend entries referenced present documents sketches matched ds =
    let sorted = sort-InOrder ds in (sorted.0, InOrder-AllAscend _ sorted.1)
