-- ===== src/Inventory.antt =====
-- conkit-sketch/inventory.rs, and `CheckMode` of api.rs: diagnostics and the result of a check.
pub mod Keys
pub mod Sorting
use Prim.Native.Nat.Ordering.{lt, eq, gt}
use contract_kit.Prelude.{
  ℕ, Bool, true, false, Option, List, [], ◌∷◌, ◌≡◌, Ordering, compare, length,
}
use contract_kit.Prelude.Order.{Ord, nat_ord, list_ord, cmp_list, then_with}
use contract_kit.Text.{Text}
use contract_kit.Path.{CatalogPath, path_ord}
use contract_kit.Normalize.{SketchNormalization}
use contract_kit.Contract.{SketchOccurrence}

pub record SketchLocation : Type 0 where
  pub sketch_id : Text
  pub contract_file : CatalogPath
  pub document_index : ℕ
  pub source_file : CatalogPath

pub record SourceLineSpan : Type 0 where
  pub start : ℕ
  pub end : ℕ

pub data DiagnosticExcerpt : Type 0 where
  bytes : Text → Bool → DiagnosticExcerpt
  missing : DiagnosticExcerpt

pub record MatchCandidate : Type 0 where
  pub source : SourceLineSpan
  pub expected_line : ℕ
  pub source_line : ℕ
  pub expected : DiagnosticExcerpt
  pub actual : DiagnosticExcerpt

pub data SketchDiagnostic : Type 0 where
  missing_file : SketchLocation → SketchDiagnostic
  not_matched : SketchLocation → SketchNormalization → Option MatchCandidate → SketchDiagnostic
  occurrence_mismatch :
      SketchLocation → SketchOccurrence → ℕ → List SourceLineSpan → Bool → SketchDiagnostic

unfoldable pub location : SketchDiagnostic → SketchLocation
location (missing_file sketch) = sketch
location (not_matched sketch _ _) = sketch
location (occurrence_mismatch sketch _ _ _ _) = sketch

abbrev pub contract_file : SketchDiagnostic → CatalogPath
contract_file d = (location d).contract_file

unfoldable pub kind_rank : SketchDiagnostic → ℕ
kind_rank (missing_file _) = 0
kind_rank (not_matched _ _ _) = 1
kind_rank (occurrence_mismatch _ _ _ _ _) = 2

-- The derived order of `SketchLocation`, field by field.
unfoldable pub compare_location : SketchLocation → SketchLocation → Ordering
compare_location a b = then_with (cmp_list a.sketch_id b.sketch_id) (
    then_with (path_ord.cmp a.contract_file b.contract_file) (
      then_with (compare a.document_index b.document_index)
        (path_ord.cmp a.source_file b.source_file)))

-- `SketchDiagnostic::compare`.
unfoldable pub compare_diagnostic : SketchDiagnostic → SketchDiagnostic → Ordering
unfolding compare_location
compare_diagnostic a b =
    then_with (compare_location (location a) (location b)) (compare (kind_rank a) (kind_rank b))

-- `sort_by` of the standard library by `compare_diagnostic`, which is stable: an entry goes in front
-- of the later ones that it equals.
unfoldable pub insert_sorted : SketchDiagnostic → List SketchDiagnostic → List SketchDiagnostic
insert_sorted d [] = d ∷ []
insert_sorted d (x ∷ xs) = elim (compare_diagnostic d x) [
  | gt ↦ x ∷ insert_sorted d xs
  | _ ↦ d ∷ x ∷ xs
]

unfoldable pub sort : List SketchDiagnostic → List SketchDiagnostic
unfolding insert_sorted
sort [] = []
sort (d ∷ ds) = insert_sorted d (sort ds)

pub record SketchCheckCounts : Type 0 where
  pub source_catalog_entry_count : ℕ
  pub referenced_source_file_count : ℕ
  pub present_referenced_source_file_count : ℕ
  pub contract_document_count : ℕ
  pub sketch_count : ℕ
  pub matched_sketch_count : ℕ
  pub failed_sketch_count : ℕ

pub record SketchInventoryComparison : Type 0 where
  pub counts : SketchCheckCounts
  pub diagnostics : List SketchDiagnostic

-- `SketchInventoryComparison::new`, without its debug assertions.
unfoldable pub new_comparison :
    ℕ → ℕ → ℕ → ℕ → ℕ → ℕ → List SketchDiagnostic → SketchInventoryComparison
unfolding sort
new_comparison source_entries referenced present documents sketches matched diagnostics = record {
  counts = record {
    source_catalog_entry_count = source_entries;
    referenced_source_file_count = referenced;
    present_referenced_source_file_count = present;
    contract_document_count = documents;
    sketch_count = sketches;
    matched_sketch_count = matched;
    failed_sketch_count = length diagnostics;
  };
  diagnostics = sort diagnostics;
}

pub data CheckMode : Type 0 where
  enforce warning : CheckMode

-- `CheckMode::passed`.
unfoldable pub passed : CheckMode → List SketchDiagnostic → Bool
passed enforce [] = true
passed enforce (d ∷ ds) = false
passed warning ds = true
