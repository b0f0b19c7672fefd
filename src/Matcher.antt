-- ===== src/Matcher.antt =====
-- conkit-sketch/matcher.rs: the source files that contracts name, their groups, and the check of
-- every sketch. Allocation is taken to succeed (`try_reserve` is not modelled).
pub mod Accounts
pub mod Checking
pub mod Counting
pub mod Grouping
pub mod Reporting
use contract_kit.Prelude.{
  ℕ, ◌+◌, Bool, true, false, Option, none, some, List, [], ◌∷◌, ◌++◌, if◌then◌else◌, length,
}
use contract_kit.Prelude.Order.{Ord, cmp_list, then_with}
use contract_kit.SortedMap.{SortedMap, get, insert, contains_key, push_at}
use contract_kit.Path.{CatalogPath, path_ord}
use contract_kit.Catalog.{FileCatalog}
use contract_kit.Catalog
use contract_kit.Limits.Matching.{MatchingLimits, retained_span_maximum}
use contract_kit.Limits.Output
use contract_kit.Limits.Output.{
  DiagnosticLimits, DiagnosticBytes, DiagnosticReservation, Json, excerpt_maximum, reserve,
  preflight_count, add_bytes, commit,
}
use contract_kit.Work.{M, ◌>>=◌, ◌>>◌, pure, lift, start_usage, checkpoint, checkpoint_at}
use contract_kit.Normalize.{
  Bytes, NormalizedSnippet, SketchNormalization, exact_lines_v1, normalize_source,
}
use contract_kit.Contract.{SketchContract, SketchContracts}
use contract_kit.Contract
use contract_kit.Inventory.{
  SketchLocation, SketchDiagnostic, missing_file, not_matched, contract_file,
  SketchInventoryComparison, new_comparison, MatchCandidate,
}
use contract_kit.Inventory
use contract_kit.Matching.{
  MatchEvaluation, satisfied, missing, occurrence_mismatch, MatchCandidatePosition, evaluate,
  best_candidate,
}
use contract_kit.Evidence.{
  MatchCandidateEvidence, evidence, candidate_skeleton, measure_candidate, candidate_bytes,
  materialize_candidate,
}

-- `SourceSelection::from_contracts`.
unfoldable pub select :
    List SketchContract → SortedMap CatalogPath (Unit {0}) → M (SortedMap CatalogPath (Unit {0}))
select [] paths = pure paths
select (contract ∷ rest) paths = do checkpoint; select rest (insert contract.file tt paths)

pub record SourceCatalog : Type 0 where
  pub files : SortedMap CatalogPath Bytes
  pub source_catalog_entry_count : ℕ
  pub referenced_source_file_count : ℕ

-- The entries whose path is selected, in the catalog's order.
unfoldable pub keep_selected :
    SortedMap CatalogPath (Unit {0})
    → SortedMap CatalogPath Bytes
    → SortedMap CatalogPath Bytes
    → M (SortedMap CatalogPath Bytes)
keep_selected selection [] files = pure files
keep_selected selection ((path, bytes) ∷ rest) files = do
  checkpoint
  keep_selected selection rest
      (if contains_key path selection then insert path bytes files else files)

-- `SourceCatalog::from_catalog`.
unfoldable pub from_catalog : FileCatalog → SketchContracts → M SourceCatalog
unfolding select keep_selected
from_catalog catalog contracts = do
  selection ← select contracts.entries []
  files ← keep_selected selection catalog.files []
  pure (record {
    files = files;
    source_catalog_entry_count = Catalog.len catalog;
    referenced_source_file_count = length selection;
  })

-- The contracts of each source file, in the order of the files. The other part of the source's
-- key, the normalization, has one value.
unfoldable pub group :
    List SketchContract
    → SortedMap CatalogPath (List SketchContract)
    → M (SortedMap CatalogPath (List SketchContract))
group [] grouped = pure grouped
group (contract ∷ rest) grouped = do checkpoint; group rest (push_at contract.file contract grouped)

abbrev pub location : CatalogPath → SketchContract → SketchLocation
location source_file contract = record {
  sketch_id = contract.id.value;
  contract_file = contract.locator.contract_file;
  document_index = contract.locator.document_index;
  source_file = source_file;
}

pub record SketchDiagnostics : Type 0 where
  pub entries : List SketchDiagnostic
  pub bytes : DiagnosticBytes

-- `SketchDiagnostics::push_reserved`.
unfoldable pub push_reserved :
    SketchDiagnostic → DiagnosticReservation → SketchDiagnostics → SketchDiagnostics
push_reserved diagnostic reservation output = record {
  entries = output.entries ++ diagnostic ∷ [];
  bytes = commit reservation output.bytes;
}

module _ (json : Json SketchDiagnostic) (diagnostics : DiagnosticLimits) where
  unfoldable pub push : SketchDiagnostic → SketchDiagnostics → M SketchDiagnostics
  push diagnostic output = do
    reservation ←
        lift (reserve json diagnostic 0 diagnostics (some (contract_file diagnostic)) output.bytes)
    pure (push_reserved diagnostic reservation output)

  -- `push_not_matched` without a candidate, and with the evidence of one.
  unfoldable pub push_without :
      SketchLocation → SketchNormalization → SketchDiagnostics → M SketchDiagnostics
  push_without place normalization output = do
    reservation ← lift (
        reserve json (not_matched place normalization none) 0 diagnostics (some place.contract_file)
          output.bytes)
    charged ← lift (add_bytes reservation 0 diagnostics (some place.contract_file))
    pure (push_reserved (not_matched place normalization none) charged output)

  unfoldable pub push_with :
      MatchCandidateEvidence
      → SketchLocation
      → SketchNormalization
      → SketchDiagnostics
      → M SketchDiagnostics
  push_with found place normalization output = do
    reservation ← lift (
        reserve json (not_matched place normalization (some (candidate_skeleton found))) 0
          diagnostics (some place.contract_file) output.bytes)
    measured ← measure_candidate found
    charged ←
        lift
          (add_bytes reservation (candidate_bytes measured) diagnostics (some place.contract_file))
    candidate ← materialize_candidate measured
    pure (push_reserved (not_matched place normalization (some candidate)) charged output)

  abbrev pub push_found :
      NormalizedSnippet
      → NormalizedSnippet
      → Option MatchCandidatePosition
      → SketchLocation
      → SketchNormalization
      → SketchDiagnostics
      → M SketchDiagnostics
  push_found expected source none place normalization output =
      push_without place normalization output
  push_found expected source (some position) place normalization output =
      push_with (evidence expected source (excerpt_maximum diagnostics) position) place
        normalization output

  module _ (matching : MatchingLimits) where
    unfoldable pub push_not_matched :
        NormalizedSnippet
        → NormalizedSnippet
        → SketchLocation
        → SketchNormalization
        → SketchDiagnostics
        → M SketchDiagnostics
    push_not_matched expected source place normalization output = do
      lift (preflight_count diagnostics (some place.contract_file) output.bytes) >>= λ _. pure tt
      position ← best_candidate matching expected source place.source_file
      push_found expected source position place normalization output

    -- `match evaluation`: the sketches matched so far, and the diagnostics.
    unfoldable pub report :
        MatchEvaluation
        → SketchContract
        → NormalizedSnippet
        → CatalogPath
        → ℕ
        → SketchDiagnostics
        → M (ℕ × SketchDiagnostics)
    report satisfied contract source file matched output = pure (matched + 1, output)
    report missing contract source file matched output = do
      pushed ←
          push_not_matched contract.snippet.normalized source (location file contract)
            contract.policy.normalization output
      pure (matched, pushed)
    report (occurrence_mismatch actual spans spans_truncated) contract source file matched output =
        do
          pushed ←
              push
                (Inventory.occurrence_mismatch (location file contract) contract.policy.occurrence
                  actual spans spans_truncated)
                output
          pure (matched, pushed)

    -- The sketches of a group whose source file is there.
    unfoldable pub check_sketches :
        ℕ
        → List SketchContract
        → NormalizedSnippet
        → CatalogPath
        → ℕ
        → SketchDiagnostics
        → M (ℕ × SketchDiagnostics)
    check_sketches index [] source file matched output = pure (matched, output)
    check_sketches index (contract ∷ rest) source file matched output = do
      checkpoint_at index
      evaluation ←
          evaluate matching contract.snippet.normalized source file contract.policy.occurrence
            (retained_span_maximum matching)
      reported ← report evaluation contract source file matched output
      check_sketches (index + 1) rest source file reported.0 reported.1

    -- The sketches of a group whose source file is missing.
    unfoldable pub missing_sketches :
        List SketchContract → CatalogPath → SketchDiagnostics → M SketchDiagnostics
    missing_sketches [] file output = pure output
    missing_sketches (contract ∷ rest) file output = do
      checkpoint
      pushed ← push (missing_file (location file contract)) output
      missing_sketches rest file pushed

    -- `SourceGroup::append_diagnostics`.
    unfoldable pub append_diagnostics :
        Option Bytes
        → List SketchContract
        → CatalogPath
        → SketchDiagnostics
        → M (ℕ × SketchDiagnostics)
    append_diagnostics none sketches file output = do
      checkpoint
      pushed ← missing_sketches sketches file output
      pure (0, pushed)
    append_diagnostics (some bytes) sketches file output = do
      checkpoint
      source ← normalize_source exact_lines_v1 bytes matching file
      check_sketches 0 sketches source file 0 output

    -- `for group in self.sources.groups(..)`.
    unfoldable pub check_groups :
        SortedMap CatalogPath Bytes
        → SortedMap CatalogPath (List SketchContract)
        → ℕ
        → SketchDiagnostics
        → M (ℕ × SketchDiagnostics)
    check_groups files [] matched output = pure (matched, output)
    check_groups files ((file, sketches) ∷ rest) matched output = do
      checkpoint
      appended ← append_diagnostics (get file files) sketches file output
      check_groups files rest (matched + appended.0) appended.1

    -- The second loop of `groups`, which polls once for each group.
    unfoldable pub poll_groups : SortedMap CatalogPath (List SketchContract) → M (Unit {0})
    poll_groups [] = pure tt
    poll_groups (g ∷ rest) = do checkpoint; poll_groups rest

    -- `SketchMatcher::check`.
    unfoldable pub check : SourceCatalog → SketchContracts → M SketchInventoryComparison
    check sources contracts = do
      bytes ← lift (Output.new diagnostics)
      start_usage
      grouped ← group contracts.entries []
      poll_groups grouped
      checked ← check_groups sources.files grouped 0 (record { entries = []; bytes = bytes })
      pure (
          new_comparison sources.source_catalog_entry_count sources.referenced_source_file_count
            (length sources.files) contracts.contract_document_count (Contract.len contracts)
            checked.0 checked.1.entries)
