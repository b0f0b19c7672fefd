-- ===== src/Matcher/Counting.antt =====
-- Every sketch is accounted for: as matched, or by one diagnostic, as its verdict tells.
use mathlib.Core.Logic.{∥∥₁_elim}
use native.Mathlib.Nat.{ℕ_set}
use mathlib.Core.List.{Perm, Permᴰ}
use contract_kit.Prelude.{
  ℕ, suc, ◌+◌, ◌≡◌, refl, ap, ◌∙◌, Option, none, some, List, [], arith, length,
}
use contract_kit.Prelude.Results.{ok}
use contract_kit.SortedMap.{SortedMap, get}
use contract_kit.SortedMap.Contents.{members}
use contract_kit.Path.{CatalogPath, path_ord}
use contract_kit.Limits.Matching.{MatchingLimits}
use contract_kit.Limits.Output.{DiagnosticLimits, DiagnosticBytes, Json}
use contract_kit.Limits.Output
use contract_kit.Work.{Work, lift, start_usage}
use contract_kit.Work.Outcome.{Yields-pure, Yields, Yields-bind, Yields-after, Yields-ok}
use contract_kit.Normalize.{Bytes, NormalizedSnippet}
use contract_kit.Contract.{SketchContract, SketchContracts, len}
use contract_kit.Inventory.{SketchDiagnostic, SketchInventoryComparison, new_comparison}
use contract_kit.Inventory.Sorting.{length-sort, sort-Perm}
use contract_kit.Matching.{MatchEvaluation, satisfied, missing, occurrence_mismatch}
use contract_kit.Matcher.{group, SketchDiagnostics, SourceCatalog, check_groups, check, poll_groups}
use contract_kit.Matcher.Grouping.{group-holds_each}
use contract_kit.Matcher.Reporting.{matches, Verdict, Reports}
use contract_kit.Matcher.Accounts.{Accounts, Accounts-length, Continues}
use contract_kit.Matcher.Checking.{IsChecked, check_groups-Continues}

module _ {A : Type 0} where
  Permᴰ-length : {xs ys : List A} → Permᴰ xs ys → length xs ≡ length ys
  Permᴰ-length Permᴰ.nil = refl
  Permᴰ-length (Permᴰ.cons _ p) = ap suc (Permᴰ-length p)
  Permᴰ-length (Permᴰ.swap _ _) = refl
  Permᴰ-length (Permᴰ.trans p q) = Permᴰ-length p ∙ Permᴰ-length q

  length-Perm : {xs ys : List A} → Perm xs ys → length xs ≡ length ys
  length-Perm p = ∥∥₁_elim p (ℕ_set _ _) Permᴰ-length

-- The result of a check tells of each contract, in some order, what becomes of it.
pub record Accounted (diagnostics : DiagnosticLimits) (matching : MatchingLimits)
    (files : SortedMap CatalogPath Bytes) (contracts : SketchContracts)
    (c : SketchInventoryComparison) : Type 0 where
  pub order : List SketchContract
  pub all_contracts : Perm order contracts.entries
  pub collected : List SketchDiagnostic
  pub all_diagnostics : Perm c.diagnostics collected
  pub accounts :
      Accounts (IsChecked diagnostics matching files) order collected c.counts.matched_sketch_count
  pub sum : c.counts.matched_sketch_count + c.counts.failed_sketch_count ≡ c.counts.sketch_count
  pub sketches : c.counts.sketch_count ≡ length contracts.entries
  pub failed : length c.diagnostics ≡ c.counts.failed_sketch_count

module _ (json : Json SketchDiagnostic) (diagnostics : DiagnosticLimits)
    (matching : MatchingLimits) where
  -- Each contract has no diagnostic and counts as matched, or has one.
  Verdict-one :
      (evaluation : MatchEvaluation) (source : NormalizedSnippet) (c : SketchContract)
      (own : List SketchDiagnostic)
      → Verdict diagnostics matching evaluation source c.file c own
      → matches own + length own ≡ 1
  Verdict-one satisfied source c own h = rw h refl
  Verdict-one missing source c own (p, candidate, found, shows, e) = rw e refl
  Verdict-one (occurrence_mismatch actual spans cut) source c own h = rw h refl

  Reports-one :
      (bytes : Option Bytes) (c : SketchContract) (own : List SketchDiagnostic)
      → Reports diagnostics matching bytes c.file c own
      → matches own + length own ≡ 1
  Reports-one none c own h = rw h refl
  Reports-one (some bytes) c own (source, evaluation, normalized, evaluated, verdict) =
      Verdict-one evaluation source c own verdict

  module _ (sources : SourceCatalog) (contracts : SketchContracts) where
    -- The result that is made from what the loop over the groups returns.
    abbrev compared : ℕ × SketchDiagnostics → SketchInventoryComparison
    compared checked =
        new_comparison sources.source_catalog_entry_count sources.referenced_source_file_count
          (length sources.files) contracts.contract_document_count (len contracts) checked.0
          checked.1.entries

    compared-Accounted :
        (order : List SketchContract) (bytes : DiagnosticBytes) (r : ℕ × SketchDiagnostics)
        → Perm order contracts.entries
        → Continues
            (IsChecked diagnostics matching sources.files)
            order
            0
            (record { entries = []; bytes = bytes })
            r
        → Accounted diagnostics matching sources.files contracts (compared r)
    unfolding new_comparison
    compared-Accounted order bytes r same h =
        let R = IsChecked diagnostics matching sources.files in
        let is : r.0 ≡ h.count = omega (arith, h.counted) in
        record {
          order = order;
          all_contracts = same;
          collected = h.added;
          all_diagnostics = rw (← h.appended) (sort-Perm r.1.entries);
          accounts = rw is h.accounts;
          sum = rw h.appended (
              omega (
                arith,
                is,
                length-Perm same,
                Accounts-length R (λ c own. Reports-one (get c.file sources.files) c own) order
                    h.added h.count h.accounts,
              ));
          sketches = refl;
          failed = length-sort r.1.entries;
        }

    check-Accounted :
        Yields
          (Accounted diagnostics matching sources.files contracts)
          (check json diagnostics matching sources contracts)
    unfolding check
    check-Accounted =
        let P = Accounted diagnostics matching sources.files contracts in
        Yields-after P (lift (Output.new diagnostics)) _ (λ bytes.
          Yields-after P start_usage _ (λ _.
            Yields-bind _ P (group contracts.entries []) _ (group-holds_each contracts.entries)
              (λ grouped (same, named).
                Yields-after P (poll_groups json diagnostics matching grouped) _ (λ _.
                  Yields-bind _ P
                    (check_groups json diagnostics matching sources.files grouped 0
                      (record { entries = []; bytes = bytes }))
                    _
                    (check_groups-Continues json diagnostics matching sources.files grouped 0
                      (record { entries = []; bytes = bytes }) named)
                    (λ r h.
                      Yields-pure P (compared r)
                        (compared-Accounted (members grouped) bytes r same h))))))

-- A check that returns accounts for each contract once. Its diagnostics are, up to their order,
-- those of the contracts one after the other. A contract whose source file is not there has one
-- `MissingFile`. Any other has, by what the scan of its normalized source file returned: none,
-- if satisfied; one `NotMatched`, if missing, with the nearest candidate that was found; or one
-- `OccurrenceMismatch`, with the policy, the number of occurrences and the spans of that scan. The
-- contracts without a diagnostic are counted as matched and the diagnostics as failed, and both
-- make up the number of contracts.
pub check_counts :
    (json : Json SketchDiagnostic) (diagnostics : DiagnosticLimits) (matching : MatchingLimits)
    (sources : SourceCatalog) (contracts : SketchContracts) (w w' : Work)
    (c : SketchInventoryComparison)
    → check json diagnostics matching sources contracts w ≡ ok (c, w')
    → Accounted diagnostics matching sources.files contracts c
check_counts json diagnostics matching sources contracts w w' c e =
    Yields-ok (Accounted diagnostics matching sources.files contracts)
      (check json diagnostics matching sources contracts) w w' c
      (check-Accounted json diagnostics matching sources contracts) e
