-- ===== src/Matcher/Checking.antt =====
-- What the loops over the groups and over the sketches of a group add for each contract.
use mathlib.Core.Path.{subst}
use contract_kit.Prelude.{ℕ, ◌+◌, ◌≡◌, refl, sym, Option, none, some, List, [], ◌∷◌, ◌++◌, arith}
use contract_kit.SortedMap.{SortedMap, get}
use contract_kit.SortedMap.Contents.{Entries, members}
use contract_kit.Path.{CatalogPath, path_ord}
use contract_kit.Limits.Matching.{MatchingLimits, retained_span_maximum}
use contract_kit.Limits.Output.{DiagnosticLimits, Json}
use contract_kit.Work.{checkpoint, checkpoint_at}
use contract_kit.Work.Outcome.{
  Yields-weaken, Yields-pure, Yields, Yields-bind, Yields-after, Yields-returned, Returns,
}
use contract_kit.Normalize.{Bytes, NormalizedSnippet, exact_lines_v1, normalize_source}
use contract_kit.Contract.{SketchContract}
use contract_kit.Inventory.{SketchDiagnostic, missing_file}
use contract_kit.Matching.{MatchEvaluation, evaluate}
use contract_kit.Matcher.{
  SketchDiagnostics, push, report, check_sketches, missing_sketches, append_diagnostics,
  check_groups, location,
}
use contract_kit.Matcher.Grouping.{Names}
use contract_kit.Matcher.Reporting.{Appends, push-Appends, Verdict, Adds, report-Adds, Reports}
use contract_kit.Matcher.Accounts.{
  Accounts-map, Continues, Continues-nil, Continues-cons, Continues-trans,
}

-- What becomes of a contract, by the source file that it names.
abbrev pub IsChecked :
    DiagnosticLimits
    → MatchingLimits
    → SortedMap CatalogPath Bytes
    → SketchContract
    → List SketchDiagnostic
    → Type 0
IsChecked diagnostics matching files c ds =
    Reports diagnostics matching (get c.file files) c.file c ds

module _ (json : Json SketchDiagnostic) (diagnostics : DiagnosticLimits)
    (matching : MatchingLimits) where
  module _ (source : NormalizedSnippet) (file : CatalogPath) where
    -- The verdict on a sketch is that of the scan.
    abbrev Judged : SketchContract → List SketchDiagnostic → Type 0
    Judged c ds =
        (evaluation : MatchEvaluation) × Returns
          (evaluate matching c.snippet.normalized source file c.policy.occurrence
            (retained_span_maximum matching))
          evaluation
        × Verdict diagnostics matching evaluation source file c ds

    check_sketches-Continues :
        (index : ℕ) (contracts : List SketchContract) (matched : ℕ) (output : SketchDiagnostics)
        → Yields
            (Continues Judged contracts matched output)
            (check_sketches json diagnostics matching index contracts source file matched output)
    unfolding check_sketches
    check_sketches-Continues index [] matched output =
        Yields-pure _ _ (Continues-nil Judged matched output)
    check_sketches-Continues index (c ∷ rest) matched output =
        let P = Continues Judged (c ∷ rest) matched output in
        Yields-after P (checkpoint_at index) _ (λ _.
          Yields-returned P
            (evaluate matching c.snippet.normalized source file c.policy.occurrence
              (retained_span_maximum matching))
            _
            (λ evaluation evaluated.
              Yields-bind
                (Adds (Verdict diagnostics matching evaluation source file c) matched output) P
                (report json diagnostics matching evaluation c source file matched output) _
                (report-Adds json diagnostics matching evaluation c source file matched output)
                (λ r (own, verdict, e, k).
                  Yields-weaken (Continues Judged rest r.0 r.1) P _
                    (check_sketches-Continues (index + 1) rest r.0 r.1)
                    (λ end.
                      Continues-cons Judged c rest matched output r end
                        (own, (evaluation, evaluated, verdict), e, k)))))

  abbrev IsMissing : CatalogPath → SketchContract → List SketchDiagnostic → Type 0
  IsMissing file c ds = ds ≡ missing_file (location file c) ∷ []

  missing_sketches-Continues :
      (contracts : List SketchContract) (file : CatalogPath) (output : SketchDiagnostics)
      → Yields
          (λ pushed. Continues (IsMissing file) contracts 0 output (0, pushed))
          (missing_sketches json diagnostics matching contracts file output)
  unfolding missing_sketches
  missing_sketches-Continues [] file output =
      Yields-pure _ _ (Continues-nil (IsMissing file) 0 output)
  missing_sketches-Continues (c ∷ rest) file output =
      let P : SketchDiagnostics → Type 0 =
        λ pushed. Continues (IsMissing file) (c ∷ rest) 0 output (0, pushed) in
      let d = missing_file (location file c) in
      Yields-after P checkpoint _ (λ _.
        Yields-bind (Appends d output) P (push json diagnostics d output) _
          (push-Appends json diagnostics d output)
          (λ pushed e.
            Yields-weaken (λ s. Continues (IsMissing file) rest 0 pushed (0, s)) P _
              (missing_sketches-Continues rest file pushed)
              (λ s h.
                Continues-cons (IsMissing file) c rest 0 output (0, pushed) (0, s)
                  (d ∷ [], refl, e, omega arith) h)))

  module _ (files : SortedMap CatalogPath Bytes) where
    abbrev Checked : SketchContract → List SketchDiagnostic → Type 0
    Checked = IsChecked diagnostics matching files

    -- In a group all contracts name its file.
    in_group :
        (R : SketchContract → List SketchDiagnostic → Type 0) (file : CatalogPath)
        (bytes : Option Bytes) (contracts : List SketchContract) (matched : ℕ)
        (output : SketchDiagnostics) (r : ℕ × SketchDiagnostics)
        → get file files ≡ bytes
        → Names file contracts
        → ((c : SketchContract) (own : List SketchDiagnostic)
            → R c own
            → Reports diagnostics matching bytes file c own)
        → Continues R contracts matched output r
        → Continues Checked contracts matched output r
    in_group R file bytes contracts matched output r there named f h = record {
      added = h.added;
      count = h.count;
      appended = h.appended;
      counted = h.counted;
      accounts =
          Accounts-map (λ c. c.file ≡ file) R Checked
            (λ c own e reported.
              subst (λ name. Reports diagnostics matching (get name files) name c own) (sym e)
                (subst (λ b. Reports diagnostics matching b file c own) (sym there)
                  (f c own reported)))
            contracts h.added h.count named h.accounts;
    }

    append_diagnostics-Continues :
        (bytes : Option Bytes) (contracts : List SketchContract) (file : CatalogPath)
        (output : SketchDiagnostics)
        → get file files ≡ bytes
        → Names file contracts
        → Yields
            (Continues Checked contracts 0 output)
            (append_diagnostics json diagnostics matching bytes contracts file output)
    unfolding append_diagnostics
    append_diagnostics-Continues none contracts file output there named =
        let P = Continues Checked contracts 0 output in
        Yields-after P checkpoint _ (λ _.
          Yields-bind _ P (missing_sketches json diagnostics matching contracts file output) _
            (missing_sketches-Continues contracts file output)
            (λ pushed h.
              Yields-pure P (0, pushed)
                (in_group (IsMissing file) file none contracts 0 output (0, pushed) there named
                  (λ c own is. is) h)))
    append_diagnostics-Continues (some bytes) contracts file output there named =
        let P = Continues Checked contracts 0 output in
        Yields-after P checkpoint _ (λ _.
          Yields-returned P (normalize_source exact_lines_v1 bytes matching file) _
            (λ source normalized.
              Yields-weaken _ P _ (check_sketches-Continues source file 0 contracts 0 output)
                (λ r h.
                  in_group (Judged source file) file (some bytes) contracts 0 output r there named
                    (λ c own (evaluation, evaluated, verdict).
                      (source, evaluation, normalized, evaluated, verdict))
                    h)))

    -- The count of a group is added to that of the groups before.
    from_matched :
        (contracts : List SketchContract) (matched : ℕ) (output : SketchDiagnostics)
        (r : ℕ × SketchDiagnostics)
        → Continues Checked contracts 0 output r
        → Continues Checked contracts matched output (matched + r.0, r.1)
    from_matched contracts matched output r h = record {
      added = h.added;
      count = h.count;
      appended = h.appended;
      counted = omega (arith, h.counted);
      accounts = h.accounts;
    }

    pub check_groups-Continues :
        (groups : SortedMap CatalogPath (List SketchContract)) (matched : ℕ)
        (output : SketchDiagnostics)
        → Entries Names groups
        → Yields
            (Continues Checked (members groups) matched output)
            (check_groups json diagnostics matching files groups matched output)
    unfolding check_groups
    check_groups-Continues [] matched output named =
        Yields-pure _ _ (Continues-nil Checked matched output)
    check_groups-Continues ((file, contracts) ∷ rest) matched output named =
        let P = Continues Checked (contracts ++ members rest) matched output in
        Yields-after P checkpoint _ (λ _.
          Yields-bind _ P
            (append_diagnostics json diagnostics matching (get file files) contracts file output) _
            (append_diagnostics-Continues (get file files) contracts file output refl named.0)
            (λ r h.
              Yields-weaken _ P _ (check_groups-Continues rest (matched + r.0) r.1 named.1)
                (λ s later.
                  Continues-trans Checked contracts (members rest) matched output
                    (matched + r.0, r.1) s (from_matched contracts matched output r h) later)))
