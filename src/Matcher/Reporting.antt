-- ===== src/Matcher/Reporting.antt =====
-- The diagnostics of one sketch.
use contract_kit.Prelude.{
  arith, append-nil, sym, ◌≡◌, refl, Option, none, some, List, [], ◌∷◌, ◌++◌, ℕ, ◌+◌,
}
use contract_kit.Path.{CatalogPath}
use contract_kit.Limits.Matching.{MatchingLimits, retained_span_maximum}
use contract_kit.Limits.Output.{
  DiagnosticLimits, DiagnosticReservation, Json, excerpt_maximum, reserve, preflight_count,
  add_bytes,
}
use contract_kit.Work.{◌>>=◌, pure, lift}
use contract_kit.Work.Outcome.{
  Yields, Yields-pure, Yields-bind, Yields-after, Yields-weaken, Yields-returned, Returns,
}
use contract_kit.Normalize.{
  Bytes, NormalizedSnippet, SketchNormalization, exact_lines_v1, normalize_source,
}
use contract_kit.Contract.{SketchContract}
use contract_kit.Inventory.{
  SketchDiagnostic, SketchLocation, MatchCandidate, not_matched, missing_file, contract_file,
}
use contract_kit.Inventory
use contract_kit.Matching.{
  MatchEvaluation, satisfied, missing, occurrence_mismatch, MatchCandidatePosition, evaluate,
  best_candidate,
}
use contract_kit.Evidence.{
  MatchCandidateEvidence, evidence, candidate_skeleton, measure_candidate, candidate_bytes,
  materialize_candidate,
}
use contract_kit.Matcher.{
  SketchDiagnostics, push, push_without, push_with, push_found, push_not_matched, report,
  push_reserved, location,
}

-- One that is matched has no diagnostic.
abbrev pub matches : List SketchDiagnostic → ℕ
matches [] = 1
matches (d ∷ ds) = 0

-- Exactly this diagnostic was added.
abbrev pub Appends : SketchDiagnostic → SketchDiagnostics → SketchDiagnostics → Type 0
Appends d output pushed = pushed.entries ≡ output.entries ++ d ∷ []

-- The diagnostics of one more sketch, which counts as matched if it has none.
abbrev pub Adds :
    (List SketchDiagnostic → Type 0) → ℕ → SketchDiagnostics → ℕ × SketchDiagnostics → Type 0
Adds R matched output r =
    (own : List SketchDiagnostic) × R own
    × (r.1.entries ≡ output.entries ++ own)
    × (r.0 ≡ matched + matches own)

module _ (diagnostics : DiagnosticLimits) where
  -- The candidate of a diagnostic is what is written from the evidence at the position.
  abbrev pub Shows :
      NormalizedSnippet
      → NormalizedSnippet
      → Option MatchCandidatePosition
      → Option MatchCandidate
      → Type 0
  Shows expected source none candidate = candidate ≡ none
  Shows expected source (some position) candidate =
      (measured : MatchCandidateEvidence) × (shown : MatchCandidate) × Returns
        (measure_candidate (evidence expected source (excerpt_maximum diagnostics) position))
        measured
      × Returns (materialize_candidate measured) shown
      × (candidate ≡ some shown)

  module _ (matching : MatchingLimits) where
    -- What the verdict on a sketch says of its diagnostics: satisfied has none; missing has one
    -- `NotMatched`, with the nearest candidate if there is one; and a mismatch has one that tells
    -- the policy, the number of occurrences and the spans.
    abbrev pub Verdict :
        MatchEvaluation
        → NormalizedSnippet
        → CatalogPath
        → SketchContract
        → List SketchDiagnostic
        → Type 0
    Verdict satisfied source file c ds = ds ≡ []
    Verdict missing source file c ds =
        (position : Option MatchCandidatePosition) × (candidate : Option MatchCandidate) × Returns
          (best_candidate matching c.snippet.normalized source file) position
        × Shows c.snippet.normalized source position candidate
        × (ds ≡ not_matched (location file c) c.policy.normalization candidate ∷ [])
    Verdict (occurrence_mismatch actual spans cut) source file c ds =
        ds
        ≡ Inventory.occurrence_mismatch (location file c) c.policy.occurrence actual spans cut ∷ []

    -- What becomes of a sketch whose source file has these bytes, or is not there.
    abbrev pub Reports :
        Option Bytes → CatalogPath → SketchContract → List SketchDiagnostic → Type 0
    Reports none file c ds = ds ≡ missing_file (location file c) ∷ []
    Reports (some bytes) file c ds =
        (source : NormalizedSnippet) × (evaluation : MatchEvaluation) × Returns
          (normalize_source exact_lines_v1 bytes matching file) source
        × Returns
            (evaluate matching c.snippet.normalized source file c.policy.occurrence
              (retained_span_maximum matching))
            evaluation
        × Verdict evaluation source file c ds

module _ (json : Json SketchDiagnostic) (diagnostics : DiagnosticLimits) where
  pushed-Appends :
      (d : SketchDiagnostic) (r : DiagnosticReservation) (output : SketchDiagnostics)
      → Yields (Appends d output) (pure (push_reserved d r output))
  unfolding push_reserved
  pushed-Appends d r output = Yields-pure (Appends d output) (push_reserved d r output) refl

  pub push-Appends :
      (d : SketchDiagnostic) (output : SketchDiagnostics)
      → Yields (Appends d output) (push json diagnostics d output)
  unfolding push
  push-Appends d output =
      Yields-after (Appends d output)
        (lift (reserve json d 0 diagnostics (some (contract_file d)) output.bytes)) _
        (λ r. pushed-Appends d r output)

  -- One diagnostic was added, which has a candidate for the position.
  abbrev Tells :
      NormalizedSnippet
      → NormalizedSnippet
      → Option MatchCandidatePosition
      → SketchLocation
      → SketchNormalization
      → SketchDiagnostics
      → SketchDiagnostics
      → Type 0
  Tells expected source position place n output pushed =
      (candidate : Option MatchCandidate) × Shows diagnostics expected source position candidate
      × Appends (not_matched place n candidate) output pushed

  module _ (expected source : NormalizedSnippet) (place : SketchLocation) (n : SketchNormalization)
      (output : SketchDiagnostics) where
    without-Tells :
        Yields
          (Tells expected source none place n output)
          (push_without json diagnostics place n output)
    unfolding push_without
    without-Tells =
        let P = Tells expected source none place n output in
        Yields-after P
          (lift (
            reserve json (not_matched place n none) 0 diagnostics (some place.contract_file)
              output.bytes))
          _
          (λ r.
            Yields-after P (lift (add_bytes r 0 diagnostics (some place.contract_file))) _
              (λ charged.
                Yields-weaken (Appends (not_matched place n none) output) P _
                  (pushed-Appends (not_matched place n none) charged output)
                  (λ pushed e. (none, refl, e))))

    with-Tells :
        (position : MatchCandidatePosition)
        → Yields (Tells expected source (some position) place n output) (
            push_with json diagnostics
              (evidence expected source (excerpt_maximum diagnostics) position)
              place
              n
              output)
    unfolding push_with
    with-Tells position =
        let P = Tells expected source (some position) place n output in
        let found = evidence expected source (excerpt_maximum diagnostics) position in
        Yields-after P
          (lift (
            reserve json (not_matched place n (some (candidate_skeleton found))) 0 diagnostics
              (some place.contract_file) output.bytes))
          _
          (λ r. Yields-returned P (measure_candidate found) _ (λ m measured.
            Yields-after P
              (lift (add_bytes r (candidate_bytes m) diagnostics (some place.contract_file))) _
              (λ charged. Yields-returned P (materialize_candidate m) _ (λ shown written.
                Yields-weaken (Appends (not_matched place n (some shown)) output) P _
                  (pushed-Appends (not_matched place n (some shown)) charged output)
                  (λ pushed e. (some shown, (m, shown, measured, written, refl), e))))))

    found-Tells :
        (position : Option MatchCandidatePosition)
        → Yields
            (Tells expected source position place n output)
            (push_found json diagnostics expected source position place n output)
    found-Tells none = without-Tells
    found-Tells (some position) = with-Tells position

  module _ (matching : MatchingLimits) where
    pub report-Adds :
        (evaluation : MatchEvaluation) (c : SketchContract) (source : NormalizedSnippet)
        (file : CatalogPath) (matched : ℕ) (output : SketchDiagnostics)
        → Yields
            (Adds (Verdict diagnostics matching evaluation source file c) matched output)
            (report json diagnostics matching evaluation c source file matched output)
    unfolding report push_not_matched
    report-Adds satisfied c source file matched output =
        Yields-pure _ _ ([], refl, sym (append-nil output.entries), refl)
    report-Adds missing c source file matched output =
        let expected = c.snippet.normalized in
        let place = location file c in
        let n = c.policy.normalization in
        let P = Adds (Verdict diagnostics matching missing source file c) matched output in
        Yields-bind
          (λ pushed.
            (position : Option MatchCandidatePosition) × Returns
              (best_candidate matching expected source file) position
            × Tells expected source position place n output pushed)
          P (push_not_matched json diagnostics matching expected source place n output) _
          (Yields-after _
            (lift (preflight_count diagnostics (some place.contract_file) output.bytes) >>= λ _.
              pure tt)
            _
            (λ _. Yields-returned _ (best_candidate matching expected source file) _ (λ p found.
              Yields-weaken _ _ _ (found-Tells expected source place n output p)
                (λ pushed told. (p, found, told)))))
          (λ pushed (p, found, (candidate, shows, e)).
            Yields-pure P (matched, pushed)
              (
                not_matched place n candidate ∷ [],
                (p, candidate, found, shows, refl),
                e,
                omega arith,
              ))
    report-Adds (occurrence_mismatch actual spans cut) c source file matched output =
        let d =
          Inventory.occurrence_mismatch (location file c) c.policy.occurrence actual spans cut in
        Yields-bind (Appends d output) _ (push json diagnostics d output) _ (push-Appends d output)
          (λ pushed e. Yields-pure _ _ (d ∷ [], refl, e, omega arith))
