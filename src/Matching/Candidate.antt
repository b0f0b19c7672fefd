-- ===== src/Matching/Candidate.antt =====
-- How the search for the nearest candidate ends.
use contract_kit.Prelude.{
  ℕ, zero, suc, ◌+◌, ◌*◌, ◌||◌, Option, none, some, if◌then◌else◌, arith, saturating_add,
  Bool-cases, inl, inr,
}
use contract_kit.Prelude.Results.{Result, ok, err}
use contract_kit.Path.{CatalogPath}
use contract_kit.Error.{Error}
use contract_kit.Limits.Matching.{MatchingLimits}
use contract_kit.Work.{Work, M, pure}
use contract_kit.Work.Outcome.{Ensures, Yields}
use contract_kit.Normalize.{NormalizedSnippet, is_empty, line_count, line_at, same_line}
use contract_kit.Matching.{
  MatchCandidatePosition, Best, best_start, keep_best, score_from, best_from, difference_from,
  position_at, best_candidate,
}
use contract_kit.Matching.Cost.{
  IsBounded, Within, Spent, Exceeds, Runs, Runs-pure, Runs-bind, Runs-weaken, after_checkpoint,
  after_comparison,
}
use contract_kit.Matching.Nearest.{Nearest, best_candidate-Nearest}

Ensures-both :
    {A : Type 0} (E : Error → Type 0) (P : A → Work → Type 0) (Q : A → Type 0)
    (r : Result Error (A × Work))
    → Ensures E (λ a w'. Unit {0} × P a w') r
    → Ensures (λ _. Unit {0}) (λ a _. Q a) r
    → Ensures E (λ a w'. Q a × P a w') r
Ensures-both E P Q (ok (a, w)) h k = (k, h.1)
Ensures-both E P Q (err e) h k = h

module _ (limits : MatchingLimits) (expected source : NormalizedSnippet) (file : CatalogPath)
    (bounded : IsBounded limits) where
  -- Only the cost of an operation.
  abbrev Costs : {A : Type 0} → ℕ → M A → Type 0
  Costs {A} comparisons m = Runs limits file comparisons 0 (λ (_ : A). Unit {0}) m

  score_from-Costs :
      (rounds i start score count : ℕ)
      → Costs rounds (score_from limits expected source file rounds i start score count)
  unfolding score_from
  score_from-Costs zero i start score count =
      Runs-pure limits file (λ (_ : ℕ × ℕ). Unit {0}) (score, count) tt
  score_from-Costs (suc rounds) i start score count =
      after_checkpoint limits file (suc rounds) 0 (λ _. Unit {0}) _
        (after_comparison limits file rounds 0 (λ _. Unit {0}) _
          (score_from-Costs rounds (i + 1) start
            (if same_line (line_at expected i) (line_at source (start + i))
              then score + 1
              else score)
            (saturating_add count 1))
          bounded)
        count

  best_from-Costs :
      (rounds start : ℕ) (b : Best)
      → Costs (rounds * line_count expected) (best_from limits expected source file rounds start b)
  unfolding best_from
  best_from-Costs zero start b =
      Runs-weaken limits file 0 0 (zero * line_count expected) 0 (λ _. Unit {0}) (λ _. Unit {0})
        (pure b) (omega arith) (omega arith) (λ _ h. h) (Runs-pure limits file (λ _. Unit {0}) b tt)
  best_from-Costs (suc rounds) start b =
      let height = line_count expected in
      after_checkpoint limits file (suc rounds * height) 0 (λ _. Unit {0}) _
        (Runs-weaken limits file (height + rounds * height) (0 + 0) (suc rounds * height) 0
          (λ _. Unit {0}) (λ _. Unit {0}) _ (omega arith) (omega arith) (λ _ h. h)
          (Runs-bind limits file height 0 (rounds * height) 0 (λ _. Unit {0}) (λ _. Unit {0})
            (score_from limits expected source file height 0 start 0 b.comparison_count) _
            (score_from-Costs height 0 start 0 b.comparison_count)
            (λ r _. best_from-Costs rounds (start + 1) (keep_best start r.0 r.1 b))))
        start

  difference_from-Costs :
      (rounds i start : ℕ) → Costs 0 (difference_from limits expected source file rounds i start)
  unfolding difference_from
  difference_from-Costs zero i start = Runs-pure limits file (λ (_ : Option ℕ). Unit {0}) none tt
  difference_from-Costs (suc rounds) i start =
      after_checkpoint limits file 0 0 (λ _. Unit {0}) _
        (elim (Bool-cases (same_line (line_at expected i) (line_at source (start + i)))) [
          | inl same ↦ rw same (difference_from-Costs rounds (i + 1) start)
          | inr other ↦ rw other (Runs-pure limits file (λ (_ : Option ℕ). Unit {0}) (some i) tt)
        ])
        i

  free : {A : Type 0} (product : ℕ) (m : M A) → Costs 0 m → Costs product m
  free product m h =
      Runs-weaken limits file 0 0 product 0 (λ _. Unit {0}) (λ _. Unit {0}) m (omega arith)
        (omega arith) (λ _ h. h) h

  best_candidate-Costs :
      Costs (line_count source * line_count expected) (best_candidate limits expected source file)
  unfolding best_candidate
  best_candidate-Costs =
      let product = line_count source * line_count expected in
      elim (Bool-cases (is_empty expected || is_empty source)) [
        | inl empty ↦ rw empty (
            free {A = Option MatchCandidatePosition} product (pure none)
              (Runs-pure limits file (λ (_ : Option MatchCandidatePosition). Unit {0}) none tt))
        | inr filled ↦ rw filled (
            Runs-weaken limits file (product + 0) (0 + 0) product 0 (λ _. Unit {0}) (λ _. Unit {0})
              _ (omega arith) (omega arith) (λ _ h. h)
              (Runs-bind limits file product 0 0 0 (λ _. Unit {0}) (λ _. Unit {0})
                (best_from limits expected source file (line_count source) 0 best_start) _
                (best_from-Costs (line_count source) 0 best_start)
                (λ b _. elim (Bool-cases b.has_candidate) [
                  | inl old ↦ rw old (
                      Runs-bind limits file 0 0 0 0 (λ _. Unit {0}) (λ _. Unit {0})
                        (difference_from limits expected source file (line_count expected) 0
                          b.best_source_start)
                        _ (difference_from-Costs (line_count expected) 0 b.best_source_start)
                        (λ o _.
                          Runs-pure limits file (λ (_ : Option MatchCandidatePosition). Unit {0})
                            (position_at limits expected source file b.best_source_start o) tt))
                  | inr new ↦ rw new (
                      Runs-pure limits file (λ (_ : Option MatchCandidatePosition). Unit {0}) none
                        tt)
                ])))
      ]

-- From counters within the budgets (both below `u64::MAX`), the search for a candidate returns
-- and charges at most one comparison for each pair of a source line and a snippet line, or it ends
-- in an error: cancellation, which some thread asked for, or the limit error of a budget that is
-- less than these charges. In a position that it returns, no start in the source has more lines in
-- common with the snippet and every earlier start has fewer, the end is cut at the end of the
-- source, and the reported line is the first one that differs there. It returns no position only if
-- one of the texts is empty or all lines of the snippet agree at some start.
pub best_candidate_outcome :
    (limits : MatchingLimits) (expected source : NormalizedSnippet) (file : CatalogPath) (w : Work)
    → IsBounded limits
    → Within limits file w
    → Ensures
        (Exceeds limits file (line_count source * line_count expected) 0 w)
        (λ position w'.
          Nearest limits expected source file position
          × Spent limits file (line_count source * line_count expected) 0 w w')
        (best_candidate limits expected source file w)
unfolding Yields
best_candidate_outcome limits expected source file w bounded within =
    Ensures-both (Exceeds limits file (line_count source * line_count expected) 0 w)
      (λ _ w'. Spent limits file (line_count source * line_count expected) 0 w w')
      (Nearest limits expected source file) (best_candidate limits expected source file w)
      (best_candidate-Costs limits expected source file bounded w within)
      (best_candidate-Nearest limits expected source file w)
