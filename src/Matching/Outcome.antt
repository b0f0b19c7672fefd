-- ===== src/Matching/Outcome.antt =====
-- How the search of a snippet in a source file ends.
use contract_kit.Prelude.{ℕ, ◌+◌, ◌*◌, ◌≤◌, ◌≡◌, false, List, sym, inl, inr, arith, length}
use contract_kit.Prelude.Results.{ok}
use contract_kit.Path.{CatalogPath}
use contract_kit.Error.{Error}
use contract_kit.Limits.Matching.{MatchingLimits}
use contract_kit.Work.{Work, is_interruptible}
use contract_kit.Work.Outcome.{Ensures, Ensures-total}
use contract_kit.Normalize.{NormalizedSnippet, line_count, lines}
use contract_kit.Contract.{SketchOccurrence}
use contract_kit.Matching.{evaluate}
use contract_kit.Matching.Cost.{IsBounded, Within, Spent, Exceeds}
use contract_kit.Matching.Reference.{occurrences}
use contract_kit.Matching.Search.{judge, evaluate-Runs}

-- The starts of all occurrences of a snippet's lines in a source.
abbrev pub starts : NormalizedSnippet → NormalizedSnippet → List ℕ
starts expected source = occurrences (lines expected) (lines source) (line_count source) 0

-- From counters within the budgets (both below `u64::MAX`), `evaluate` returns what its policy
-- makes of the starts of all occurrences of the snippet's lines in the source: under `AtLeastOne`
-- satisfied or missing, under `ExactlyOne` also a mismatch with the exact number of occurrences,
-- their first spans up to the maximum, and whether any were left out. It charges at most one
-- comparison for each pair of a start and a snippet line, and one candidate for each occurrence.
-- Otherwise it ends in an error: cancellation, which some thread asked for, or the limit error of
-- a budget that is less than these charges.
pub evaluate_outcome :
    (limits : MatchingLimits) (expected source : NormalizedSnippet) (file : CatalogPath)
    (policy : SketchOccurrence) (maximum : ℕ) (w : Work)
    → IsBounded limits
    → Within limits file w
    → Ensures
        (Exceeds limits file
          (line_count source * line_count expected)
          (length (starts expected source))
          w)
        (λ r w'.
          (r ≡ judge policy (line_count expected) maximum (starts expected source))
          × Spent limits file
              (line_count source * line_count expected)
              (length (starts expected source))
              w
              w')
        (evaluate limits expected source file policy maximum w)
evaluate_outcome limits expected source file policy maximum w bounded within =
    evaluate-Runs limits expected source file bounded maximum policy w within

-- When no thread cancels and the budgets (below `u64::MAX`) leave one comparison for each pair of
-- a start and a snippet line and one candidate for each occurrence, `evaluate` returns, with what
-- its policy makes of the starts of all occurrences.
pub evaluate_total :
    (limits : MatchingLimits) (expected source : NormalizedSnippet) (file : CatalogPath)
    (policy : SketchOccurrence) (maximum : ℕ) (w : Work)
    → IsBounded limits
    → is_interruptible w.cancellation ≡ false
    → w.usage.line_comparisons + line_count source * line_count expected ≤ limits.line_comparisons
    → w.usage.occurrence_candidates + length (starts expected source) ≤ limits.occurrence_candidates
    → (w' : Work) × (evaluate limits expected source file policy maximum w
        ≡ ok (judge policy (line_count expected) maximum (starts expected source), w'))
evaluate_total limits expected source file policy maximum w bounded quiet comparisons candidates =
    let within : Within limits file w = record {
      comparisons_within = omega arith;
      candidates_within = omega arith;
    } in
    let (r, w', e, p) =
      Ensures-total
        (Exceeds limits file (line_count source * line_count expected)
          (length (starts expected source)) w)
        (λ r w'.
          (r ≡ judge policy (line_count expected) maximum (starts expected source))
          × Spent limits file (line_count source * line_count expected)
              (length (starts expected source)) w w')
        (evaluate limits expected source file policy maximum w)
        (evaluate_outcome limits expected source file policy maximum w bounded within)
        (λ x why. in_budget x why) in
    (w', rw (sym p.0) e)
  where
    in_budget :
        (x : Error)
        → ¬ Exceeds limits file
            (line_count source * line_count expected)
            (length (starts expected source))
            w
            x
    in_budget x (inl (c, i)) = cc
    in_budget x (inr (inl (c, over))) = omega arith
    in_budget x (inr (inr (c, over))) = omega arith
