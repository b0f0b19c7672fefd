-- ===== src/Matching.antt =====
-- conkit-sketch/normalize.rs, `matches_at`, and matcher.rs, `MatchScan`: the search of a snippet
-- in a source file, under the budgets of line comparisons and occurrences.
pub mod Reference
pub mod Cost
pub mod Window
pub mod Search
pub mod Nearest
pub mod Candidate
pub mod Outcome
use contract_kit.Prelude.{
  ℕ, zero, suc, ◌+◌, Bool, true, false, not, ◌||◌, Option, none, some, List, [], ◌∷◌, ◌++◌, min,
  ltb, ◌==◌, if◌then◌else◌, length, saturating_add, saturating_sub,
}
use contract_kit.Prelude.Order.{cmp_list}
use contract_kit.Path.{CatalogPath}
use contract_kit.Limits.Matching.{
  MatchingLimits, record_line_comparison, record_occurrence_candidate,
}
use contract_kit.Work.{M, ◌>>=◌, ◌>>◌, pure, counted, checkpoint_at}
use contract_kit.Normalize.{NormalizedSnippet, is_empty, line_count, line_at, same_line}
use contract_kit.Contract.{SketchOccurrence, at_least_one, exactly_one}
use contract_kit.Inventory.{SourceLineSpan}

pub data MatchEvaluation : Type 0 where
  satisfied missing : MatchEvaluation
  occurrence_mismatch : ℕ → List SourceLineSpan → Bool → MatchEvaluation

pub record MatchCandidatePosition : Type 0 where
  pub source_start : ℕ
  pub source_end : ℕ
  pub first_difference : ℕ

-- The early return of `matches_at`: no window of the snippet's height starts here.
abbrev pub no_window : ℕ → ℕ → ℕ → Bool
no_window expected_line_count source_line_count source_start =
    expected_line_count == 0
    || ltb source_line_count source_start
    || ltb (saturating_sub source_line_count source_start) expected_line_count

-- `match actual`, behind the loop of `evaluate`.
unfoldable pub verdict : ℕ → List SourceLineSpan → MatchEvaluation
verdict zero spans = missing
verdict (suc zero) spans = satisfied
verdict (suc (suc n)) spans =
    occurrence_mismatch (suc (suc n)) spans (ltb (length spans) (suc (suc n)))

module _ (limits : MatchingLimits) (expected source : NormalizedSnippet) (file : CatalogPath) where
  -- `for expected_index in 0..expected_line_count`, with the rounds that are left.
  unfoldable pub compare_window : ℕ → ℕ → ℕ → M Bool
  unfolding cmp_list
  compare_window zero expected_index source_start = pure true
  compare_window (suc rounds) expected_index source_start = do
    checkpoint_at expected_index
    counted (record_line_comparison limits file)
    elim (same_line (line_at expected expected_index)
        (line_at source (source_start + expected_index))) [
          | true ↦ compare_window rounds (expected_index + 1) source_start
          | false ↦ pure false
        ]

  unfoldable pub matches_at : ℕ → M Bool
  unfolding compare_window
  matches_at source_start =
      if no_window (line_count expected) (line_count source) source_start
      then pure false
      else compare_window (line_count expected) 0 source_start

  -- `for source_start in 0..self.source.line_count()` of `evaluate`.
  unfoldable pub evaluate_from :
      SketchOccurrence → ℕ → ℕ → ℕ → ℕ → List SourceLineSpan → M MatchEvaluation
  evaluate_from occurrence maximum zero source_start actual spans = pure (verdict actual spans)
  evaluate_from occurrence maximum (suc rounds) source_start actual spans = do
    checkpoint_at source_start
    found ← matches_at source_start
    elim found [
      | false ↦ evaluate_from occurrence maximum rounds (source_start + 1) actual spans
      | true ↦ do
        counted (record_occurrence_candidate limits file)
        elim occurrence [
          | at_least_one ↦ pure satisfied
          | exactly_one ↦ evaluate_from exactly_one maximum rounds (source_start + 1) (actual + 1) (
              if ltb (length spans) maximum
              then spans
                ++ (record { start = source_start + 1; end = source_start + line_count expected })
                  ∷ []
              else spans)
        ]
    ]

  unfoldable pub evaluate : SketchOccurrence → ℕ → M MatchEvaluation
  evaluate occurrence maximum = evaluate_from occurrence maximum (line_count source) 0 0 []

  -- The inner loop of `best_candidate`: the score, and the comparisons so far.
  unfoldable pub score_from : ℕ → ℕ → ℕ → ℕ → ℕ → M (ℕ × ℕ)
  score_from zero expected_index source_start score comparison_count =
      pure (score, comparison_count)
  score_from (suc rounds) expected_index source_start score comparison_count = do
    checkpoint_at comparison_count
    counted (record_line_comparison limits file)
    score_from rounds (expected_index + 1) source_start
        (if same_line (line_at expected expected_index)
            (line_at source (source_start + expected_index))
          then score + 1
          else score)
        (saturating_add comparison_count 1)

-- The variables of the outer loop of `best_candidate`.
pub record Best : Type 0 where
  pub best_source_start : ℕ
  pub best_score : ℕ
  pub has_candidate : Bool
  pub comparison_count : ℕ

abbrev pub best_start : Best
best_start = record {
  best_source_start = 0;
  best_score = 0;
  has_candidate = false;
  comparison_count = 0;
}

-- `if !has_candidate || score > best_score`.
unfoldable pub keep_best : ℕ → ℕ → ℕ → Best → Best
keep_best source_start score comparison_count best =
    if not best.has_candidate || ltb best.best_score score
    then record {
      best_source_start = source_start;
      best_score = score;
      has_candidate = true;
      comparison_count = comparison_count;
    }
    else record best { comparison_count = comparison_count }

module _ (limits : MatchingLimits) (expected source : NormalizedSnippet) (file : CatalogPath) where
  unfoldable pub best_from : ℕ → ℕ → Best → M Best
  best_from zero source_start best = pure best
  best_from (suc rounds) source_start best = do
    checkpoint_at source_start
    scored ←
        score_from limits expected source file (line_count expected) 0 source_start 0
          best.comparison_count
    best_from rounds (source_start + 1) (keep_best source_start scored.0 scored.1 best)

  -- The loop behind it, which stops at the first line that differs.
  unfoldable pub difference_from : ℕ → ℕ → ℕ → M (Option ℕ)
  difference_from zero expected_index source_start = pure none
  difference_from (suc rounds) expected_index source_start = do
    checkpoint_at expected_index
    elim (same_line (line_at expected expected_index)
        (line_at source (source_start + expected_index))) [
          | true ↦ difference_from rounds (expected_index + 1) source_start
          | false ↦ pure (some expected_index)
        ]

  -- What is returned at the best start and the first difference there.
  unfoldable pub position_at : ℕ → Option ℕ → Option MatchCandidatePosition
  position_at source_start none = none
  position_at source_start (some first_difference) = elim (line_at expected first_difference) [
    | none ↦ none
    | some line ↦ some (record {
      source_start = source_start;
      source_end = min (source_start + line_count expected) (line_count source);
      first_difference = first_difference;
    })
  ]

  unfoldable pub best_candidate : M (Option MatchCandidatePosition)
  best_candidate = if is_empty expected || is_empty source then pure none else do
    best ← best_from (line_count source) 0 best_start
    if not best.has_candidate then pure none else do
      difference ← difference_from (line_count expected) 0 best.best_source_start
      pure (position_at best.best_source_start difference)
