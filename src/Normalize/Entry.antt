-- ===== src/Normalize/Entry.antt =====
-- The two entry points of normalization: a source file, and a snippet of a contract or a seed.
use contract_kit.Prelude.{ℕ, ◌≤◌, false, ◌≡◌, inl, inr, arith, length}
use contract_kit.Prelude.Results.{ok}
use contract_kit.Error.{Error}
use contract_kit.Path.{CatalogPath}
use contract_kit.Limits.Matching.{MatchingLimits}
use contract_kit.Work.{Work, is_interruptible}
use contract_kit.Work.Outcome.{Ensures, Ensures-total}
use contract_kit.Normalize.{
  Bytes, NormalizationBudget, from_bytes, NormalizedSnippet, exact_lines_v1, normalize_snippet,
  normalize_source, snippet, source, validate_bytes,
}
use contract_kit.Normalize.Reference.{canonical, count_lines, length-canonical-le}
use contract_kit.Normalize.Scanning.{IsBounded}
use contract_kit.Normalize.Rounds.{Fails}
use contract_kit.Normalize.Total.{Normal, from_bytes_outcome}

-- A text that is within a budget does not cross it.
not-Fails :
    (budget : NormalizationBudget) (total : Bytes) (w : Work)
    → is_interruptible w.cancellation ≡ false
    → length total ≤ budget.byte_limit
    → count_lines total ≤ budget.line_limit
    → (e : Error) → ¬ Fails budget total w e
not-Fails budget total w quiet bytes lines e (inl (c, i)) = cc
not-Fails budget total w quiet bytes lines e (inr (x, p, inl (q, over))) = omega arith
not-Fails budget total w quiet bytes lines e (inr (x, p, inr (q, over))) = omega arith

validate_raw :
    (budget : NormalizationBudget)
    → IsBounded budget
    → (n : ℕ) → n ≤ budget.byte_limit
    → validate_bytes budget n ≡ ok tt
unfolding validate_bytes
validate_raw budget bounded n h = ground arith

module _ (limits : MatchingLimits) (file : CatalogPath) (bytes : Bytes) (w : Work) where
  -- Normalizing a source file either returns the canonical text (each CRLF folded to LF, one
  -- line feed at the end dropped) with ranges that cut out exactly the parts between its line
  -- feeds and leaves the matching counters alone, or ends in an error: `OperationCancelled`, and
  -- then some thread did cancel, or a limit error that names the byte or the line budget, its
  -- limit and the first count above it, and then the canonical text is really above that budget.
  -- The two limits are below `u64::MAX`.
  pub normalize_source_outcome :
      IsBounded (source limits file)
      → Ensures
          (Fails (source limits file) (canonical bytes) w)
          (Normal bytes w)
          (normalize_source exact_lines_v1 bytes limits file w)
  unfolding normalize_source
  normalize_source_outcome bounded = from_bytes_outcome (source limits file) bounded bytes w

  -- A snippet is normalized the same way, behind a check of its raw length: whenever the raw
  -- bytes are within the byte limit, no thread cancels and the canonical text has no more lines
  -- than the line limit (both below `u64::MAX`), normalization returns, with the canonical text,
  -- its lines and the counters as they were.
  pub normalize_snippet_total :
      IsBounded (snippet limits file)
      → is_interruptible w.cancellation ≡ false
      → length bytes ≤ limits.snippet_bytes
      → count_lines (canonical bytes) ≤ limits.snippet_lines
      → (n : NormalizedSnippet) × (w' : Work) × (normalize_snippet exact_lines_v1 bytes limits file
            w
          ≡ ok (n, w'))
        × Normal bytes w n w'
  unfolding normalize_snippet
  normalize_snippet_total bounded quiet short few =
      rw (validate_raw (snippet limits file) bounded (length bytes) short) (
        Ensures-total (Fails (snippet limits file) (canonical bytes) w) (Normal bytes w)
          (from_bytes bytes (snippet limits file) w)
          (from_bytes_outcome (snippet limits file) bounded bytes w)
          (not-Fails (snippet limits file) (canonical bytes) w quiet
            (omega (arith, length-canonical-le bytes)) few))
