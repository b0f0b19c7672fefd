-- ===== src/Normalize/Equality.antt =====
-- Which source files `normalize_source` makes equal.
use contract_kit.Prelude.{◌≡◌, ◌↔◌, true, ◌∷◌, List, All}
use contract_kit.Prelude.Results.{ok}
use contract_kit.Path.{CatalogPath}
use contract_kit.Limits.Matching.{MatchingLimits}
use contract_kit.Work.{Work}
use contract_kit.Normalize.{
  Bytes, NormalizedSnippet, exact_lines_v1, normalize_source, source, equal_lines,
}
use contract_kit.Normalize.Reference.{canonical}
use contract_kit.Normalize.Scanning.{IsBounded}
use contract_kit.Normalize.Total.{Normal}
use contract_kit.Normalize.Entry.{normalize_source_outcome}
use contract_kit.Normalize.Comparison.{
  IsPlain, terminate, lf, crlf, line_ends_forgotten, equal_lines_iff,
}

module _ (limits : MatchingLimits) (file : CatalogPath) where
  returned_Normal :
      IsBounded (source limits file)
      → (bytes : Bytes) (w w' : Work) (n : NormalizedSnippet)
      → normalize_source exact_lines_v1 bytes limits file w ≡ ok (n, w')
      → Normal bytes w n w'
  returned_Normal bounded bytes w w' n e =
      rw e at (normalize_source_outcome limits file bytes w bounded)

  -- Two source files that are normalized under limits below `u64::MAX` compare equal exactly when
  -- their canonical texts (each CRLF folded to LF, one line feed at the end dropped) are the same
  -- bytes.
  pub normalize_source-equal_lines :
      (x y : Bytes) (u u' v v' : Work) (n m : NormalizedSnippet)
      → IsBounded (source limits file)
      → normalize_source exact_lines_v1 x limits file u ≡ ok (n, u')
      → normalize_source exact_lines_v1 y limits file v ≡ ok (m, v')
      → (equal_lines n m ≡ true) ↔ (canonical x ≡ canonical y)
  normalize_source-equal_lines x y u u' v v' n m bounded ex ey =
      equal_lines_iff x y n m u u' v v' (returned_Normal bounded x u u' n ex)
        (returned_Normal bounded y v v' m ey)

  -- The same lines, free of CR and LF, compare equal when one file ends each of them in CRLF and
  -- the other in LF, if both are normalized under limits below `u64::MAX`.
  pub crlf-equals_lf :
      (l : Bytes) (ls : List Bytes) (u u' v v' : Work) (n m : NormalizedSnippet)
      → IsBounded (source limits file)
      → All IsPlain (l ∷ ls)
      → normalize_source exact_lines_v1 (terminate crlf (l ∷ ls)) limits file u ≡ ok (n, u')
      → normalize_source exact_lines_v1 (terminate lf (l ∷ ls)) limits file v ≡ ok (m, v')
      → equal_lines n m ≡ true
  crlf-equals_lf l ls u u' v v' n m bounded plain ex ey =
      (normalize_source-equal_lines (terminate crlf (l ∷ ls)) (terminate lf (l ∷ ls)) u u' v v' n m
          bounded ex ey).1
        (line_ends_forgotten l ls plain).0
