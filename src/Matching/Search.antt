-- ===== src/Matching/Search.antt =====
-- `evaluate`: the search over all starts, for both policies.
use contract_kit.Prelude.{
  ℕ, zero, suc, ◌+◌, ◌*◌, Bool, true, false, ◌≡◌, refl, sym, ap, ◌∙◌, List, [], ◌∷◌, ◌++◌, map,
  append-nil, append_assoc, if◌then◌else◌, arith, length, length-append, length-map, take, ltb, min,
}
use mathlib.Core.Path.{ap₂, subst}
use mathlib.Core.List.{map-append}
use contract_kit.Path.{CatalogPath}
use contract_kit.Limits.Matching.{MatchingLimits, record_occurrence_candidate}
use contract_kit.Work.{M, ◌>>◌, pure, counted}
use contract_kit.Normalize.{NormalizedSnippet, line_count, lines}
use contract_kit.Contract.{SketchOccurrence, at_least_one, exactly_one}
use contract_kit.Inventory.{SourceLineSpan}
use contract_kit.Matching.{
  MatchEvaluation, satisfied, missing, occurrence_mismatch, verdict, matches_at, evaluate_from,
  evaluate,
}
use contract_kit.Matching.Reference.{occurs_at, occurrences}
use contract_kit.Matching.Cost.{
  IsBounded, Runs, Runs-pure, Runs-bind, Runs-weaken, after_checkpoint, after_candidate,
}
use contract_kit.Matching.Window.{matches_at-Runs}

-- The lines of an occurrence, counted from 1.
abbrev pub span_at : ℕ → ℕ → SourceLineSpan
span_at height start = record { start = start + 1; end = start + height }

-- What a policy makes of the starts of all occurrences; `height` is the number of the snippet's
-- lines, and `maximum` the number of spans that are kept.
unfoldable pub judge : SketchOccurrence → ℕ → ℕ → List ℕ → MatchEvaluation
judge at_least_one height maximum [] = missing
judge at_least_one height maximum (i ∷ starts) = satisfied
judge exactly_one height maximum [] = missing
judge exactly_one height maximum (i ∷ []) = satisfied
judge exactly_one height maximum (i ∷ j ∷ starts) =
    occurrence_mismatch (length (i ∷ j ∷ starts))
      (take maximum (map (span_at height) (i ∷ j ∷ starts))) (ltb maximum (length (i ∷ j ∷ starts)))

length-take-le {ℓ} : {A : Type ℓ} (n : ℕ) (xs : List A) → length (take n xs) ≡ min n (length xs)
length-take-le zero xs = omega arith
length-take-le (suc n) [] = omega arith
length-take-le (suc n) (x ∷ xs) = omega (arith, length-take-le n xs)

-- One more span, if there is room.
take-concat {ℓ} :
    {A : Type ℓ} (n : ℕ) (xs : List A) (x : A)
    → take n (xs ++ x ∷ [])
      ≡ (if ltb (length (take n xs)) n then take n xs ++ x ∷ [] else take n xs)
take-concat zero xs x = refl
take-concat (suc zero) [] x = refl
take-concat (suc (suc n)) [] x = ground arith
take-concat (suc n) (y ∷ ys) x = ground (arith, take-concat n ys x)

take-nil {ℓ} : {A : Type ℓ} (n : ℕ) → take {A = A} n [] ≡ []
take-nil zero = refl
take-nil (suc n) = refl

ltb-min : (a m n : ℕ) → a ≡ min m n → ltb a n ≡ ltb m n
ltb-min a m n h = ground arith

-- The loop's counters, when `starts` are found.
verdict-judge :
    (height maximum : ℕ) (starts : List ℕ)
    → verdict (length starts) (take maximum (map (span_at height) starts))
      ≡ judge exactly_one height maximum starts
unfolding verdict judge
verdict-judge height maximum [] = refl
verdict-judge height maximum (i ∷ []) = refl
verdict-judge height maximum (i ∷ j ∷ starts) =
    let starts' : List ℕ = i ∷ j ∷ starts in
    let spans = map (span_at height) starts' in
    ap (occurrence_mismatch (length starts') (take maximum spans)) (
      ltb-min (length (take maximum spans)) maximum (length starts')
        (length-take-le maximum spans ∙ ap (min maximum) (length-map (span_at height) starts')))

module _ (limits : MatchingLimits) (expected source : NormalizedSnippet) (file : CatalogPath)
    (bounded : IsBounded limits) (maximum : ℕ) where
  -- The starts of the occurrences behind `start`, and the result from those in front of it.
  abbrev ahead : ℕ → ℕ → List ℕ
  ahead rounds start = occurrences (lines expected) (lines source) rounds start

  abbrev Judged : SketchOccurrence → List ℕ → MatchEvaluation → Type 0
  Judged policy starts r = r ≡ judge policy (line_count expected) maximum starts

  ahead-zero : (start : ℕ) → ahead zero start ≡ []
  unfolding occurrences
  ahead-zero start = refl

  ahead-miss :
      (rounds start : ℕ)
      → false ≡ occurs_at (lines expected) (lines source) start
      → ahead (suc rounds) start ≡ ahead rounds (start + 1)
  unfolding occurrences
  ahead-miss rounds start e = rw (← e)

  ahead-hit :
      (rounds start : ℕ)
      → true ≡ occurs_at (lines expected) (lines source) start
      → ahead (suc rounds) start ≡ start ∷ ahead rounds (start + 1)
  unfolding occurrences
  ahead-hit rounds start e = rw (← e)

  abbrev kept : List ℕ → List SourceLineSpan
  kept found = take maximum (map (span_at (line_count expected)) found)

  -- The two counters behind one more occurrence.
  kept-concat :
      (found : List ℕ) (start : ℕ)
      → (if ltb (length (kept found)) maximum
          then kept found ++ span_at (line_count expected) start ∷ []
          else kept found)
        ≡ kept (found ++ start ∷ [])
  kept-concat found start = sym (
      ap (take maximum) (map-append (span_at (line_count expected)) found (start ∷ []))
      ∙ take-concat maximum (map (span_at (line_count expected)) found) _)

  abbrev counting : ℕ → ℕ → List ℕ → M MatchEvaluation
  counting rounds start found =
      evaluate_from limits expected source file exactly_one maximum rounds start (length found)
        (kept found)

  abbrev Counts : ℕ → List ℕ → List ℕ → M MatchEvaluation → Type 0
  Counts rounds found rest =
      Runs limits file (rounds * line_count expected) (length rest)
        (Judged exactly_one (found ++ rest))

  counting-next :
      (rounds start : ℕ) (found : List ℕ)
      → evaluate_from limits expected source file exactly_one maximum rounds
          (start + 1)
          (length found + 1)
          (if ltb (length (kept found)) maximum
            then kept found ++ span_at (line_count expected) start ∷ []
            else kept found)
        ≡ counting rounds (start + 1) (found ++ start ∷ [])
  counting-next rounds start found =
      ap₂ (evaluate_from limits expected source file exactly_one maximum rounds (start + 1))
        (omega (arith, length-append found (start ∷ []))) (kept-concat found start)

  counted_or_not :
      (rounds start : ℕ) (found : List ℕ)
      → ((found' : List ℕ)
          → Counts rounds found' (ahead rounds (start + 1)) (counting rounds (start + 1) found'))
      → (b : Bool) → b ≡ occurs_at (lines expected) (lines source) start
      → Counts rounds found (ahead (suc rounds) start) (elim b [
        | false ↦ counting rounds (start + 1) found
        | true ↦
            counted (record_occurrence_candidate limits file)
            >> evaluate_from limits expected source file exactly_one maximum rounds
                (start + 1)
                (length found + 1)
                (if ltb (length (kept found)) maximum
                  then kept found ++ span_at (line_count expected) start ∷ []
                  else kept found)
      ])
  counted_or_not rounds start found ih false e = rw (ahead-miss rounds start e) (ih found)
  counted_or_not rounds start found ih true e =
      rw (ahead-hit rounds start e, counting-next rounds start found)
        (after_candidate limits file (rounds * line_count expected)
          (length (ahead rounds (start + 1)))
          (Judged exactly_one (found ++ start ∷ ahead rounds (start + 1)))
          (counting rounds (start + 1) (found ++ start ∷ []))
          (subst
            (λ xs.
              Runs limits file (rounds * line_count expected) (length (ahead rounds (start + 1)))
                (Judged exactly_one xs) (counting rounds (start + 1) (found ++ start ∷ [])))
            (append_assoc found (start ∷ []) (ahead rounds (start + 1))) (ih (found ++ start ∷ [])))
          bounded)

  exactly_one_Runs :
      (rounds start : ℕ) (found : List ℕ)
      → Counts rounds found (ahead rounds start) (counting rounds start found)
  unfolding evaluate_from
  exactly_one_Runs zero start found =
      Runs-weaken limits file 0 0 (zero * line_count expected) (length (ahead zero start))
        (Judged exactly_one (found ++ ahead zero start))
        (Judged exactly_one (found ++ ahead zero start))
        (pure (verdict (length found) (kept found))) (omega arith) (omega arith) (λ _ q. q)
        (Runs-pure limits file (Judged exactly_one (found ++ ahead zero start)) _ (
          verdict-judge (line_count expected) maximum found
          ∙ ap (judge exactly_one (line_count expected) maximum)
              (sym (ap (◌++◌ found) (ahead-zero start) ∙ append-nil found))))
  exactly_one_Runs (suc rounds) start found =
      let height = line_count expected in
      let rest = ahead (suc rounds) start in
      let Q = Judged exactly_one (found ++ rest) in
      after_checkpoint limits file (suc rounds * height) (length rest) Q _
        (Runs-weaken limits file (height + rounds * height) (0 + length rest) (suc rounds * height)
          (length rest) Q Q _ (omega arith) (omega arith) (λ _ q. q)
          (Runs-bind limits file height 0 (rounds * height) (length rest)
            (λ b. b ≡ occurs_at (lines expected) (lines source) start) Q
            (matches_at limits expected source file start) _
            (matches_at-Runs limits expected source file bounded start)
            (counted_or_not rounds start found (exactly_one_Runs rounds (start + 1)))))
        start

  -- The other policy stops at the first occurrence.
  First : ℕ → List ℕ → M MatchEvaluation → Type 0
  First rounds rest =
      Runs limits file (rounds * line_count expected) (length rest) (Judged at_least_one rest)

  found_or_not :
      (rounds start : ℕ)
      → First rounds
          (ahead rounds (start + 1))
          (evaluate_from limits expected source file at_least_one maximum rounds (start + 1) 0 [])
      → (b : Bool) → b ≡ occurs_at (lines expected) (lines source) start
      → First rounds (ahead (suc rounds) start) (elim b [
        | false ↦
            evaluate_from limits expected source file at_least_one maximum rounds (start + 1) 0 []
        | true ↦ counted (record_occurrence_candidate limits file) >> pure satisfied
      ])
  unfolding First
  found_or_not rounds start ih false e = rw (ahead-miss rounds start e) ih
  found_or_not rounds start ih true e = rw (ahead-hit rounds start e) (
      after_candidate limits file (rounds * line_count expected) (length (ahead rounds (start + 1)))
        (Judged at_least_one (start ∷ ahead rounds (start + 1))) (pure satisfied)
        (Runs-weaken limits file 0 0 (rounds * line_count expected)
          (length (ahead rounds (start + 1))) (λ r. r ≡ satisfied)
          (Judged at_least_one (start ∷ ahead rounds (start + 1))) (pure satisfied) (omega arith)
          (omega arith) (λ r p. unfold judge in p)
          (Runs-pure limits file (λ r. r ≡ satisfied) satisfied refl))
        bounded)

  at_least_one_Runs :
      (rounds start : ℕ)
      → First rounds
          (ahead rounds start)
          (evaluate_from limits expected source file at_least_one maximum rounds start 0 [])
  unfolding evaluate_from First
  at_least_one_Runs zero start = rw (ahead-zero start) (
      Runs-weaken limits file 0 0 (zero * line_count expected) 0 (λ r. r ≡ missing)
        (Judged at_least_one []) (pure (verdict 0 [])) (omega arith) (omega arith)
        (λ r p. unfold judge in p)
        (Runs-pure limits file (λ r. r ≡ missing) (verdict 0 []) (unfold verdict in refl)))
  at_least_one_Runs (suc rounds) start =
      let height = line_count expected in
      let rest = ahead (suc rounds) start in
      let Q = Judged at_least_one rest in
      after_checkpoint limits file (suc rounds * height) (length rest) Q _
        (Runs-weaken limits file (height + rounds * height) (0 + length rest) (suc rounds * height)
          (length rest) Q Q _ (omega arith) (omega arith) (λ _ q. q)
          (Runs-bind limits file height 0 (rounds * height) (length rest)
            (λ b. b ≡ occurs_at (lines expected) (lines source) start) Q
            (matches_at limits expected source file start) _
            (matches_at-Runs limits expected source file bounded start)
            (found_or_not rounds start (at_least_one_Runs rounds (start + 1)))))
        start

  -- From any counters within the budgets (both below `u64::MAX`), `evaluate` returns what its
  -- policy makes of the starts of all occurrences of the snippet's lines in the source: under
  -- `AtLeastOne` satisfied or missing, under `ExactlyOne` also a mismatch with the exact number of
  -- occurrences, their first spans up to the maximum, and whether any were left out. It charges at
  -- most one comparison for each pair of a start and a snippet line, and one candidate for each
  -- occurrence. Otherwise it ends in an error: cancellation, which some thread asked for, or a
  -- limit error for a budget that is less than these charges.
  pub evaluate-Runs :
      (policy : SketchOccurrence)
      → Runs limits file
          (line_count source * line_count expected)
          (length (occurrences (lines expected) (lines source) (line_count source) 0))
          (λ r.
            r
            ≡ judge policy
                (line_count expected)
                maximum
                (occurrences (lines expected) (lines source) (line_count source) 0))
          (evaluate limits expected source file policy maximum)
  unfolding evaluate
  evaluate-Runs at_least_one = unfold First in at_least_one_Runs (line_count source) 0
  evaluate-Runs exactly_one =
      subst
        (λ spans.
          Runs limits file (line_count source * line_count expected)
            (length (ahead (line_count source) 0))
            (Judged exactly_one (ahead (line_count source) 0))
            (evaluate_from limits expected source file exactly_one maximum (line_count source) 0 0
              spans))
        (take-nil maximum) (exactly_one_Runs (line_count source) 0 [])
