-- ===== src/Matching/Nearest.antt =====
-- The nearest candidate: the earliest start with the most lines in common, and the first line
-- that differs there.
use contract_kit.Prelude.{
  List, [], ◌∷◌, ℕ, zero, suc, ◌+◌, ◌≤◌, ◌<◌, Bool, true, false, not, ◌||◌, ◌≡◌, refl, Option, none,
  some, if◌then◌else◌, arith, ltb, min, saturating_add, length, get_elem?, Bool-cases, inl, inr,
  ◌⊎◌,
}
use contract_kit.Path.{CatalogPath}
use contract_kit.Limits.Matching.{MatchingLimits, record_line_comparison}
use contract_kit.Work.{◌>>=◌, pure, counted, checkpoint_at}
use contract_kit.Work.Outcome.{Yields, Yields-bind, Yields-after, Yields-pure, Yields-weaken}
use contract_kit.SortedMap.{is_some}
use contract_kit.Normalize.{
  Range, slice_option, Bytes, NormalizedSnippet, is_empty, line_count, line_at, same_line,
}
use contract_kit.Matching.{
  MatchCandidatePosition, Best, best_start, keep_best, score_from, best_from, difference_from,
  position_at, best_candidate,
}

slice_option-is_some :
    (bytes : Bytes) (ranges : List Range) (i : ℕ)
    → i < length ranges
    → is_some (slice_option bytes (get_elem? ranges i)) ≡ true
slice_option-is_some bytes [] i h = absurd (omega arith)
slice_option-is_some bytes (r ∷ rs) zero h = refl
slice_option-is_some bytes (r ∷ rs) (suc i) h = slice_option-is_some bytes rs i (omega arith)

line_at-is_some : (n : NormalizedSnippet) (i : ℕ) → i < line_count n → is_some (line_at n i) ≡ true
line_at-is_some n i h =
    slice_option-is_some n.bytes n.lines i (below (is_empty n) (length n.lines) i h)
  where
    below : (b : Bool) (m i : ℕ) → i < (if b then 0 else m) → i < m
    below true m i h = absurd (omega arith)
    below false m i h = h

module _ (expected source : NormalizedSnippet) where
  -- Whether a snippet line equals the source line opposite to it.
  abbrev pub agrees : ℕ → ℕ → Bool
  agrees start i = same_line (line_at expected i) (line_at source (start + i))

  abbrev agreeing : ℕ → ℕ → ℕ → ℕ
  agreeing zero i start = 0
  agreeing (suc rounds) i start = (if agrees start i then 1 else 0) + agreeing rounds (i + 1) start

  -- The lines in common at a start.
  abbrev pub score_at : ℕ → ℕ
  score_at start = agreeing (line_count expected) 0 start

  -- Among the starts below `n`, the first of the highest score.
  pub record IsBest (n start score : ℕ) : Type 0 where
    pub in_range : start < n
    pub is_score : score ≡ score_at start
    pub highest : (i : ℕ) → i < n → score_at i ≤ score
    pub earliest : (i : ℕ) → i < start → score_at i < score

  abbrev Found : ℕ → Best → Type 0
  Found n b =
      (b.has_candidate ≡ false × (n ≡ 0))
      ⊎ (b.has_candidate ≡ true × IsBest n b.best_source_start b.best_score)

  last_or_less : (i n : ℕ) → i < n + 1 → (i ≡ n) ⊎ i < n
  last_or_less i n h = ground arith

  up_to :
      (n score best i : ℕ)
      → i < n + 1
      → score ≡ score_at n
      → score ≤ best
      → ((j : ℕ) → j < n → score_at j ≤ best)
      → score_at i ≤ best
  up_to n score best i h e le below = elim (last_or_less i n h) [
    | inl here ↦ let same : score_at i ≡ score = rw here (ground (arith, e)) in omega arith
    | inr less ↦ below i less
  ]

  keep_best-Found :
      (n score count : ℕ) (b : Best)
      → score ≡ score_at n
      → Found n b
      → Found (n + 1) (keep_best n score count b)
  unfolding keep_best
  keep_best-Found n score count b e (inl (new, start)) = rw new (
      inr (
        refl,
        record {
          in_range = omega arith;
          is_score = e;
          highest = λ i h. let here : i ≡ n = omega arith in rw (here, e) (omega arith);
          earliest = λ i h. absurd (omega arith);
        },
      ))
  keep_best-Found n score count b e (inr (old, best)) = elim (Bool-cases (ltb b.best_score score)) [
    | inl higher ↦
        let more : b.best_score < score = ground arith in
        rw (old, higher)
          (inr (
            refl,
            record {
              in_range = omega arith;
              is_score = e;
              highest = λ i h.
                  up_to n score score i h e (omega arith) (λ j k. omega (arith, best.highest j k));
              earliest = λ i h. omega (arith, best.highest i h);
            },
          ))
    | inr lower ↦
        let less : score ≤ b.best_score = ground arith in
        rw (old, lower)
          (inr (
            refl,
            record {
              in_range = omega (arith, best.in_range);
              is_score = best.is_score;
              highest = λ i h. up_to n score b.best_score i h e less best.highest;
              earliest = best.earliest;
            },
          ))
  ]

module _ (limits : MatchingLimits) (expected source : NormalizedSnippet) (file : CatalogPath) where
  score_from_yields :
      (rounds i start score count : ℕ)
      → Yields
          (λ r. r.0 ≡ score + agreeing expected source rounds i start)
          (score_from limits expected source file rounds i start score count)
  unfolding score_from
  score_from_yields zero i start score count =
      Yields-pure (λ r. r.0 ≡ score + 0) (score, count) (omega arith)
  score_from_yields (suc rounds) i start score count =
      let goal : ℕ × ℕ → Type 0 =
        λ r. r.0 ≡ score + agreeing expected source (suc rounds) i start in
      let next = if agrees expected source start i then score + 1 else score in
      Yields-after goal (checkpoint_at count) _ (λ _.
        Yields-after goal (counted (record_line_comparison limits file)) _ (λ _.
          Yields-weaken (λ r. r.0 ≡ next + agreeing expected source rounds (i + 1) start) goal _
            (score_from_yields rounds (i + 1) start next (saturating_add count 1))
            (λ r h. ground (arith, h))))

  best_from_yields :
      (rounds start : ℕ) (b : Best)
      → Found expected source start b
      → Yields
          (Found expected source (start + rounds))
          (best_from limits expected source file rounds start b)
  unfolding best_from
  best_from_yields zero start b h =
      let same : start + 0 ≡ start = omega arith in
      rw same (Yields-pure (Found expected source start) b h)
  best_from_yields (suc rounds) start b h =
      let goal = Found expected source (start + suc rounds) in
      let same : start + suc rounds ≡ start + 1 + rounds = omega arith in
      Yields-after goal (checkpoint_at start) _ (λ _.
        Yields-bind (λ r. r.0 ≡ 0 + score_at expected source start) goal
          (score_from limits expected source file (line_count expected) 0 start 0
            b.comparison_count)
          _ (score_from_yields (line_count expected) 0 start 0 b.comparison_count)
          (λ r e. rw same (
            best_from_yields rounds (start + 1) (keep_best start r.0 r.1 b)
              (keep_best-Found expected source start r.0 r.1 b (omega (arith, e)) h))))

  -- The lines from one index on agree up to another.
  abbrev pub AgreeUntil : ℕ → ℕ → ℕ → Type 0
  AgreeUntil start from until =
      (i : ℕ) → from ≤ i → i < until → agrees expected source start i ≡ true

  abbrev Difference : ℕ → ℕ → ℕ → Option ℕ → Type 0
  Difference rounds from start none = AgreeUntil start from (from + rounds)
  Difference rounds from start (some d) =
      d < from + rounds × agrees expected source start d ≡ false × AgreeUntil start from d

  one_more :
      (start from until : ℕ)
      → agrees expected source start from ≡ true
      → AgreeUntil start (from + 1) until
      → AgreeUntil start from until
  one_more start from until here later i h k = elim (first_or_later i from h) [
    | inl same ↦ rw same here
    | inr after ↦ later i after k
  ]
    where
      first_or_later : (i from : ℕ) → from ≤ i → (i ≡ from) ⊎ from + 1 ≤ i
      first_or_later i from h = ground arith

  Difference-step :
      (rounds from start : ℕ) (o : Option ℕ)
      → agrees expected source start from ≡ true
      → Difference rounds (from + 1) start o
      → Difference (suc rounds) from start o
  Difference-step rounds from start none here d =
      one_more start from (from + suc rounds) here (λ j a b. d j a (omega arith))
  Difference-step rounds from start (some x) here (d, differs, until) =
      (omega arith, differs, one_more start from x here until)

  difference_from_yields :
      (rounds from start : ℕ)
      → Yields
          (Difference rounds from start)
          (difference_from limits expected source file rounds from start)
  unfolding difference_from
  difference_from_yields zero from start =
      Yields-pure (Difference zero from start) none (λ i h k. absurd (omega arith))
  difference_from_yields (suc rounds) from start =
      Yields-after (Difference (suc rounds) from start) (checkpoint_at from) _ (λ _.
        elim (Bool-cases (agrees expected source start from)) [
          | inl here ↦ rw here (
              Yields-weaken (Difference rounds (from + 1) start)
                (Difference (suc rounds) from start) _
                (difference_from_yields rounds (from + 1) start)
                (λ o d. Difference-step rounds from start o here d))
          | inr differs ↦ rw differs (
              Yields-pure (Difference (suc rounds) from start) (some from)
                (omega arith, differs, λ i h k. absurd (omega arith)))
        ])

  -- The first start of the highest score, and the first line that differs there.
  pub record IsNearest (p : MatchCandidatePosition) : Type 0 where
    pub in_source : p.source_start < line_count source
    pub highest :
        (i : ℕ)
        → i < line_count source
        → score_at expected source i ≤ score_at expected source p.source_start
    pub earliest :
        (i : ℕ)
        → i < p.source_start
        → score_at expected source i < score_at expected source p.source_start
    pub source_end : p.source_end ≡ min (p.source_start + line_count expected) (line_count source)
    pub differs : agrees expected source p.source_start p.first_difference ≡ false
    pub first : AgreeUntil p.source_start 0 p.first_difference

  -- Without a position one of the texts is empty, or all lines agree at some start.
  abbrev pub Nearest : Option MatchCandidatePosition → Type 0
  Nearest none =
      (is_empty expected || is_empty source) ≡ true
      ⊎ line_count source ≡ 0
      ⊎ ((start : ℕ) × start < line_count source × AgreeUntil start 0 (line_count expected))
  Nearest (some p) = IsNearest p

  on_a_line :
      (line : Option Bytes) (p : MatchCandidatePosition)
      → is_some line ≡ true
      → IsNearest p
      → Nearest (elim line [ none ↦ none | some bytes ↦ some p ])
  on_a_line none p there h = absurd (ground (arith, there))
  on_a_line (some bytes) p there h = h

  position_at-Nearest :
      (start score : ℕ) (o : Option ℕ)
      → IsBest expected source (line_count source) start score
      → Difference (line_count expected) 0 start o
      → Nearest (position_at limits expected source file start o)
  unfolding position_at
  position_at-Nearest start score none best d =
      inr (inr (start, best.in_range, λ i h k. d i h (omega arith)))
  position_at-Nearest start score (some x) best (d, differs, until) =
      on_a_line (line_at expected x)
        (record {
          source_start = start;
          source_end = min (start + line_count expected) (line_count source);
          first_difference = x;
        })
        (line_at-is_some expected x (omega arith))
        (record {
          in_source = best.in_range;
          highest = λ i h. omega (arith, best.highest i h, best.is_score);
          earliest = λ i h. omega (arith, best.earliest i h, best.is_score);
          source_end = refl;
          differs = differs;
          first = until;
        })

  pub best_candidate-Nearest : Yields Nearest (best_candidate limits expected source file)
  unfolding best_candidate
  best_candidate-Nearest = elim (Bool-cases (is_empty expected || is_empty source)) [
    | inl empty ↦ rw empty (Yields-pure Nearest none (inl empty))
    | inr filled ↦ rw filled (
        Yields-bind (Found expected source (0 + line_count source)) Nearest
          (best_from limits expected source file (line_count source) 0 best_start) _
          (best_from_yields (line_count source) 0 best_start (inl (refl, refl))) found)
  ]
    where
      found :
          (b : Best)
          → Found expected source (0 + line_count source) b
          → Yields Nearest (
              if not b.has_candidate then pure none else do
                difference ←
                    difference_from limits expected source file
                      (line_count expected)
                      0
                      b.best_source_start
                pure (position_at limits expected source file b.best_source_start difference))
      found b (inl (new, start)) =
          rw new (Yields-pure Nearest none (inr (inl (omega (arith, start)))))
      found b (inr (old, best)) = rw old (
          Yields-bind (Difference (line_count expected) 0 b.best_source_start) Nearest
            (difference_from limits expected source file (line_count expected) 0
              b.best_source_start)
            _ (difference_from_yields (line_count expected) 0 b.best_source_start)
            (λ o d.
              Yields-pure Nearest (position_at limits expected source file b.best_source_start o) (
                position_at-Nearest b.best_source_start b.best_score o
                  (let same : 0 + line_count source ≡ line_count source = omega arith in
                    rw same at best)
                  d)))
