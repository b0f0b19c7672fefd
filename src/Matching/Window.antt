-- ===== src/Matching/Window.antt =====
-- `matches_at` decides whether the snippet's lines stand in the source from a line on.
use contract_kit.Prelude.{
  ℕ, zero, suc, ◌+◌, ◌≤◌, ◌<◌, Bool, true, false, ◌&&◌, ◌≡◌, refl, sym, ap, ◌∙◌, List, [], ◌∷◌,
  if◌then◌else◌, Bool-cases, inl, inr, arith, length, drop, length-drop,
}
use mathlib.Core.Path.{ap₂}
use contract_kit.Path.{CatalogPath}
use contract_kit.Limits.Matching.{MatchingLimits}
use contract_kit.Work.{pure}
use contract_kit.Normalize.{
  Bytes, NormalizedSnippet, is_empty, line_count, line_at, lines, same_line,
}
use contract_kit.Matching.{no_window, compare_window, matches_at}
use contract_kit.Matching.Reference.{
  is_prefix, occurs_at, texts, line_at-texts, lines-texts, length-lines, line_count-texts,
  line_count-is_empty, is_prefix-drop, is_prefix-end, length-is_prefix,
}
use contract_kit.Matching.Cost.{
  IsBounded, Runs, Runs-pure, Runs-weaken, after_checkpoint, after_comparison,
}

-- A window that does not fit holds no occurrence.
no_room :
    (xs ys : List Bytes) (start : ℕ)
    → no_window (length xs) (length ys) start ≡ true
    → occurs_at xs ys start ≡ false
unfolding occurs_at
no_room [] ys start h = refl
no_room (x ∷ xs) ys start h = elim (Bool-cases (is_prefix (x ∷ xs) (drop start ys))) [
  | inl e ↦
      absurd (ground (arith, length-is_prefix (x ∷ xs) (drop start ys) e, length-drop start ys))
  | inr e ↦ e
]

occurs_at-prefix :
    (xs ys : List Bytes) (start : ℕ)
    → 0 < length xs
    → occurs_at xs ys start ≡ is_prefix xs (drop start ys)
unfolding occurs_at
occurs_at-prefix [] ys start h = absurd (omega arith)
occurs_at-prefix (x ∷ xs) ys start h = refl

fits_window : (a b start : ℕ) → no_window a b start ≡ false → (0 < a) × (start + a ≤ b)
fits_window a b start h = ground arith

module _ (limits : MatchingLimits) (expected source : NormalizedSnippet) (file : CatalogPath)
    (bounded : IsBounded limits) where
  -- The rest of the snippet, against the source behind the lines that are compared already.
  abbrev RestMatches : ℕ → ℕ → Bool → Type 0
  RestMatches i start b = b ≡ is_prefix (drop i (texts expected)) (drop (start + i) (texts source))

  abbrev rest_of : ℕ → ℕ → Bool
  rest_of i start =
      is_prefix (drop (i + 1) (texts expected)) (drop (start + (i + 1)) (texts source))

  line_step :
      (i start : ℕ)
      → i < length (texts expected)
      → start + length (texts expected) ≤ length (texts source)
      → is_prefix (drop i (texts expected)) (drop (start + i) (texts source)) ≡ (
          same_line (line_at expected i) (line_at source (start + i))
          && is_prefix (drop (i + 1) (texts expected)) (drop (start + (i + 1)) (texts source)))
  line_step i start h fits =
      let next : start + (i + 1) ≡ start + i + 1 = omega arith in
      rw (next, line_at-texts expected i, line_at-texts source (start + i))
        (is_prefix-drop i (start + i) (texts expected) (texts source) h (omega arith))

  branch :
      (rounds i start : ℕ)
      → i < length (texts expected)
      → start + length (texts expected) ≤ length (texts source)
      → Runs limits file rounds 0
          (RestMatches (i + 1) start)
          (compare_window limits expected source file rounds (i + 1) start)
      → (b : Bool) → same_line (line_at expected i) (line_at source (start + i)) ≡ b
      → Runs limits file rounds 0 (RestMatches i start) (elim b [
        | true ↦ compare_window limits expected source file rounds (i + 1) start
        | false ↦ pure false
      ])
  branch rounds i start h fits rest true e =
      Runs-weaken limits file rounds 0 rounds 0 (RestMatches (i + 1) start) (RestMatches i start) _
        (omega arith) (omega arith)
        (λ x p. p ∙ sym (line_step i start h fits ∙ ap (λ t. t && rest_of i start) e)) rest
  branch rounds i start h fits rest false e =
      Runs-weaken limits file 0 0 rounds 0 (RestMatches i start) (RestMatches i start) (pure false)
        (omega arith) (omega arith) (λ x p. p)
        (Runs-pure limits file (RestMatches i start) false
          (sym (line_step i start h fits ∙ ap (λ t. t && rest_of i start) e)))

  compare_window-Runs :
      (rounds i start : ℕ)
      → i + rounds ≡ length (texts expected)
      → start + length (texts expected) ≤ length (texts source)
      → Runs limits file rounds 0
          (RestMatches i start)
          (compare_window limits expected source file rounds i start)
  unfolding compare_window
  compare_window-Runs zero i start e fits =
      Runs-pure limits file (RestMatches i start) true
        (sym (is_prefix-end i (start + i) (texts expected) (texts source) (omega arith)))
  compare_window-Runs (suc rounds) i start e fits =
      let rest = compare_window-Runs rounds (i + 1) start (omega arith) fits in
      after_checkpoint limits file (suc rounds) 0 (RestMatches i start) _
        (after_comparison limits file rounds 0 (RestMatches i start) _
          (branch rounds i start (omega arith) fits rest _ refl) bounded)
        i

  -- The result of `matches_at`.
  abbrev pub Occurs : ℕ → Bool → Type 0
  Occurs start b = b ≡ occurs_at (lines expected) (lines source) start

  no_window-false :
      (start : ℕ)
      → no_window (line_count expected) (line_count source) start ≡ true
      → Occurs start false
  no_window-false start h = sym (
      no_room (lines expected) (lines source) start
        (ap₂ (λ a b. no_window a b start) (length-lines expected) (length-lines source) ∙ h))

  -- A window that fits lies in a text that is not empty, and so does the snippet.
  not_empty :
      (start : ℕ)
      → no_window (line_count expected) (line_count source) start ≡ false
      → (is_empty expected ≡ false) × (is_empty source ≡ false)
  not_empty start h = (
    elim (Bool-cases (is_empty expected)) [
      | inl e ↦ absurd (
          omega (
            arith,
            (fits_window (line_count expected) (line_count source) start h).0,
            line_count-is_empty expected e,
          ))
      | inr e ↦ e
    ],
    elim (Bool-cases (is_empty source)) [
      | inl e ↦ absurd (
          omega (
            arith,
            fits_window (line_count expected) (line_count source) start h,
            line_count-is_empty source e,
          ))
      | inr e ↦ e
    ],
  )

  window_Occurs :
      (start : ℕ)
      → no_window (line_count expected) (line_count source) start ≡ false
      → (b : Bool) → RestMatches 0 start b
      → Occurs start b
  window_Occurs start h b e =
      let (full, present) = not_empty start h in
      let fits = fits_window (line_count expected) (line_count source) start h in
      let here : start + 0 ≡ start = omega arith in
      e
      ∙ ap (λ n. is_prefix (texts expected) (drop n (texts source))) here
      ∙ sym (
          occurs_at-prefix (texts expected) (texts source) start
            (omega (arith, fits.0, line_count-texts expected full)))
      ∙ ap₂ (λ xs ys. occurs_at xs ys start) (sym (lines-texts expected full))
          (sym (lines-texts source present))

  decided :
      (start : ℕ) (t : Bool)
      → no_window (line_count expected) (line_count source) start ≡ t
      → Runs limits file (line_count expected) 0 (Occurs start) (
          if t
          then pure false
          else compare_window limits expected source file (line_count expected) 0 start)
  decided start true h =
      Runs-weaken limits file 0 0 (line_count expected) 0 (Occurs start) (Occurs start) (pure false)
        (omega arith) (omega arith) (λ x p. p)
        (Runs-pure limits file (Occurs start) false (no_window-false start h))
  decided start false h =
      let (full, present) = not_empty start h in
      let fits = fits_window (line_count expected) (line_count source) start h in
      Runs-weaken limits file (line_count expected) 0 (line_count expected) 0 (RestMatches 0 start)
        (Occurs start) (compare_window limits expected source file (line_count expected) 0 start)
        (omega arith) (omega arith) (window_Occurs start h)
        (compare_window-Runs (line_count expected) 0 start
          (omega (arith, line_count-texts expected full))
          (omega (arith, fits.1, line_count-texts expected full, line_count-texts source present)))

  -- Within its budgets `matches_at` returns whether the snippet, unless it is empty, stands in the
  -- source from line `start` on, and compares at most as many lines as the snippet has.
  pub matches_at-Runs :
      (start : ℕ)
      → Runs limits file
          (line_count expected)
          0
          (Occurs start)
          (matches_at limits expected source file start)
  unfolding matches_at
  matches_at-Runs start =
      decided start (no_window (line_count expected) (line_count source) start) refl
