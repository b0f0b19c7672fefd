-- ===== src/Matching/Reference.antt =====
-- What the search is about, on the lines themselves: where a list of lines occurs in another.
use contract_kit.Prelude.{
  ℕ, zero, suc, ◌+◌, ◌≤◌, ◌<◌, Bool, true, false, not, ◌&&◌, ◌≡◌, refl, sym, ap, ◌∙◌, some, List,
  [], ◌∷◌, map, if◌then◌else◌, Bool-cases, inl, inr, arith, length, length-map, get_elem?, drop,
  take-length,
}
use contract_kit.Prelude.Order.{nat_ord, list_ord, ◌===◌}
use contract_kit.Normalize.{
  Bytes, Range, slice, slice_option, NormalizedSnippet, is_empty, line_count, line_at, lines,
  same_line,
}

unfoldable pub is_prefix : List Bytes → List Bytes → Bool
is_prefix [] ys = true
is_prefix (x ∷ xs) [] = false
is_prefix (x ∷ xs) (y ∷ ys) = x === y && is_prefix xs ys

abbrev pub no_lines : List Bytes → Bool
no_lines [] = true
no_lines (x ∷ xs) = false

-- The lines stand in the source from line `start` on. Nothing occurs if there is no line.
unfoldable pub occurs_at : List Bytes → List Bytes → ℕ → Bool
unfolding is_prefix
occurs_at expected source start = not (no_lines expected) && is_prefix expected (drop start source)

-- The starts of the occurrences among `rounds` lines from line `start` on.
unfoldable pub occurrences : List Bytes → List Bytes → ℕ → ℕ → List ℕ
unfolding occurs_at
occurrences expected source zero start = []
occurrences expected source (suc rounds) start =
    let rest = occurrences expected source rounds (start + 1) in
    if occurs_at expected source start then start ∷ rest else rest

-- All lines of a text, also of the empty one.
abbrev pub texts : NormalizedSnippet → List Bytes
texts n = map (slice n.bytes) n.lines

pub line_at-texts : (n : NormalizedSnippet) (i : ℕ) → line_at n i ≡ get_elem? (texts n) i
line_at-texts n i = go n.lines i
  where
    go :
        (rs : List Range) (i : ℕ)
        → slice_option n.bytes (get_elem? rs i) ≡ get_elem? (map (slice n.bytes) rs) i
    go [] i = refl
    go (r ∷ rs) zero = refl
    go (r ∷ rs) (suc i) = go rs i

pub lines-texts : (n : NormalizedSnippet) → is_empty n ≡ false → lines n ≡ texts n
lines-texts n h = rw h (ap (map (slice n.bytes)) (take-length n.lines))

pub length-lines : (n : NormalizedSnippet) → length (lines n) ≡ line_count n
length-lines n = elim (Bool-cases (is_empty n)) [
  | inl e ↦ rw e refl
  | inr e ↦ rw e (length-map (slice n.bytes) _ ∙ ap length (take-length n.lines))
]

pub line_count-is_empty : (n : NormalizedSnippet) → is_empty n ≡ true → line_count n ≡ 0
line_count-is_empty n e = rw e refl

pub line_count-texts :
    (n : NormalizedSnippet) → is_empty n ≡ false → line_count n ≡ length (texts n)
line_count-texts n e = rw e (sym (length-map (slice n.bytes) n.lines))

drop-get_elem? {ℓ} :
    {A : Type ℓ} (i : ℕ) (xs : List A)
    → i < length xs
    → (x : A) × (get_elem? xs i ≡ some x) × (drop i xs ≡ x ∷ drop (i + 1) xs)
drop-get_elem? i [] h = absurd (omega arith)
drop-get_elem? zero (x ∷ xs) h = (x, refl, ground arith)
drop-get_elem? (suc i) (x ∷ xs) h =
    let (y, e, f) = drop-get_elem? i xs (omega arith) in
    let next : suc i + 1 ≡ suc (i + 1) = omega arith in (y, e, rw next f)

drop-all {ℓ} : {A : Type ℓ} (i : ℕ) (xs : List A) → length xs ≤ i → drop i xs ≡ []
drop-all zero [] h = refl
drop-all zero (x ∷ xs) h = absurd (omega arith)
drop-all (suc i) [] h = refl
drop-all (suc i) (x ∷ xs) h = drop-all i xs (omega arith)

-- One round of the comparison, and its end.
pub is_prefix-drop :
    (i j : ℕ) (xs ys : List Bytes)
    → i < length xs
    → j < length ys
    → is_prefix (drop i xs) (drop j ys) ≡ (
        same_line (get_elem? xs i) (get_elem? ys j)
        && is_prefix (drop (i + 1) xs) (drop (j + 1) ys))
unfolding is_prefix
is_prefix-drop i j xs ys hi hj =
    let (x, ex, fx) = drop-get_elem? i xs hi in
    let (y, ey, fy) = drop-get_elem? j ys hj in rw (ex, ey, fx, fy) refl

pub is_prefix-end :
    (i j : ℕ) (xs ys : List Bytes) → length xs ≤ i → is_prefix (drop i xs) (drop j ys) ≡ true
unfolding is_prefix
is_prefix-end i j xs ys h = rw (drop-all i xs h)

-- An occurrence ends inside the source.
pub length-is_prefix : (xs ys : List Bytes) → is_prefix xs ys ≡ true → length xs ≤ length ys
unfolding is_prefix
length-is_prefix [] ys h = omega arith
length-is_prefix (x ∷ xs) [] h = ground arith
length-is_prefix (x ∷ xs) (y ∷ ys) h = ground (arith, length-is_prefix xs ys)
