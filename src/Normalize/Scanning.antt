-- ===== src/Normalize/Scanning.antt =====
-- The loop of `from_bytes`, one byte at a time: what its variables hold, and what a byte that
-- crosses a budget is refused with.
use contract_kit.Prelude.{
  ℕ, suc, ◌+◌, ◌-◌, ◌≤◌, ◌<◌, true, false, ◌≡◌, refl, sym, ap, ◌∙◌, ◌⊎◌, inl, inr, some, List, [],
  ◌∷◌, ◌++◌, map, ◌==◌, ==_iff, Bool-cases, arith, length, length-append, length-drop, take, drop,
  take-append_left, drop-append_left, drop-length, take-length, All, All-append, All-map, u64_max,
  saturating_add,
}
use mathlib.Core.List.{map-append}
use contract_kit.Prelude.Results
use contract_kit.Prelude.Results.{Result, ok, err}
use contract_kit.Error.{LimitExceeded}
use contract_kit.Normalize.{
  Bytes, is_nil, Range, slice, NormalizationBudget, Scan, scan_start, validate_bytes, validate_line,
  first_line, store_byte, push_byte,
}
use contract_kit.Normalize.Reference.{
  split_lines, count_lines, extend_last, extend_last-concat, split-concat_sep, split-concat_byte,
  split_pos,
}

-- A limit of `u64::MAX` switches a budget off.
pub record IsBounded (budget : NormalizationBudget) : Type 0 where
  pub bytes_bounded : budget.byte_limit < u64_max
  pub lines_bounded : budget.line_limit < u64_max

abbrev pub byte_error : NormalizationBudget → LimitExceeded
byte_error budget = record {
  resource = budget.byte_resource;
  limit = budget.byte_limit;
  observed_at_least = budget.byte_limit + 1;
  file = some budget.file;
}

abbrev pub line_error : NormalizationBudget → LimitExceeded
line_error budget = record {
  resource = budget.line_resource;
  limit = budget.line_limit;
  observed_at_least = budget.line_limit + 1;
  file = some budget.file;
}

-- The normalized text `total` is beyond a budget, which the error reports by one unit.
abbrev pub Overflows : NormalizationBudget → Bytes → LimitExceeded → Type 0
Overflows budget total e =
    (e ≡ byte_error budget) × (budget.byte_limit < length total)
    ⊎ (e ≡ line_error budget) × (budget.line_limit < count_lines total)

abbrev Fits : Bytes → Range → Type 0
Fits out r = (r.start ≤ r.end) × (r.end ≤ length out)

-- What the variables of the loop hold when `out` has been stored.
pub record Holds (budget : NormalizationBudget) (out : Bytes) (s : Scan) : Type 0 where
  pub normalized_is : s.normalized ≡ out
  pub lines_are : map (slice out) s.lines ++ drop s.line_start out ∷ [] ≡ split_lines out
  pub counted : s.line_count ≡ count_lines out
  pub start_fits : s.line_start ≤ length out
  pub ranges_fit : All (Fits out) s.lines
  pub bytes_fit : length out ≤ budget.byte_limit
  pub lines_fit : s.line_count ≤ budget.line_limit

pub Holds-start : (budget : NormalizationBudget) → Holds budget [] scan_start
unfolding split_lines
Holds-start budget = record {
  normalized_is = refl;
  lines_are = refl;
  counted = refl;
  start_fits = omega arith;
  ranges_fit = tt;
  bytes_fit = omega arith;
  lines_fit = omega arith;
}

slice-append : (out ys : Bytes) (r : Range) → Fits out r → slice (out ++ ys) r ≡ slice out r
slice-append out ys r h =
    ap (take (r.end - r.start)) (drop-append_left r.start out ys (omega arith))
    ∙ take-append_left (r.end - r.start) (drop r.start out) ys
        (omega (arith, length-drop r.start out))

slices-append :
    (out ys : Bytes) (rs : List Range)
    → All (Fits out) rs
    → map (slice (out ++ ys)) rs ≡ map (slice out) rs
slices-append out ys [] h = refl
slices-append out ys (r ∷ rs) h = rw (slice-append out ys r h.0, slices-append out ys rs h.1)

pub slice_to_end :
    (out : Bytes) (start : ℕ)
    → slice out (record { start = start; end = length out }) ≡ drop start out
slice_to_end out start =
    ap (λ n. take n (drop start out)) (sym (length-drop start out)) ∙ take-length (drop start out)

Fits-append : (out ys : Bytes) (rs : List Range) → All (Fits out) rs → All (Fits (out ++ ys)) rs
Fits-append out ys =
    All-map (Fits out) (Fits (out ++ ys)) (λ r h. omega (arith, length-append out ys))

is_nil-concat : (out : Bytes) (b : ℕ) → is_nil (out ++ b ∷ []) ≡ false
is_nil-concat [] b = refl
is_nil-concat (c ∷ cs) b = refl

length-extend_last :
    (b : ℕ) (ls : List Bytes) → 1 ≤ length ls → length (extend_last b ls) ≡ length ls
length-extend_last b [] h = absurd (omega arith)
length-extend_last b (l ∷ []) h = refl
length-extend_last b (l ∷ m ∷ ls) h = ap suc (length-extend_last b (m ∷ ls) (omega arith))

-- The counter behind `if line_count == 0`.
abbrev Started : NormalizationBudget → Bytes → Scan → Result LimitExceeded Scan → Type 0
Started budget out s (ok t) =
    (t ≡ record s { line_count = length (split_lines out) })
    × (length (split_lines out) ≤ budget.line_limit)
Started budget out s (err e) = (e ≡ line_error budget) × (budget.line_limit ≡ 0)

split_lines_pos : (out : Bytes) → 1 ≤ length (split_lines out)
unfolding split_lines
split_lines_pos out = split_pos b'\n' out

length-split_lines-nil : length (split_lines []) ≡ 1
unfolding split_lines
length-split_lines-nil = refl

first_line-Started :
    (budget : NormalizationBudget) (out : Bytes) (s : Scan)
    → IsBounded budget
    → Holds budget out s
    → Started budget out s (first_line budget s)
unfolding first_line
first_line-Started budget [] s bounded h = ground (arith, length-split_lines-nil)
first_line-Started budget (b ∷ out) s bounded h = ground (arith, split_lines_pos (b ∷ out))

split_lines-concat_newline :
    (out : Bytes) (b : ℕ)
    → (b == b'\n') ≡ true
    → split_lines (out ++ b ∷ []) ≡ split_lines out ++ [] ∷ []
unfolding split_lines
split_lines-concat_newline out b e = rw ((==_iff b b'\n').0 e) (split-concat_sep b'\n' out)

split_lines-concat_byte :
    (out : Bytes) (b : ℕ)
    → (b == b'\n') ≡ false
    → split_lines (out ++ b ∷ []) ≡ extend_last b (split_lines out)
unfolding split_lines
split_lines-concat_byte out b e = split-concat_byte b'\n' b out e

-- The state behind a byte, or the error of the budget that it crosses.
abbrev pub Pushed : NormalizationBudget → Bytes → Result LimitExceeded Scan → Type 0
Pushed budget out (ok t) = Holds budget out t
Pushed budget out (err e) = Overflows budget out e

-- A count that the budget admits, and the first one that it does not.
module _ (budget : NormalizationBudget) (bounded : IsBounded budget) (n : ℕ) where
  validate_line_within : n ≤ budget.line_limit → validate_line budget n ≡ ok tt
  unfolding validate_line
  validate_line_within h = ground arith

  validate_line_over : n ≡ budget.line_limit + 1 → validate_line budget n ≡ err (line_error budget)
  unfolding validate_line
  validate_line_over h = rw h (ground arith)

  validate_bytes_within : n ≤ budget.byte_limit → validate_bytes budget n ≡ ok tt
  unfolding validate_bytes
  validate_bytes_within h = ground arith

  validate_bytes_over :
      n ≡ budget.byte_limit + 1 → validate_bytes budget n ≡ err (byte_error budget)
  unfolding validate_bytes
  validate_bytes_over h = rw h (ground arith)

count_lines-concat :
    (out : Bytes) (b : ℕ) → count_lines (out ++ b ∷ []) ≡ length (split_lines (out ++ b ∷ []))
count_lines-concat out b = rw (is_nil-concat out b)

module _ (budget : NormalizationBudget) (out : Bytes) (b : ℕ) (s : Scan)
    (bounded : IsBounded budget) (h : Holds budget out s) (room : length out < budget.byte_limit)
    (started : length (split_lines out) ≤ budget.line_limit) where
  -- The variables behind `if line_count == 0`.
  abbrev one_line : Scan
  one_line = record s { line_count = length (split_lines out) }

  slices_kept : map (slice (out ++ b ∷ [])) s.lines ≡ map (slice out) s.lines
  slices_kept = slices-append out (b ∷ []) s.lines h.ranges_fit

  last_range : Fits (out ++ b ∷ []) (record { start = s.line_start; end = length s.normalized })
  last_range = rw h.normalized_is (omega (arith, h.start_fits, length-append out (b ∷ [])))

  last_slice :
      slice (out ++ b ∷ []) (record { start = s.line_start; end = length out })
      ≡ drop s.line_start out
  last_slice =
      slice-append out (b ∷ []) _ (h.start_fits, omega arith) ∙ slice_to_end out s.line_start

  newline_lines :
      (b == b'\n') ≡ true
      → map
            (slice (out ++ b ∷ []))
            (s.lines ++ (record { start = s.line_start; end = length s.normalized }) ∷ [])
          ++ drop (length (s.normalized ++ b ∷ [])) (out ++ b ∷ []) ∷ []
        ≡ split_lines (out ++ b ∷ [])
  newline_lines e = rw (
    h.normalized_is,
    drop-length (out ++ b ∷ []),
    split_lines-concat_newline out b e,
    ← h.lines_are,
    map-append,
    slices_kept,
    last_slice,
  )

  next_line :
      (b == b'\n') ≡ true → length (split_lines (out ++ b ∷ [])) ≡ length (split_lines out) + 1
  next_line e =
      ap length (split_lines-concat_newline out b e)
      ∙ length-append (split_lines out) ([] ∷ [])
      ∙ omega arith

  within_or_over :
      (n : ℕ) → n ≤ budget.line_limit → (n + 1 ≤ budget.line_limit) ⊎ (n ≡ budget.line_limit)
  within_or_over n le = omega arith

  store_newline : (b == b'\n') ≡ true → Pushed budget (out ++ b ∷ []) (store_byte budget b one_line)
  unfolding store_byte
  store_newline e =
      let one_more = next_line e in
      elim (within_or_over (length (split_lines out)) started) [
        | inl fits ↦
            rw
              (
                e,
                validate_line_within budget bounded (saturating_add (length (split_lines out)) 1)
                    (omega arith),
              )
              (record {
                normalized_is = rw h.normalized_is;
                lines_are = newline_lines e;
                counted = omega (arith, one_more, count_lines-concat out b);
                start_fits = rw h.normalized_is (omega arith);
                ranges_fit =
                    All-append (Fits (out ++ b ∷ [])) s.lines _
                      (Fits-append out (b ∷ []) s.lines h.ranges_fit) (last_range, tt);
                bytes_fit = omega (arith, room, length-append out (b ∷ []));
                lines_fit = omega arith;
              })
        | inr over ↦
            rw
              (
                e,
                validate_line_over budget bounded (saturating_add (length (split_lines out)) 1)
                    (omega arith),
              )
              (inr (refl, omega (arith, one_more, count_lines-concat out b)))
      ]

  store_other : (b == b'\n') ≡ false → Pushed budget (out ++ b ∷ []) (store_byte budget b one_line)
  unfolding store_byte
  store_other e = rw e (record {
    normalized_is = rw h.normalized_is;
    lines_are =
        rw
          (
            slices_kept,
            drop-append_left s.line_start out (b ∷ []) h.start_fits,
            split_lines-concat_byte out b e,
            ← h.lines_are,
          )
          (sym (extend_last-concat b (map (slice out) s.lines) (drop s.line_start out)));
    counted = sym (
        count_lines-concat out b
        ∙ ap length (split_lines-concat_byte out b e)
        ∙ length-extend_last b (split_lines out) (split_lines_pos out));
    start_fits = omega (arith, h.start_fits, length-append out (b ∷ []));
    ranges_fit = Fits-append out (b ∷ []) s.lines h.ranges_fit;
    bytes_fit = omega (arith, room, length-append out (b ∷ []));
    lines_fit = started;
  })

  stored : Pushed budget (out ++ b ∷ []) (store_byte budget b one_line)
  stored = elim (Bool-cases (b == b'\n')) [ inl e ↦ store_newline e | inr e ↦ store_other e ]

pub push_byte-Pushed :
    (budget : NormalizationBudget) (out : Bytes) (b : ℕ) (s : Scan)
    → IsBounded budget
    → Holds budget out s
    → Pushed budget (out ++ b ∷ []) (push_byte budget b s)
unfolding push_byte
push_byte-Pushed budget out b s bounded h =
    let len : length s.normalized ≡ length out = ap length h.normalized_is in
    elim (room_or_full (length out) budget.byte_limit h.bytes_fit) [
      | inl room ↦
          rw
            (validate_bytes_within budget bounded (saturating_add (length s.normalized) 1)
              (omega arith))
            (go room (first_line budget s) (first_line-Started budget out s bounded h))
      | inr full ↦
          rw
            (validate_bytes_over budget bounded (saturating_add (length s.normalized) 1)
              (omega arith))
            (inl (refl, omega (arith, full, length-append out (b ∷ []))))
    ]
  where
    room_or_full : (n k : ℕ) → n ≤ k → (n < k) ⊎ (n ≡ k)
    room_or_full n k le = omega arith

    go :
        length out < budget.byte_limit
        → (r : Result LimitExceeded Scan) → Started budget out s r
        → Pushed budget (out ++ b ∷ []) (Results.◌>>=◌ r (store_byte budget b))
    go room (ok t) (e, fits) = rw e (stored budget out b s bounded h room fits)
    go room (err e) (e', none) =
        inr (e', omega (arith, count_lines-concat out b, split_lines_pos (out ++ b ∷ [])))
