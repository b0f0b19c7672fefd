-- ===== src/Diff/Framing.antt =====
-- The framed encoding of the digests loses nothing: a length in front of each field.
use contract_kit.Prelude.{
  ℕ, zero, suc, ◌*◌, ◌/◌, ◌%◌, ◌≤◌, ◌<◌, ◌≡◌, refl, sym, ap, ◌∙◌, List, [], ◌∷◌, ◌++◌, arith,
  length, length-append, append-nil, append_assoc, All, u64_max,
}
use contract_kit.Prelude.Results.{ok}
use contract_kit.Work.{Work}
use contract_kit.Work.Outcome.{Polls}
use contract_kit.Normalize.{Bytes, NormalizedSnippet, line_count, lines}
use contract_kit.Diff.{
  SketchDigestEncoder, write_field, write_count, write_normalized, to_be_bytes, big_endian,
}
use contract_kit.Diff.Digest.{frames, code_frames, write_normalized-code_frames}

cons-cut : (x y : ℕ) (xs ys : Bytes) → x ∷ xs ≡ y ∷ ys → (x ≡ y) × (xs ≡ ys)
cons-cut x y xs ys e =
    (ap (λ l. elim l [ [] ↦ x | h ∷ t ↦ h ]) e, ap (λ l. elim l [ [] ↦ xs | h ∷ t ↦ t ]) e)

-- Two ways to cut a text after the same number of bytes.
append-cut : (a b c d : Bytes) → length a ≡ length b → a ++ c ≡ b ++ d → (a ≡ b) × (c ≡ d)
append-cut [] [] c d h e = (refl, e)
append-cut [] (y ∷ b) c d h e = absurd (omega arith)
append-cut (x ∷ a) [] c d h e = absurd (omega arith)
append-cut (x ∷ a) (y ∷ b) c d h e =
    let (hd, tl) = cons-cut x y (a ++ c) (b ++ d) e in
    let (same, rest) = append-cut a b c d (omega (arith, h)) tl in (rw (hd, same) refl, rest)

length-big_endian : (n value : ℕ) → length (big_endian n value) ≡ n
length-big_endian zero value = refl
length-big_endian (suc n) value = omega (
  arith,
  length-append (big_endian n (value / 256)) (value % 256 ∷ []),
  length-big_endian n (value / 256),
)

-- What `n` bytes can hold.
abbrev room : ℕ → ℕ
room zero = 1
room (suc n) = 256 * room n

big_endian-cut : (n a b : ℕ) → a < room n → b < room n → big_endian n a ≡ big_endian n b → a ≡ b
big_endian-cut zero a b ha hb e = omega arith
big_endian-cut (suc n) a b ha hb e =
    let (high, low) =
      append-cut (big_endian n (a / 256)) (big_endian n (b / 256)) (a % 256 ∷ []) (b % 256 ∷ [])
        (length-big_endian n (a / 256) ∙ sym (length-big_endian n (b / 256))) e in
    let same : a / 256 ≡ b / 256 =
      big_endian-cut n (a / 256) (b / 256) (omega arith) (omega arith) high in
    let rest : a % 256 ≡ b % 256 = (cons-cut (a % 256) (b % 256) [] [] low).0 in
    omega (arith, same, rest)

-- The fields behind each other, each behind its length.
abbrev pub framed : List Bytes → Bytes
framed [] = []
framed (x ∷ xs) = to_be_bytes (length x) ++ (x ++ framed xs)

-- The length of each field is a machine word.
abbrev pub AllWords : List Bytes → Type 0
AllWords fields = All (λ x. length x ≤ u64_max) fields

longer : (x y : Bytes) → length x ≡ 8 → [] ≡ x ++ y → ⊥
longer x y h e = omega (arith, h, length-append x y, ap length e)

framed-cut : (xs ys : List Bytes) → AllWords xs → AllWords ys → framed xs ≡ framed ys → xs ≡ ys
framed-cut [] [] hx hy e = refl
framed-cut [] (y ∷ ys) hx hy e =
    absurd (longer (to_be_bytes (length y)) (y ++ framed ys) (length-big_endian 8 (length y)) e)
framed-cut (x ∷ xs) [] hx hy e =
    absurd
      (longer (to_be_bytes (length x)) (x ++ framed xs) (length-big_endian 8 (length x)) (sym e))
framed-cut (x ∷ xs) (y ∷ ys) hx hy e =
    let (sizes, rest) =
      append-cut (to_be_bytes (length x)) (to_be_bytes (length y)) (x ++ framed xs) (y ++ framed ys)
        (length-big_endian 8 (length x) ∙ sym (length-big_endian 8 (length y))) e in
    let size : length x ≡ length y =
      big_endian-cut 8 (length x) (length y) (omega (arith, hx.0)) (omega (arith, hy.0)) sizes in
    let (same, later) = append-cut x y (framed xs) (framed ys) size rest in
    let tail : xs ≡ ys = framed-cut xs ys hx.1 hy.1 later in rw (same, tail) refl

frames-framed :
    (fields : List Bytes) (encoder : SketchDigestEncoder)
    → (frames fields encoder).written ≡ encoder.written ++ framed fields
unfolding write_field
frames-framed [] encoder = sym (append-nil encoder.written)
frames-framed (x ∷ xs) encoder =
    frames-framed xs (write_field x encoder)
    ∙ append_assoc (encoder.written ++ to_be_bytes (length x)) x (framed xs)
    ∙ append_assoc encoder.written (to_be_bytes (length x)) (x ++ framed xs)

prefix-cut : (a x y : Bytes) → a ++ x ≡ a ++ y → x ≡ y
prefix-cut a x y e = (append-cut a a x y refl e).1

count_fields :
    (n : NormalizedSnippet) (encoder : SketchDigestEncoder)
    → (code_frames n encoder).written
      ≡ encoder.written ++ framed (to_be_bytes (line_count n) ∷ lines n)
unfolding write_count
count_fields n encoder = frames-framed (to_be_bytes (line_count n) ∷ lines n) encoder

code_frames-cut :
    (a b : NormalizedSnippet) (encoder : SketchDigestEncoder)
    → AllWords (lines a)
    → AllWords (lines b)
    → code_frames a encoder ≡ code_frames b encoder
    → lines a ≡ lines b
code_frames-cut a b encoder ha hb e =
    let word : (n : NormalizedSnippet) → length (to_be_bytes (line_count n)) ≤ u64_max =
      λ n. omega (arith, length-big_endian 8 (line_count n)) in
    let same =
      prefix-cut encoder.written _ _
        (sym (count_fields a encoder) ∙ ap (λ e. e.written) e ∙ count_fields b encoder) in
    ap (λ l. elim l [ [] ↦ lines a | h ∷ t ↦ t ])
      (framed-cut (to_be_bytes (line_count a) ∷ lines a) (to_be_bytes (line_count b) ∷ lines b)
        (word a, ha) (word b, hb) same)

-- Two normalized codes whose lines are at most `u64::MAX` bytes long, and that leave the digest
-- encoder with the same bytes written, have the same lines: a difference in the code is always a
-- difference in what is hashed.
pub write_normalized-injective :
    (a b : NormalizedSnippet) (encoder x y : SketchDigestEncoder) (w u v : Work)
    → AllWords (lines a)
    → AllWords (lines b)
    → write_normalized a encoder w ≡ ok (x, u)
    → write_normalized b encoder w ≡ ok (y, v)
    → x.written ≡ y.written
    → lines a ≡ lines b
unfolding Polls
write_normalized-injective a b encoder x y w u v ha hb ea eb same =
    let first : x ≡ code_frames a encoder =
      (rw ea at (write_normalized-code_frames a encoder w)).0 in
    let second : y ≡ code_frames b encoder =
      (rw eb at (write_normalized-code_frames b encoder w)).0 in
    code_frames-cut a b encoder ha hb (sym first ∙ ap (λ l. record { written = l }) same ∙ second)
