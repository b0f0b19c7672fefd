-- ===== src/Normalize/Reference.antt =====
-- What normalization means, with no budget and no loop: CRLF is folded to LF, one line feed at
-- the end is dropped, and the lines are the parts between the line feeds.
use contract_kit.Prelude.{
  ℕ, ◌≤◌, true, false, ◌&&◌, ◌≡◌, refl, sym, ap, inl, inr, List, [], ◌∷◌, ◌++◌, ◌==◌, if◌then◌else◌,
  Bool-cases, arith, length,
}
use contract_kit.Text.{split, onto_first}
use contract_kit.Normalize.{Bytes, is_nil}

unfoldable pub fold_crlf : Bytes → Bytes
fold_crlf [] = []
fold_crlf (b ∷ []) = b ∷ []
fold_crlf (b ∷ c ∷ rest) = elim (b == b'\r' && c == b'\n') [
  | true ↦ b'\n' ∷ fold_crlf rest
  | false ↦ b ∷ fold_crlf (c ∷ rest)
]

unfoldable pub drop_final_newline : Bytes → Bytes
drop_final_newline [] = []
drop_final_newline (b ∷ []) = if b == b'\n' then [] else b ∷ []
drop_final_newline (b ∷ c ∷ rest) = b ∷ drop_final_newline (c ∷ rest)

unfoldable pub canonical : Bytes → Bytes
unfolding fold_crlf drop_final_newline
canonical bytes = drop_final_newline (fold_crlf bytes)

unfoldable pub split_lines : Bytes → List Bytes
unfolding split
split_lines bytes = split b'\n' bytes

-- The empty text has no line.
abbrev pub count_lines : Bytes → ℕ
count_lines bytes = if is_nil bytes then 0 else length (split_lines bytes)

fold_crlf-cons : (b : ℕ) (rest : Bytes) → is_nil (fold_crlf (b ∷ rest)) ≡ false
unfolding fold_crlf
fold_crlf-cons b [] = refl
fold_crlf-cons b (c ∷ rest) = elim (Bool-cases (b == b'\r' && c == b'\n')) [
  | inl e ↦ ground arith
  | inr e ↦ ground arith
]

drop_final_newline-cons :
    (b : ℕ) (bytes : Bytes)
    → is_nil bytes ≡ false
    → drop_final_newline (b ∷ bytes) ≡ b ∷ drop_final_newline bytes
unfolding drop_final_newline
drop_final_newline-cons b [] h = ground arith
drop_final_newline-cons b (c ∷ rest) h = refl

-- What the loop does at the front of its input: at a CRLF, and at any other byte.
pub canonical_crlf_end : (b c : ℕ) → (b == b'\r' && c == b'\n') ≡ true → canonical (b ∷ c ∷ []) ≡ []
unfolding canonical
canonical_crlf_end b c h = rw (h, fold_crlf) refl

pub canonical_crlf :
    (b c d : ℕ) (rest : Bytes)
    → (b == b'\r' && c == b'\n') ≡ true
    → canonical (b ∷ c ∷ d ∷ rest) ≡ b'\n' ∷ canonical (d ∷ rest)
unfolding canonical
canonical_crlf b c d rest h =
    rw (h, fold_crlf) (drop_final_newline-cons b'\n' _ (fold_crlf-cons d rest))

pub canonical_byte :
    (b c : ℕ) (rest : Bytes)
    → (b == b'\r' && c == b'\n') ≡ false
    → canonical (b ∷ c ∷ rest) ≡ b ∷ canonical (c ∷ rest)
unfolding canonical
canonical_byte b c rest h = rw (h, fold_crlf) (drop_final_newline-cons b _ (fold_crlf-cons c rest))

-- The last line, one byte longer.
abbrev pub extend_last : ℕ → List Bytes → List Bytes
extend_last b [] = (b ∷ []) ∷ []
extend_last b (l ∷ []) = (l ++ b ∷ []) ∷ []
extend_last b (l ∷ m ∷ ls) = l ∷ extend_last b (m ∷ ls)

pub extend_last-concat :
    (b : ℕ) (ls : List Bytes) (l : Bytes) → extend_last b (ls ++ l ∷ []) ≡ ls ++ (l ++ b ∷ []) ∷ []
extend_last-concat b [] l = refl
extend_last-concat b (k ∷ []) l = refl
extend_last-concat b (k ∷ m ∷ ls) l = ap (◌∷◌ k) (extend_last-concat b (m ∷ ls) l)

pub split-ne-nil : (sep : ℕ) (t : Bytes) → (l : Bytes) × (ls : List Bytes) × (split sep t ≡ l ∷ ls)
unfolding split
split-ne-nil sep [] = ([], [], refl)
split-ne-nil sep (c ∷ cs) =
    let (l, ls, e) = split-ne-nil sep cs in
    elim (Bool-cases (c == sep)) [
      | inl h ↦ ([], split sep cs, rw h)
      | inr h ↦ (c ∷ l, ls, rw (h, e))
    ]

extend_last-onto_first :
    (b c : ℕ) (l : Bytes) (ls : List Bytes)
    → extend_last b (onto_first c (l ∷ ls)) ≡ onto_first c (extend_last b (l ∷ ls))
extend_last-onto_first b c l [] = refl
extend_last-onto_first b c l (m ∷ ls) = refl

extend_last-cons :
    (b : ℕ) (k : Bytes) (t : List Bytes) (l : Bytes) (ls : List Bytes)
    → t ≡ l ∷ ls
    → extend_last b (k ∷ t) ≡ k ∷ extend_last b t
extend_last-cons b k t l ls e = rw e refl

onto_first-append :
    (c : ℕ) (l : Bytes) (ls ms : List Bytes)
    → onto_first c ((l ∷ ls) ++ ms) ≡ onto_first c (l ∷ ls) ++ ms
onto_first-append c l ls ms = refl

-- One byte at the end of the text: a new empty line, or a longer last line.
pub split-concat_sep : (sep : ℕ) (t : Bytes) → split sep (t ++ sep ∷ []) ≡ split sep t ++ [] ∷ []
unfolding split
split-concat_sep sep [] = ground arith
split-concat_sep sep (c ∷ cs) = elim (Bool-cases (c == sep)) [
  | inl h ↦ rw (h, split-concat_sep sep cs)
  | inr h ↦
      let (l, ls, e) = split-ne-nil sep cs in
      rw (h, split-concat_sep sep cs, e, onto_first-append c l ls ([] ∷ []))
]

pub split-concat_byte :
    (sep b : ℕ) (t : Bytes)
    → (b == sep) ≡ false
    → split sep (t ++ b ∷ []) ≡ extend_last b (split sep t)
unfolding split
split-concat_byte sep b [] h = rw h
split-concat_byte sep b (c ∷ cs) h =
    let (l, ls, e) = split-ne-nil sep cs in
    elim (Bool-cases (c == sep)) [
      | inl k ↦ rw (k, split-concat_byte sep b cs h) (sym (extend_last-cons b [] _ l ls e))
      | inr k ↦ rw (k, split-concat_byte sep b cs h, e) (sym (extend_last-onto_first b c l ls))
    ]

length-onto_first :
    (c : ℕ) (l : Bytes) (ls : List Bytes) → length (onto_first c (l ∷ ls)) ≡ length (l ∷ ls)
length-onto_first c l ls = refl

pub split_pos : (sep : ℕ) (t : Bytes) → 1 ≤ length (split sep t)
split_pos sep t = let (l, ls, e) = split-ne-nil sep t in rw e (omega arith)

-- A longer text has no fewer lines.
pub split_mono : (sep : ℕ) (s t : Bytes) → length (split sep s) ≤ length (split sep (s ++ t))
unfolding split
split_mono sep [] t = split_pos sep t
split_mono sep (c ∷ cs) t =
    let (l, ls, e) = split-ne-nil sep cs in
    let (m, ms, f) = split-ne-nil sep (cs ++ t) in
    let ih = split_mono sep cs t in
    elim (Bool-cases (c == sep)) [
      | inl k ↦ rw k (omega (arith, ih))
      | inr k ↦ rw (k, e, f) (rw (e, f) at ih)
    ]

length-fold_crlf-le : (bytes : Bytes) → length (fold_crlf bytes) ≤ length bytes
unfolding fold_crlf
length-fold_crlf-le [] = omega arith
length-fold_crlf-le (b ∷ []) = omega arith
length-fold_crlf-le (b ∷ c ∷ rest) =
    ground (arith, length-fold_crlf-le rest, length-fold_crlf-le (c ∷ rest))

length-drop_final_newline-le : (bytes : Bytes) → length (drop_final_newline bytes) ≤ length bytes
unfolding drop_final_newline
length-drop_final_newline-le [] = omega arith
length-drop_final_newline-le (b ∷ []) = ground arith
length-drop_final_newline-le (b ∷ c ∷ rest) = omega (arith, length-drop_final_newline-le (c ∷ rest))

pub length-canonical-le : (bytes : Bytes) → length (canonical bytes) ≤ length bytes
unfolding canonical
length-canonical-le bytes =
    omega (arith, length-fold_crlf-le bytes, length-drop_final_newline-le (fold_crlf bytes))
