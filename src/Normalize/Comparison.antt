-- ===== src/Normalize/Comparison.antt =====
-- What normalization forgets: the spelling of the line ends, and the last of them. And what the
-- comparison of two normalized texts decides.
use contract_kit.Prelude.{
  ℕ, true, false, ◌≡◌, ◌≢◌, ◌↔◌, refl, sym, ap, ◌∙◌, List, [], ◌∷◌, ◌++◌, map, append-nil,
  append_assoc, ◌==◌, ==_iff, Bool-cases, inl, inr, arith, length, length-map, All,
}
use contract_kit.Prelude.Order.{nat_ord, list_ord, ===_iff}
use contract_kit.Text.{split, onto_first}
use contract_kit.Work.{Work}
use contract_kit.Normalize.{Bytes, slice, NormalizedSnippet, all_same, equal_lines}
use contract_kit.Normalize.Reference.{
  fold_crlf, drop_final_newline, canonical, split_lines, split-ne-nil,
}
use contract_kit.Normalize.Total.{Normal}

-- A line with neither a carriage return nor a line feed.
abbrev pub IsPlain : Bytes → Type 0
IsPlain = All (λ b. ((b == b'\r') ≡ false) × ((b == b'\n') ≡ false))

-- The lines, each with a line end behind it.
abbrev pub terminate : Bytes → List Bytes → Bytes
terminate eol [] = []
terminate eol (l ∷ ls) = l ++ (eol ++ terminate eol ls)

abbrev pub lf : Bytes
lf = b'\n' ∷ []

abbrev pub crlf : Bytes
crlf = b'\r' ∷ b'\n' ∷ []

-- The lines with a line feed between each two of them.
abbrev join : List Bytes → Bytes
join [] = []
join (l ∷ []) = l
join (l ∷ m ∷ ls) = l ++ (lf ++ join (m ∷ ls))

fold_crlf-byte :
    (b : ℕ) (rest : Bytes) → (b == b'\r') ≡ false → fold_crlf (b ∷ rest) ≡ b ∷ fold_crlf rest
unfolding fold_crlf
fold_crlf-byte b [] h = refl
fold_crlf-byte b (c ∷ rest) h = ground arith

fold_crlf-plain : (l rest : Bytes) → IsPlain l → fold_crlf (l ++ rest) ≡ l ++ fold_crlf rest
fold_crlf-plain [] rest h = refl
fold_crlf-plain (b ∷ l) rest h =
    fold_crlf-byte b (l ++ rest) h.0.0 ∙ ap (◌∷◌ b) (fold_crlf-plain l rest h.1)

fold_crlf-crlf : (rest : Bytes) → fold_crlf (crlf ++ rest) ≡ b'\n' ∷ fold_crlf rest
unfolding fold_crlf
fold_crlf-crlf rest = refl

fold-terminate-crlf :
    (ls : List Bytes) → All IsPlain ls → fold_crlf (terminate crlf ls) ≡ terminate lf ls
fold-terminate-crlf [] h = unfold fold_crlf in refl
fold-terminate-crlf (l ∷ ls) h =
    fold_crlf-plain l _ h.0
    ∙ ap (◌++◌ l) (fold_crlf-crlf (terminate crlf ls) ∙ ap (◌∷◌ b'\n') (fold-terminate-crlf ls h.1))

fold-terminate-lf :
    (ls : List Bytes) → All IsPlain ls → fold_crlf (terminate lf ls) ≡ terminate lf ls
fold-terminate-lf [] h = unfold fold_crlf in refl
fold-terminate-lf (l ∷ ls) h =
    fold_crlf-plain l _ h.0
    ∙ ap (◌++◌ l)
        (fold_crlf-byte b'\n' (terminate lf ls) refl ∙ ap (◌∷◌ b'\n') (fold-terminate-lf ls h.1))

fold-join : (ls : List Bytes) → All IsPlain ls → fold_crlf (join ls) ≡ join ls
fold-join [] h = unfold fold_crlf in refl
fold-join (l ∷ []) h =
    ap fold_crlf (sym (append-nil l)) ∙ fold_crlf-plain l [] h.0 ∙ unfold fold_crlf in append-nil l
fold-join (l ∷ m ∷ ls) h =
    fold_crlf-plain l _ h.0
    ∙ ap (◌++◌ l)
        (fold_crlf-byte b'\n' (join (m ∷ ls)) refl ∙ ap (◌∷◌ b'\n') (fold-join (m ∷ ls) h.1))

terminate-join : (l : Bytes) (ls : List Bytes) → terminate lf (l ∷ ls) ≡ join (l ∷ ls) ++ lf
terminate-join l [] = refl
terminate-join l (m ∷ ls) =
    ap (λ t. l ++ (lf ++ t)) (terminate-join m ls) ∙ sym (append_assoc l (b'\n' ∷ join (m ∷ ls)) lf)

drop_final_newline-concat : (t : Bytes) → drop_final_newline (t ++ lf) ≡ t
unfolding drop_final_newline
drop_final_newline-concat [] = refl
drop_final_newline-concat (b ∷ []) = refl
drop_final_newline-concat (b ∷ c ∷ t) = ap (◌∷◌ b) (drop_final_newline-concat (c ∷ t))

split-plain : (l : Bytes) → IsPlain l → split b'\n' l ≡ l ∷ []
unfolding split
split-plain [] h = refl
split-plain (b ∷ l) h = rw (h.0.1, split-plain l h.1)

split-plain_newline :
    (l rest : Bytes) → IsPlain l → split b'\n' (l ++ (b'\n' ∷ rest)) ≡ l ∷ split b'\n' rest
unfolding split
split-plain_newline [] rest h = refl
split-plain_newline (b ∷ l) rest h = rw (h.0.1, split-plain_newline l rest h.1)

split-join :
    (l : Bytes) (ls : List Bytes) → All IsPlain (l ∷ ls) → split_lines (join (l ∷ ls)) ≡ l ∷ ls
unfolding split_lines
split-join l [] h = split-plain l h.0
split-join l (m ∷ ls) h =
    split-plain_newline l (join (m ∷ ls)) h.0 ∙ ap (◌∷◌ l) (split-join m ls h.1)

-- Splitting a text and joining the parts gives the text back.
join-onto_first :
    (c : ℕ) (l : Bytes) (ls : List Bytes) → join (onto_first c (l ∷ ls)) ≡ c ∷ join (l ∷ ls)
join-onto_first c l [] = refl
join-onto_first c l (m ∷ ls) = refl

join-newline : (ls : List Bytes) → ls ≢ [] → join ([] ∷ ls) ≡ b'\n' ∷ join ls
join-newline [] h = absurd (h refl)
join-newline (l ∷ ls) h = refl

join-split : (t : Bytes) → join (split b'\n' t) ≡ t
unfolding split
join-split [] = refl
join-split (c ∷ cs) =
    let (l, ls, e) = split-ne-nil b'\n' cs in
    elim (Bool-cases (c == b'\n')) [
      | inl h ↦ rw h (
          join-newline (split b'\n' cs) (λ n. cc)
          ∙ ap (◌∷◌ b'\n') (join-split cs)
          ∙ ap (λ x. x ∷ cs) (sym ((==_iff c b'\n').0 h)))
      | inr h ↦ rw (h, e) (join-onto_first c l ls ∙ ap (◌∷◌ c) (ap join (sym e) ∙ join-split cs))
    ]

split_lines-injective : (s t : Bytes) → split_lines s ≡ split_lines t → s ≡ t
unfolding split_lines
split_lines-injective s t e = sym (join-split s) ∙ ap join e ∙ join-split t

all_same-eq : (as' bs : List Bytes) → length as' ≡ length bs → (all_same as' bs ≡ true) ↔ (as' ≡ bs)
all_same-eq [] [] h = (λ _. refl, λ _. refl)
all_same-eq [] (b ∷ bs) h = absurd (omega arith)
all_same-eq (a ∷ as') [] h = absurd (omega arith)
all_same-eq (a ∷ as') (b ∷ bs) h =
    let same = ===_iff a b in
    let rest = all_same-eq as' bs (omega arith) in
    (λ e. ground (arith, same.0, rest.0), λ e. ground (arith, same.1, rest.1))

canonical_terminated :
    (l : Bytes) (ls : List Bytes) (t : Bytes)
    → fold_crlf t ≡ terminate lf (l ∷ ls)
    → canonical t ≡ join (l ∷ ls)
unfolding canonical
canonical_terminated l ls t e =
    ap drop_final_newline (e ∙ terminate-join l ls) ∙ drop_final_newline-concat (join (l ∷ ls))

-- Two files whose lines are the same and free of CR and LF normalize to the same text, whether
-- each line ends in CRLF or in LF, and the lines of that text are those lines.
pub line_ends_forgotten :
    (l : Bytes) (ls : List Bytes)
    → All IsPlain (l ∷ ls)
    → (canonical (terminate crlf (l ∷ ls)) ≡ canonical (terminate lf (l ∷ ls)))
      × (split_lines (canonical (terminate crlf (l ∷ ls))) ≡ l ∷ ls)
line_ends_forgotten l ls h =
    let plain = canonical_terminated l ls _ (fold-terminate-lf (l ∷ ls) h) in
    let folded = canonical_terminated l ls _ (fold-terminate-crlf (l ∷ ls) h) in
    (folded ∙ sym plain, ap split_lines folded ∙ split-join l ls h)

uneven : (a b : ℕ) → (a == b) ≡ false → a ≢ b
uneven a b h = ground arith

-- `==` compares the numbers of the lines, and then the lines.
pub equal_lines_texts :
    (n m : NormalizedSnippet)
    → (equal_lines n m ≡ true) ↔ (map (slice n.bytes) n.lines ≡ map (slice m.bytes) m.lines)
unfolding equal_lines
equal_lines_texts n m =
    let texts = map (slice n.bytes) n.lines in
    let others = map (slice m.bytes) m.lines in
    let ln = length-map (slice n.bytes) n.lines in
    let lm = length-map (slice m.bytes) m.lines in
    elim (Bool-cases (length n.lines == length m.lines)) [
      | inl e ↦
          rw e (
            all_same-eq texts others (ln ∙ (==_iff (length n.lines) (length m.lines)).0 e ∙ sym lm))
      | inr e ↦ rw e (λ h. cc, λ h. absurd (omega (arith, ln, lm, ap length h, uneven _ _ e)))
    ]

-- Two normalized texts compare equal exactly when their canonical texts are the same bytes.
pub equal_lines_iff :
    (x y : Bytes) (n m : NormalizedSnippet) (u u' v v' : Work)
    → Normal x u n u'
    → Normal y v m v'
    → (equal_lines n m ≡ true) ↔ (canonical x ≡ canonical y)
unfolding Normal
equal_lines_iff x y n m u u' v v' (nb, nl, np) (mb, ml, mp) =
    let texts = equal_lines_texts n m in
    (
      λ e. split_lines-injective (canonical x) (canonical y) (sym nl ∙ texts.0 e ∙ ml),
      λ e. texts.1 (nl ∙ ap split_lines e ∙ sym ml),
    )
