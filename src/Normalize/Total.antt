-- ===== src/Normalize/Total.antt =====
-- The whole of `from_bytes`: what it returns, and which errors it can end with.
use contract_kit.Prelude.{
  ℕ, Bool, true, false, ◌&&◌, ◌≡◌, refl, sym, ap, ◌∙◌, inl, inr, [], ◌∷◌, ◌++◌, map, append-nil,
  append_assoc, ◌==◌, Bool-cases, arith,
}
use mathlib.Core.List.{map-append}
use contract_kit.Error.{LimitExceeded}
use contract_kit.Work.{Work, M, ◌>>=◌, pure, checkpoint}
use contract_kit.Work.Outcome.{
  Ensures, Ensures-bind, Ensures-weaken, Interrupted, Polled, Polled-refl, Polled-trans,
  checkpoint_outcome,
}
use contract_kit.Normalize.{
  Bytes, is_nil, slice, NormalizationBudget, Scan, broken, running, visit, scan_bytes, scan_start,
  close, from_bytes, NormalizedSnippet,
}
use contract_kit.Normalize.Reference.{
  canonical, canonical_crlf_end, canonical_crlf, canonical_byte, split_lines,
}
use contract_kit.Normalize.Scanning.{IsBounded, Overflows, Holds, Holds-start, slice_to_end}
use contract_kit.Normalize.Rounds.{
  Fails, Reaches, stopped, went_on, visit-newline_last, visit-store, Overflows-append,
}

canonical_nil : canonical [] ≡ []
unfolding canonical
canonical_nil = refl

canonical_newline : (b : ℕ) → (b == b'\n') ≡ true → canonical (b ∷ []) ≡ []
unfolding canonical
canonical_newline b e = rw e refl

canonical_other : (b : ℕ) → (b == b'\n') ≡ false → canonical (b ∷ []) ≡ b ∷ []
unfolding canonical
canonical_other b e = rw e refl

-- Testing a byte for a line feed away from the end of the input.
not_last : (t : Bool) → (t && false) ≡ false
not_last true = refl
not_last false = refl

and_last : (t : Bool) → t ≡ false → (t && true) ≡ false
and_last t h = ground arith

-- The two ways of a round that is not at the last byte.
module _ (budget : NormalizationBudget) (b c : ℕ) (rest : Bytes) (s : Scan) (w : Work) where
  scan_crlf :
      (b == b'\r' && c == b'\n') ≡ true
      → scan_bytes budget (b ∷ c ∷ rest) s w
        ≡ (visit budget b'\n' (is_nil rest) s >>= λ flow. elim flow [
          | broken t ↦ pure t
          | running t ↦ scan_bytes budget rest t
        ])
            w
  unfolding scan_bytes
  scan_crlf e = rw (e, scan_bytes) refl

  scan_byte :
      (b == b'\r' && c == b'\n') ≡ false
      → scan_bytes budget (b ∷ c ∷ rest) s w
        ≡ (visit budget b false s >>= λ flow. elim flow [
          | broken t ↦ pure t
          | running t ↦ scan_bytes budget (c ∷ rest) t
        ])
            w
  unfolding scan_bytes
  scan_byte e = rw (e, scan_bytes) refl

module _ (budget : NormalizationBudget) (bounded : IsBounded budget) (total : Bytes) where
  -- A budget that the stored text crosses is crossed by the whole.
  grows :
      (out rest : Bytes) (b : ℕ)
      → total ≡ out ++ b ∷ rest
      → (x : LimitExceeded) → Overflows budget (out ++ b ∷ []) x
      → Overflows budget total x
  grows out rest b e x h =
      let split_off : total ≡ (out ++ b ∷ []) ++ rest = e ∙ sym (append_assoc out (b ∷ []) rest) in
      rw split_off (Overflows-append budget (out ++ b ∷ []) rest x h)

  moved : (out rest : Bytes) (b : ℕ) → total ≡ out ++ b ∷ rest → total ≡ (out ++ b ∷ []) ++ rest
  moved out rest b e = e ∙ sym (append_assoc out (b ∷ []) rest)

  done : (out : Bytes) (s : Scan) → total ≡ out ++ [] → Holds budget out s → Holds budget total s
  done out s e h = rw (e ∙ append-nil out) h

  -- A byte that is stored away from the end, and the rounds behind it.
  stores :
      (out rest : Bytes) (b : ℕ) (s : Scan) (w : Work)
      → total ≡ out ++ b ∷ rest
      → Holds budget out s
      → (k : Scan → M Scan)
      → ((t : Scan) (w' : Work)
          → Holds budget (out ++ b ∷ []) t
          → Ensures (Fails budget total w') (Reaches budget bounded total w') (k t w'))
      → Ensures
          (Fails budget total w)
          (Reaches budget bounded total w)
          ((visit budget b false s >>= λ flow. elim flow [ broken t ↦ pure t | running t ↦ k t ]) w)
  stores out rest b s w e h k next =
      went_on budget bounded (out ++ b ∷ []) total w (visit budget b false s) k
        (visit-store budget bounded b false out s w total (not_last (b == b'\n')) h
          (grows out rest b e))
        next

  scan_outcome :
      (bytes out : Bytes) (s : Scan) (w : Work)
      → total ≡ out ++ canonical bytes
      → Holds budget out s
      → Ensures
          (Fails budget total w)
          (Reaches budget bounded total w)
          (scan_bytes budget bytes s w)
  unfolding scan_bytes
  scan_outcome [] out s w e h =
      unfold Reaches in (done out s (e ∙ ap (◌++◌ out) canonical_nil) h, Polled-refl w)
  scan_outcome (b ∷ []) out s w e h = elim (Bool-cases (b == b'\n')) [
    | inl nl ↦ stopped budget bounded total w (visit budget b true s) pure (
        visit-newline_last budget bounded b total s w total nl
          (done out s (e ∙ ap (◌++◌ out) (canonical_newline b nl)) h))
    | inr other ↦
        let e' : total ≡ out ++ b ∷ [] = e ∙ ap (◌++◌ out) (canonical_other b other) in
        went_on budget bounded (out ++ b ∷ []) total w (visit budget b true s) pure
          (visit-store budget bounded b true out s w total (and_last (b == b'\n') other) h
            (grows out [] b e'))
          (λ t w' holds. unfold Reaches in (rw e' holds, Polled-refl w'))
  ]
  scan_outcome (b ∷ c ∷ []) out s w e h = elim (Bool-cases (b == b'\r' && c == b'\n')) [
    | inl crlf ↦ rw (scan_crlf budget b c _ s w crlf) (
        stopped budget bounded total w (visit budget b'\n' true s) (scan_bytes budget []) (
          visit-newline_last budget bounded b'\n' total s w total refl
            (done out s (e ∙ ap (◌++◌ out) (canonical_crlf_end b c crlf)) h)))
    | inr byte ↦
        let e' : total ≡ out ++ b ∷ canonical (c ∷ []) =
          e ∙ ap (◌++◌ out) (canonical_byte b c [] byte) in
        let next = scan_outcome (c ∷ []) (out ++ b ∷ []) in
        rw (scan_byte budget b c [] s w byte) (
          stores out (canonical (c ∷ [])) b s w e' h (scan_bytes budget (c ∷ []))
            (λ t w'. next t w' (moved out _ b e')))
  ]
  scan_outcome (b ∷ c ∷ d ∷ rest) out s w e h = elim (Bool-cases (b == b'\r' && c == b'\n')) [
    | inl crlf ↦
        let e' : total ≡ out ++ b'\n' ∷ canonical (d ∷ rest) =
          e ∙ ap (◌++◌ out) (canonical_crlf b c d rest crlf) in
        let next = scan_outcome (d ∷ rest) (out ++ b'\n' ∷ []) in
        rw (scan_crlf budget b c _ s w crlf) (
          stores out (canonical (d ∷ rest)) b'\n' s w e' h (scan_bytes budget (d ∷ rest))
            (λ t w'. next t w' (moved out _ b'\n' e')))
    | inr byte ↦
        let e' : total ≡ out ++ b ∷ canonical (c ∷ d ∷ rest) =
          e ∙ ap (◌++◌ out) (canonical_byte b c (d ∷ rest) byte) in
        let next = scan_outcome (c ∷ d ∷ rest) (out ++ b ∷ []) in
        rw (scan_byte budget b c _ s w byte) (
          stores out (canonical (c ∷ d ∷ rest)) b s w e' h (scan_bytes budget (c ∷ d ∷ rest))
            (λ t w'. next t w' (moved out _ b e')))
  ]

-- What `from_bytes` promises of its result: the canonical text, ranges that cut out its lines, and
-- no change of the counters.
unfoldable pub Normal : Bytes → Work → NormalizedSnippet → Work → Type 0
Normal bytes w n w' =
    (n.bytes ≡ canonical bytes)
    × (map (slice n.bytes) n.lines ≡ split_lines (canonical bytes))
    × Polled w w'

-- A budget as the source takes it, and a text: the loop's result and its errors.
module _ (budget : NormalizationBudget) (bounded : IsBounded budget) where
  closed :
      (out : Bytes) (s : Scan)
      → Holds budget out s
      → ((close s).bytes ≡ out) × (map (slice (close s).bytes) (close s).lines ≡ split_lines out)
  closed out s h =
      (h.normalized_is, rw (h.normalized_is, map-append, slice_to_end out s.line_start) h.lines_are)

  finish :
      (bytes : Bytes) (w w' : Work) (s : Scan)
      → Reaches budget bounded (canonical bytes) w s w'
      → Ensures
          (Fails budget (canonical bytes) w)
          (Normal bytes w)
          ((checkpoint >>= λ _. pure (close s)) w')
  unfolding Reaches Normal
  finish bytes w w' s (h, p) =
      let (same, parts) = closed (canonical bytes) s h in
      Ensures-bind (Fails budget (canonical bytes) w) (λ _ v. Polled w' v) (Normal bytes w)
        checkpoint (λ _. pure (close s)) w'
        (Ensures-weaken (Interrupted w') (Fails budget (canonical bytes) w) (λ _ v. Polled w' v)
          (λ _ v. Polled w' v) (checkpoint w') (checkpoint_outcome w') (λ _ _ q. q)
          (λ e (c, i). inl (c, sym p.same_thread ∙ i)))
        (λ _ v q. (same, parts, Polled-trans w w' v p q))

  pub from_bytes_outcome :
      (bytes : Bytes) (w : Work)
      → Ensures (Fails budget (canonical bytes) w) (Normal bytes w) (from_bytes bytes budget w)
  unfolding from_bytes Normal
  from_bytes_outcome bytes w =
      let total = canonical bytes in
      Ensures-bind (Fails budget total w) (Reaches budget bounded total w) (Normal bytes w)
        (scan_bytes budget bytes scan_start) _ w
        (scan_outcome budget bounded total bytes [] scan_start w refl (Holds-start budget))
        (λ s w' reached. finish bytes w w' s reached)
