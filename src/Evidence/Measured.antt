-- ===== src/Evidence/Measured.antt =====
-- What is measured is what is written afterwards.
use contract_kit.Prelude.{
  ℕ, ◌+◌, ◌≤◌, ◌%◌, ◌||◌, ◌≡◌, refl, sym, ap, ◌∙◌, some, [], ◌∷◌, ◌++◌, append-nil, append_assoc,
  ltb, ◌==◌, if◌then◌else◌, arith, length, length-append, take, min, u64_max, saturating_add,
  Bool-cases, inl, inr,
}
use contract_kit.Text.{Text}
use contract_kit.Work.{Work, M, ◌>>=◌, pure, checkpoint}
use contract_kit.Work.Outcome.{
  Ensures, Interrupted, Polled, Polls, Polls-pure, Polls-bind, Polls-weaken, checkpoint-Polls,
}
use contract_kit.Normalize.{Bytes}
use contract_kit.Inventory.{DiagnosticExcerpt, bytes}
use contract_kit.Evidence.{
  escape_default, DiagnosticExcerptEvidence, new, Measure, measure_escape, measure_bytes, measured,
  measure_content, measure, escape_bytes, materialize_content, materialize,
}

-- The escaped text of some bytes.
abbrev pub escapes : Bytes → Text
escapes [] = []
escapes (b ∷ bs) = escape_default b ++ escapes bs

-- The characters that a JSON string escapes once more.
abbrev pub quotes : Text → ℕ
quotes [] = 0
quotes (c ∷ cs) = (if c == 0x22 || c == b'\\' then 1 else 0) + quotes cs

quotes-append : (s t : Text) → quotes (s ++ t) ≡ quotes s + quotes t
quotes-append [] t = omega arith
quotes-append (c ∷ s) t = omega (arith, quotes-append s t)

-- A measure grows by a text.
record Grows (t : Text) (m m' : Measure) : Type 0 where
  pub escaped : m'.escaped ≡ m.escaped + length t
  pub json_escapes : m'.json_escapes ≡ m.json_escapes + quotes t

-- There is room for a text in the counters.
record Room (t : Text) (m : Measure) : Type 0 where
  pub escaped : m.escaped + length t ≤ u64_max
  pub json_escapes : m.json_escapes + quotes t ≤ u64_max

measure_escape-Grows : (t : Text) (m : Measure) → Room t m → Grows t m (measure_escape t m)
unfolding measure_escape
measure_escape-Grows [] m r = record { escaped = omega arith; json_escapes = omega arith }
measure_escape-Grows (c ∷ cs) m r =
    let a = r.escaped in
    let b = r.json_escapes in
    let next : Measure = record {
      escaped = saturating_add m.escaped 1;
      json_escapes =
          if c == 0x22 || c == b'\\' then saturating_add m.json_escapes 1 else m.json_escapes;
    } in
    let counted : next.json_escapes ≡ m.json_escapes + (if c == 0x22 || c == b'\\' then 1 else 0) =
      ground arith in
    let g =
      measure_escape-Grows cs next
        (record { escaped = omega arith; json_escapes = omega (arith, counted) }) in
    record {
      escaped = omega (arith, g.escaped);
      json_escapes = omega (arith, g.json_escapes, counted);
    }

chunk_Polls :
    (index : ℕ) → Polls (λ _. Unit {0}) (if index % 65536 == 0 then checkpoint else pure tt)
chunk_Polls index = elim (Bool-cases (index % 65536 == 0)) [
  | inl start ↦ rw start checkpoint-Polls
  | inr inside ↦ rw inside (Polls-pure (λ (_ : Unit {0}). Unit {0}) tt tt)
]

measure_bytes-Grows :
    (index : ℕ) (bs : Bytes) (m : Measure)
    → Room (escapes bs) m
    → Polls (Grows (escapes bs) m) (measure_bytes index bs m)
unfolding measure_bytes
measure_bytes-Grows index [] m r =
    Polls-pure (Grows [] m) m (record { escaped = omega arith; json_escapes = omega arith })
measure_bytes-Grows index (b ∷ bs) m r =
    let e = escape_default b in
    let lengths = length-append e (escapes bs) in
    let counts = quotes-append e (escapes bs) in
    let g = measure_escape-Grows e m (record {
      escaped = omega (arith, r.escaped, lengths);
      json_escapes = omega (arith, r.json_escapes, counts);
    }) in
    Polls-bind (λ _. Unit {0}) (Grows (e ++ escapes bs) m)
      (if index % 65536 == 0 then checkpoint else pure tt) _ (chunk_Polls index)
      (λ _ _.
        Polls-weaken (Grows (escapes bs) (measure_escape e m)) (Grows (e ++ escapes bs) m) _
          (measure_bytes-Grows (index + 1) bs (measure_escape e m) (record {
            escaped = omega (arith, r.escaped, lengths, g.escaped);
            json_escapes = omega (arith, r.json_escapes, counts, g.json_escapes);
          }))
          (λ m' h. record {
            escaped = omega (arith, h.escaped, g.escaped, lengths);
            json_escapes = omega (arith, h.json_escapes, g.json_escapes, counts);
          }))

escape_bytes-escapes :
    (index : ℕ) (bs : Bytes) (before : Text)
    → Polls (λ t. t ≡ before ++ escapes bs) (escape_bytes index bs before)
unfolding escape_bytes
escape_bytes-escapes index [] before =
    Polls-pure (λ t. t ≡ before ++ []) before (sym (append-nil before))
escape_bytes-escapes index (b ∷ bs) before =
    Polls-bind (λ _. Unit {0}) (λ t. t ≡ before ++ (escape_default b ++ escapes bs))
      (if index % 65536 == 0 then checkpoint else pure tt) _ (chunk_Polls index)
      (λ _ _.
        Polls-weaken (λ t. t ≡ before ++ escape_default b ++ escapes bs)
          (λ t. t ≡ before ++ (escape_default b ++ escapes bs)) _
          (escape_bytes-escapes (index + 1) bs (before ++ escape_default b))
          (λ t h. h ∙ append_assoc before (escape_default b) (escapes bs)))

-- The measured evidence, and the excerpt that is written from it.
abbrev pub measure_and_write :
    DiagnosticExcerptEvidence → M (DiagnosticExcerptEvidence × DiagnosticExcerpt)
measure_and_write e = do sized ← measure e; excerpt ← materialize sized; pure (sized, excerpt)

-- The excerpt is the escaped prefix, and the sizes are its sizes.
abbrev pub Exact : Bytes → ℕ → DiagnosticExcerptEvidence × DiagnosticExcerpt → Type 0
Exact line maximum r =
    let escaped = escapes (take (min (length line) maximum) line) in
    (r.1 ≡ bytes escaped (ltb maximum (length line)))
    × (r.0.escaped_bytes ≡ length escaped)
    × (r.0.additional_json_bytes ≡ length escaped + quotes escaped)

measure_and_write-Exact :
    (line : Bytes) (maximum : ℕ)
    → length (escapes (take (min (length line) maximum) line))
        + quotes (escapes (take (min (length line) maximum) line))
      ≤ u64_max
    → Polls (Exact line maximum) (measure_and_write (new (some line) maximum))
unfolding measure_content materialize_content new
measure_and_write-Exact line maximum room =
    let e = new (some line) maximum in
    let kept = take (min (length line) maximum) line in
    let zero_measure : Measure = record { escaped = 0; json_escapes = 0 } in
    let Sized : DiagnosticExcerptEvidence → Type 0 =
      λ s. (m : Measure) × (s ≡ measured e m) × Grows (escapes kept) zero_measure m in
    Polls-bind Sized (Exact line maximum) (measure e) _
      (Polls-bind (Grows (escapes kept) zero_measure) Sized (measure_bytes 0 kept zero_measure) _
        (measure_bytes-Grows 0 kept zero_measure
          (record { escaped = omega (arith, room); json_escapes = omega (arith, room) }))
        (λ m g. Polls-pure Sized (measured e m) (m, refl, g)))
      (λ s (m, same, g). rw same (
        Polls-bind (λ x. x ≡ bytes (escapes kept) (ltb maximum (length line))) (Exact line maximum)
          (materialize (measured e m)) _
          (Polls-bind (λ _. Unit {0}) (λ x. x ≡ bytes (escapes kept) (ltb maximum (length line)))
            checkpoint _ checkpoint-Polls
            (λ _ _.
              Polls-bind (λ t. t ≡ escapes kept)
                (λ x. x ≡ bytes (escapes kept) (ltb maximum (length line))) (escape_bytes 0 kept [])
                _ (escape_bytes-escapes 0 kept [])
                (λ t h.
                  Polls-pure (λ x. x ≡ bytes (escapes kept) (ltb maximum (length line)))
                    (bytes t (ltb maximum (length line)))
                    (ap (λ t. bytes t (ltb maximum (length line))) h))))
          (λ x h.
            Polls-pure (Exact line maximum) (measured e m, x)
              (h, omega (arith, g.escaped), ground (arith, g.escaped, g.json_escapes, room)))))

-- Unless another thread cancels, measuring the evidence of a line and then writing it returns the
-- escaped text of the line's first bytes up to the maximum, marked as truncated exactly when the
-- line is longer, and the measured sizes are the size of that text and its size within a JSON
-- string, if the latter is at most `u64::MAX`.
pub measure-materialize :
    (line : Bytes) (maximum : ℕ) (w : Work)
    → length (escapes (take (min (length line) maximum) line))
        + quotes (escapes (take (min (length line) maximum) line))
      ≤ u64_max
    → Ensures
        (Interrupted w)
        (λ r w'.
          ((r.1
              ≡ bytes (escapes (take (min (length line) maximum) line)) (ltb maximum (length line)))
            × (r.0.escaped_bytes ≡ length (escapes (take (min (length line) maximum) line)))
            × (r.0.additional_json_bytes
                ≡ length (escapes (take (min (length line) maximum) line))
                  + quotes (escapes (take (min (length line) maximum) line))))
          × Polled w w')
        (measure_and_write (new (some line) maximum) w)
unfolding Polls
measure-materialize line maximum w room = measure_and_write-Exact line maximum room w
