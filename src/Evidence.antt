-- ===== src/Evidence.antt =====
-- conkit-sketch/matcher.rs: the evidence of a diagnostic that did not match. It is measured
-- before it is written, so that the budget is charged first.
pub mod Measured
use contract_kit.Prelude.{
  ℕ, ◌+◌, ◌-◌, ◌/◌, ◌%◌, Bool, false, ◌&&◌, ◌||◌, Option, none, some, [], ◌∷◌, ◌++◌, min, ltb, leb,
  ◌==◌, if◌then◌else◌, length, take, saturating_add,
}
use contract_kit.Text.{Text}
use contract_kit.Limits.Words.{observed}
use contract_kit.Work.{M, ◌>>=◌, ◌>>◌, pure, checkpoint}
use contract_kit.Normalize.{Bytes, NormalizedSnippet, line_at}
use contract_kit.Inventory.{DiagnosticExcerpt, bytes, missing, MatchCandidate}
use contract_kit.Matching.{MatchCandidatePosition}

abbrev pub hex_digit : ℕ → ℕ
hex_digit n = if ltb n 10 then b'0' + n else b'a' + (n - 10)

-- `std::ascii::escape_default`.
unfoldable pub escape_default : ℕ → Text
escape_default b =
    if b == b'\t'
    then b'\\' ∷ b't' ∷ []
    else if b == b'\r'
    then b'\\' ∷ b'r' ∷ []
    else if b == b'\n'
    then b'\\' ∷ b'n' ∷ []
    else if b == 0x27 || b == 0x22 || b == b'\\'
    then b'\\' ∷ b ∷ []
    else if leb 0x20 b && leb b 0x7e
    then b ∷ []
    else b'\\' ∷ b'x' ∷ hex_digit (b / 16) ∷ hex_digit (b % 16) ∷ []

pub record DiagnosticExcerptEvidence : Type 0 where
  pub content : Option Bytes
  pub retained_bytes : ℕ
  pub escaped_bytes : ℕ
  pub additional_json_bytes : ℕ
  pub truncated : Bool

-- `DiagnosticExcerptEvidence::new`.
unfoldable pub new : Option Bytes → ℕ → DiagnosticExcerptEvidence
new none maximum = record {
  content = none;
  retained_bytes = 0;
  escaped_bytes = 0;
  additional_json_bytes = 0;
  truncated = false;
}
new (some line) maximum = record {
  content = some line;
  retained_bytes = min (length line) maximum;
  escaped_bytes = 0;
  additional_json_bytes = 0;
  truncated = ltb maximum (length line);
}

-- The two counters of `measure`.
pub record Measure : Type 0 where
  pub escaped : ℕ
  pub json_escapes : ℕ

-- `for escaped in escape_default(*byte)`.
unfoldable pub measure_escape : Text → Measure → Measure
measure_escape [] m = m
measure_escape (c ∷ cs) m = measure_escape cs (record {
  escaped = saturating_add m.escaped 1;
  json_escapes =
      if c == 0x22 || c == b'\\' then saturating_add m.json_escapes 1 else m.json_escapes;
})

-- The bytes in chunks of 64 KiB, with a checkpoint at the start of each chunk.
unfoldable pub measure_bytes : ℕ → Bytes → Measure → M Measure
unfolding measure_escape escape_default
measure_bytes index [] m = pure m
measure_bytes index (b ∷ rest) m = do
  if index % 65536 == 0 then checkpoint else pure tt
  measure_bytes (index + 1) rest (measure_escape (escape_default b) m)

abbrev pub measured : DiagnosticExcerptEvidence → Measure → DiagnosticExcerptEvidence
measured e m = record e {
  escaped_bytes = m.escaped;
  additional_json_bytes = saturating_add (observed m.escaped) m.json_escapes;
}

unfoldable pub measure_content :
    Option Bytes → DiagnosticExcerptEvidence → M DiagnosticExcerptEvidence
unfolding measure_bytes
measure_content none e = pure e
measure_content (some line) e = do
  m ← measure_bytes 0 (take e.retained_bytes line) (record { escaped = 0; json_escapes = 0 })
  pure (measured e m)

abbrev pub measure : DiagnosticExcerptEvidence → M DiagnosticExcerptEvidence
measure e = measure_content e.content e

unfoldable pub skeleton : DiagnosticExcerptEvidence → DiagnosticExcerpt
skeleton e = elim e.content [ some line ↦ bytes [] e.truncated | none ↦ missing ]

-- The text that `materialize` builds, chunk by chunk.
unfoldable pub escape_bytes : ℕ → Bytes → Text → M Text
unfolding escape_default
escape_bytes index [] escaped = pure escaped
escape_bytes index (b ∷ rest) escaped = do
  if index % 65536 == 0 then checkpoint else pure tt
  escape_bytes (index + 1) rest (escaped ++ escape_default b)

unfoldable pub materialize_content : Option Bytes → DiagnosticExcerptEvidence → M DiagnosticExcerpt
unfolding escape_bytes
materialize_content none e = pure missing
materialize_content (some line) e = do
  checkpoint
  escaped ← escape_bytes 0 (take e.retained_bytes line) []
  pure (bytes escaped e.truncated)

abbrev pub materialize : DiagnosticExcerptEvidence → M DiagnosticExcerpt
materialize e = materialize_content e.content e

pub record MatchCandidateEvidence : Type 0 where
  pub position : MatchCandidatePosition
  pub expected : DiagnosticExcerptEvidence
  pub actual : DiagnosticExcerptEvidence

-- `MatchCandidatePosition::evidence`.
unfoldable pub evidence :
    NormalizedSnippet → NormalizedSnippet → ℕ → MatchCandidatePosition → MatchCandidateEvidence
unfolding new
evidence expected source maximum position = record {
  position = position;
  expected = new (line_at expected position.first_difference) maximum;
  actual =
      new (line_at source (saturating_add position.source_start position.first_difference)) maximum;
}

-- A candidate at a position, around its two excerpts.
unfoldable pub candidate :
    MatchCandidatePosition → DiagnosticExcerpt → DiagnosticExcerpt → MatchCandidate
candidate position expected actual = record {
  source = record { start = saturating_add position.source_start 1; end = position.source_end };
  expected_line = saturating_add position.first_difference 1;
  source_line = saturating_add (saturating_add position.source_start position.first_difference) 1;
  expected = expected;
  actual = actual;
}

unfoldable pub measure_candidate : MatchCandidateEvidence → M MatchCandidateEvidence
unfolding measure_content
measure_candidate e = do
  expected ← measure e.expected
  actual ← measure e.actual
  pure (record e { expected = expected; actual = actual })

unfoldable pub candidate_skeleton : MatchCandidateEvidence → MatchCandidate
unfolding skeleton candidate
candidate_skeleton e = candidate e.position (skeleton e.expected) (skeleton e.actual)

abbrev pub candidate_bytes : MatchCandidateEvidence → ℕ
candidate_bytes e = saturating_add e.expected.additional_json_bytes e.actual.additional_json_bytes

unfoldable pub materialize_candidate : MatchCandidateEvidence → M MatchCandidate
unfolding materialize_content candidate
materialize_candidate e = do
  expected ← materialize e.expected
  actual ← materialize e.actual
  pure (candidate e.position expected actual)
