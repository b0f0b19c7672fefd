-- ===== src/Document/Stream.antt =====
-- conkit-sketch/contract/document.rs, `SketchDocumentStream`: the documents of a YAML stream are
-- counted, metered and checked for content before they are parsed. The parser's events, with the
-- lines that they start at, are given; so is the core suffix of a tag.
pub mod Grammar
pub mod Accepted
use contract_kit.Prelude.{
  ℕ, ◌+◌, Bool, true, false, not, ◌||◌, ◌&&◌, Option, none, some, List, [], ◌∷◌, ◌++◌, leb, ltb,
  ◌==◌, if◌then◌else◌, length, saturating_sub,
}
use contract_kit.Prelude.Order.{◌===◌, list_ord, nat_ord}
use contract_kit.Prelude.Results.{Result, ok, err}
use contract_kit.SortedMap.{is_some}
use contract_kit.Text.{Text, text}
use contract_kit.Path.{CatalogPath}
use contract_kit.Error.{
  Error, in_file, parse_failed, external, started_before_ending, unterminated_document,
  no_documents, empty_or_null_document, limit_error,
}
use contract_kit.Limits.Words.{observed}
use contract_kit.Limits.Yaml
use contract_kit.Limits.Yaml.{
  Tag, ScalarStyle, plain, other_style, Event, document_start, document_end, mapping_end,
  sequence_end, alias, nothing, stream_start, stream_end, comment, scalar, mapping_start,
  sequence_start, YamlBudget, RawYamlReport, RawYamlMeter, raw_meter, observe,
}
use contract_kit.Work.{M, ◌>>=◌, ◌>>◌, pure, lift, raise, limited, checkpoint, checkpoint_at}

-- What the YAML parser yields: an event and its line, or the text of an error.
abbrev pub Item : Type 0
Item = Result Text (Event × ℕ)

abbrev pub or_empty : Option Text → Text
or_empty none = []
or_empty (some t) = t

-- `eq_ignore_ascii_case`.
abbrev pub to_ascii_lowercase : Text → Text
to_ascii_lowercase [] = []
to_ascii_lowercase (c ∷ cs) =
    (if leb b'A' c && leb c b'Z' then c + 32 else c) ∷ to_ascii_lowercase cs

abbrev pub is_empty_text : Text → Bool
is_empty_text [] = true
is_empty_text (c ∷ cs) = false

abbrev pub is_null_value : Text → Bool
is_null_value value =
    is_empty_text value || value === text "~" || to_ascii_lowercase value === text "null"

-- `SketchDocumentStream`.
pub record DocumentStream : Type 0 where
  pub document_count : ℕ
  pub document_start_lines : List ℕ
  pub raw_report : RawYamlReport

-- The local variables of `inspect` beside the meter.
pub record Scan : Type 0 where
  pub document_count : ℕ
  pub document_start_lines : List ℕ
  pub document_has_data : Option Bool
  pub metadata_error : Option Error

abbrev pub no_scan : Scan
no_scan = record {
  document_count = 0;
  document_start_lines = [];
  document_has_data = none;
  metadata_error = none;
}

-- `if let Some(has_data) = document_has_data.as_mut() { *has_data = true; }`.
abbrev pub set_data : Option Bool → Option Bool
set_data none = none
set_data (some has_data) = some true

abbrev pub note_data : Scan → Scan
note_data s = record s { document_has_data = set_data s.document_has_data }

-- The arm of `DocumentStart`, by what `replace(false)` returns.
abbrev pub note_start : CatalogPath → ℕ → Option Bool → Scan → Scan
note_start path line none s = record s {
  document_has_data = some false;
  document_start_lines = s.document_start_lines ++ observed line ∷ [];
}
note_start path line (some has_data) s = record s {
  document_has_data = some false;
  metadata_error = some (parse_failed (in_file path) started_before_ending);
}

abbrev pub unwrap_or_false : Option Bool → Bool
unwrap_or_false none = false
unwrap_or_false (some b) = b

-- The arm of `DocumentEnd`.
abbrev pub note_end : CatalogPath → Bool → Scan → Scan
note_end path false s = record s {
  document_has_data = none;
  metadata_error = some (parse_failed (in_file path) (empty_or_null_document s.document_count));
}
note_end path true s = record s { document_has_data = none; document_count = s.document_count + 1 }

abbrev pub note_scalar : Bool → Scan → Scan
note_scalar true s = s
note_scalar false s = note_data s

-- `metadata_error.unwrap_or_else(..)`, where the parser fails.
abbrev pub first_error : Option Error → CatalogPath → Text → Error
first_error none path message = parse_failed (in_file path) (external message)
first_error (some e) path message = e

-- The checks behind the loop.
unfoldable pub check_end : CatalogPath → Scan → Option Error
check_end path s =
    if is_some s.metadata_error
    then s.metadata_error
    else if is_some s.document_has_data
    then some (parse_failed (in_file path) unterminated_document)
    else if s.document_count == 0
    then some (parse_failed (in_file path) no_documents)
    else none

abbrev pub raise_some : Option Error → M (Unit {0})
raise_some none = pure tt
raise_some (some e) = raise e

module _ (core_suffix : Tag → Option Text) where
  -- `tag.core_suffix() == Some("null")`.
  abbrev pub is_null_tag : Tag → Bool
  is_null_tag tag = is_some (core_suffix tag) && or_empty (core_suffix tag) === text "null"

  -- `SketchDocumentStream::is_null_scalar`.
  unfoldable pub is_null_scalar : Text → ScalarStyle → Option Tag → Bool
  is_null_scalar value other_style tag = false
  is_null_scalar value plain (some tag) = is_null_tag tag
  is_null_scalar value plain none = is_null_value value

  -- The `match` of the loop of `inspect`.
  unfoldable pub note : CatalogPath → Event → ℕ → Scan → Scan
  unfolding is_null_scalar
  note path document_start line s = note_start path line s.document_has_data s
  note path document_end line s = note_end path (unwrap_or_false s.document_has_data) s
  note path alias line s = note_data s
  note path (sequence_start tag) line s = note_data s
  note path (mapping_start tag) line s = note_data s
  note path (scalar value style tag) line s = note_scalar (is_null_scalar value style tag) s
  note path mapping_end line s = s
  note path sequence_end line s = s
  note path nothing line s = s
  note path stream_start line s = s
  note path stream_end line s = s
  note path comment line s = s

  -- `if metadata_error.is_some() { continue; }`.
  unfoldable pub note_unless_failed : CatalogPath → Event → ℕ → Scan → Scan
  unfolding note
  note_unless_failed path event line s =
      if is_some s.metadata_error then s else note path event line s

  -- The loop of `inspect`.
  unfoldable pub inspect_events :
      CatalogPath → ℕ → List Item → RawYamlMeter → Scan → M (RawYamlMeter × Scan)
  inspect_events path index [] meter s = pure (meter, s)
  inspect_events path index (err message ∷ rest) meter s = do
    checkpoint_at index
    raise (first_error s.metadata_error path message)
  inspect_events path index (ok (event, line) ∷ rest) meter s = do
    checkpoint_at index
    metered ← limited (observe event meter)
    inspect_events path (index + 1) rest metered (note_unless_failed path event line s)

  -- `SketchDocumentStream::inspect`, with the budget that it updates.
  unfoldable pub inspect : CatalogPath → List Item → YamlBudget → M (DocumentStream × YamlBudget)
  unfolding check_end
  inspect path items budget = do
    checkpoint
    (meter, s) ← inspect_events path 0 items (raw_meter budget path) no_scan
    raise_some (check_end path s)
    pure (
      record {
        document_count = s.document_count;
        document_start_lines = s.document_start_lines;
        raw_report = (Yaml.finish meter).0;
      },
      (Yaml.finish meter).1,
    )

-- `slice::partition_point`, on a slice that is partitioned.
abbrev pub partition_point : ℕ → List ℕ → ℕ
partition_point line [] = 0
partition_point line (start ∷ starts) =
    let rest = partition_point line starts in if leb start line then rest + 1 else 0

-- `SketchDocumentStream::document_index_for_error`, for the line of the error's location.
unfoldable pub document_index_for_error : DocumentStream → Option ℕ → ℕ
document_index_for_error stream none = 0
document_index_for_error stream (some line) =
    saturating_sub (partition_point line stream.document_start_lines) 1
