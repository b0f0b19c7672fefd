-- ===== src/Tests/Documents.antt =====
-- A stream of events, the contract files of a catalog, and a diff of two catalogs, for a YAML library
-- that always reads one document.
use contract_kit.Prelude.{refl, Option, none, some, List, [], ◌∷◌, arith}
use contract_kit.Prelude.Order.{cmp_list}
use contract_kit.Prelude.Results.{ok}
use contract_kit.SortedMap.{get, insert, remove}
use contract_kit.SortedMap.Contents.{Entries}
use contract_kit.Text.{Text, text, trim, byte_len, find_control, contains, split}
use contract_kit.Path
use contract_kit.Path.{CatalogPath}
use contract_kit.Limits.{charge}
use contract_kit.Limits.Yaml
use contract_kit.Limits.Yaml.{
  document_start, document_end, mapping_start, mapping_end, YamlBudget, observe, charge_meter,
  open_container, tag_bytes, record_replay_report, finish,
}
use contract_kit.Limits.Matching.{
  validate, validate_sketch_count, validate_signature_index_entry_count,
}
use contract_kit.Limits.Output
use contract_kit.Limits.Generated
use contract_kit.Catalog
use contract_kit.Catalog.{FileCatalog, record_catalog, record_files, record_file, insert_file}
use contract_kit.Work.{checkpoint_at, checkpoint, is_cancelled}
use contract_kit.Normalize.{
  normalize_snippet, from_bytes, scan_bytes, visit, push_byte, store_byte, first_line,
  validate_line, validate_bytes, equal_lines,
}
use contract_kit.Contract.{new_id, new_label, new_type, new_snippet}
use contract_kit.Document.{
  SketchYamlDocumentInput, signature_from_entry, signatures_from_entries, document_from_input,
  documents_from_inputs,
}
use contract_kit.Document.Stream.{
  Item, DocumentStream, inspect, inspect_events, note_unless_failed, note, check_end,
}
use contract_kit.Document.Stream.Accepted.{Accepts, inspect-Accepts}
use contract_kit.Document.Parsing.{
  YamlLibrary, ContractDocuments, from_catalog, sort_files, parse_file, parse_inspected,
  has_extension, is_contract_file,
}
use contract_kit.Document.Parsing.Parsed.{Fits}
use contract_kit.Document.Parsing.Sorted.{IsSortedInto, from_catalog-sorted}
use contract_kit.Resolve.{
  contract_files, linked_id, index_signature, declare_sketch, collect_signatures, collect_sketches,
  collect_documents, collect_files, check_link, link_sketch, link_sketches, refuse_remaining,
  document_count, resolve, validate_root,
}
use contract_kit.Diff.{
  DiffResponse, diff_against, merge, push_changed, changed_fields, contract_digest, write_contracts,
  write_semantics, write_normalized, write_lines, write_count, write_field, new_encoder,
}
use contract_kit.Api.{SketchLimits, DiffRequest, contracts_of, run_diff}
use contract_kit.Api.Diffing.{Answers, run_diff-Answers}
use contract_kit.Tests.{limits, idle, no_hash}
use contract_kit.Tests.Resolving.{document_x}
use contract_kit.Tests.Yaml.{fresh, default_bounded}

abbrev items : List Item
items =
    ok (document_start, 1)
    ∷ ok (mapping_start none, 1)
    ∷ ok (mapping_end, 1)
    ∷ ok (document_end, 2)
    ∷ []

abbrev no_suffix : Yaml.Tag → Option Text
no_suffix tag = none

abbrev path : CatalogPath
path = record { value = text "a.yaml" }

abbrev stream : DocumentStream
stream = record {
  document_count = 1;
  document_start_lines = 1 ∷ [];
  raw_report = record {
    documents = 1;
    nodes = 1;
    aliases = 0;
    max_depth = 1;
    total_scalar_bytes = 0;
  };
}

abbrev metered : YamlBudget
metered = record fresh { documents = 1; nodes = 1 }

inspect-Accepts_example : Accepts no_suffix path items fresh stream metered
unfolding inspect inspect_events note_unless_failed note check_end observe charge_meter
    open_container tag_bytes charge finish checkpoint_at checkpoint is_cancelled
inspect-Accepts_example =
    inspect-Accepts no_suffix path items fresh metered stream idle idle default_bounded
      (omega arith) (omega arith) (omega arith) (omega arith) refl

abbrev input_x : SketchYamlDocumentInput
input_x = record {
  contract_version = some 2;
  root = text "src";
  files = text "src/lib.rs" ∷ [];
  extraction = some tt;
  signatures =
      ((
        text "f",
        record { file = text "src/lib.rs"; signature_type = text "fn"; sketch = some (text "x") },
      )
        ∷ [])
      ∷ [];
  sketches = document_x.sketches;
}

abbrev library : YamlLibrary
library = record {
  from_utf8 = λ bytes. ok bytes;
  events = λ source. items;
  core_suffix = no_suffix;
  from_multiple = λ source budget alias_limits. ok (input_x ∷ []);
  budget_report = λ source budget alias_limits. some (record { nodes = 1; total_scalar_bytes = 0 });
}

abbrev fresh_fits : Fits fresh
fresh_fits = record {
  bounded = default_bounded;
  documents_fit = omega arith;
  nodes_fit = omega arith;
  aliases_fit = omega arith;
  bytes_fit = omega arith;
}

-- A contract file and a note.
abbrev catalog_x : FileCatalog
catalog_x = record { files = (path, b'a' ∷ []) ∷ (record { value = text "b.txt" }, b'b' ∷ []) ∷ [] }

abbrev read_x : ContractDocuments
read_x = record {
  files =
      (
        path,
        record {
          catalog_name = path;
          original_bytes = b'a' ∷ [];
          documents = record { index = 0; semantic = document_x } ∷ [];
        },
      )
      ∷ [];
  passthrough = record { files = (record { value = text "b.txt" }, b'b' ∷ []) ∷ [] };
}

from_catalog-sorted_example :
    Entries (λ p bytes. IsSortedInto library read_x (is_contract_file p) p bytes) catalog_x.files
    × Fits metered
unfolding from_catalog sort_files parse_file parse_inspected has_extension is_contract_file contains
    split insert_file get insert cmp_list inspect inspect_events note_unless_failed note check_end
    observe charge_meter open_container tag_bytes charge finish record_replay_report
    documents_from_inputs document_from_input signatures_from_entries signature_from_entry
    checkpoint_at checkpoint is_cancelled
from_catalog-sorted_example =
    from_catalog-sorted library catalog_x fresh metered read_x idle idle ((refl, tt), (tt, tt))
      fresh_fits refl

abbrev all_limits : SketchLimits
all_limits = record {
  catalog = Catalog.default;
  yaml = Yaml.default;
  matching = limits;
  diagnostics = Output.default;
  output = Generated.default;
}

abbrev request : DiffRequest
request = record { current_contract_files = catalog_x; previous_contract_files = catalog_x }

abbrev unchanged : DiffResponse
unchanged = record { contract_digest = []; digest_version = 2; entries = [] }

run_diff-Answers_example : Answers library all_limits no_hash request unchanged
unfolding run_diff contracts_of record_catalog record_files record_file from_catalog sort_files
    parse_file parse_inspected has_extension is_contract_file contains split insert_file get insert
    remove cmp_list inspect inspect_events note_unless_failed note check_end observe charge_meter
    open_container tag_bytes charge finish record_replay_report documents_from_inputs
    document_from_input signatures_from_entries signature_from_entry checkpoint_at checkpoint
    is_cancelled resolve collect_files collect_documents collect_signatures collect_sketches
    contract_files index_signature declare_sketch linked_id validate_root check_link link_sketch
    link_sketches refuse_remaining document_count new_id new_label new_type new_snippet
    normalize_snippet from_bytes scan_bytes visit push_byte store_byte first_line validate_line
    validate_bytes validate validate_sketch_count validate_signature_index_entry_count trim byte_len
    find_control Path.new diff_against merge push_changed changed_fields contract_digest
    write_contracts write_semantics write_normalized write_lines write_count write_field new_encoder
    equal_lines
run_diff-Answers_example =
    run_diff-Answers library all_limits no_hash request idle idle unchanged ((refl, tt), (tt, tt))
      ((refl, tt), (tt, tt)) default_bounded refl
