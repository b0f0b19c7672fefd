-- ===== src/Tests/Resolving.antt =====
-- The resolution of one document, and a refresh of its sketch.
use contract_kit.Prelude.{◌≡◌, ◌↔◌, refl, some, [], ◌∷◌}
use contract_kit.Prelude.Order.{cmp_list}
use contract_kit.SortedMap.{SortedMap, get, insert, remove}
use contract_kit.Text.{text, trim, byte_len, find_control}
use contract_kit.Path
use contract_kit.Path.{CatalogPath}
use contract_kit.Limits.Matching.{
  validate, validate_sketch_count, validate_signature_index_entry_count,
}
use contract_kit.Work.{checkpoint_at, checkpoint, is_cancelled}
use contract_kit.Normalize.{
  exact_lines_v1, normalize_snippet, from_bytes, scan_bytes, visit, push_byte, store_byte,
  first_line, validate_line, validate_bytes,
}
use contract_kit.Contract.{
  at_least_one, new_id, new_label, new_type, new_snippet, find_id, validate_seed, SketchSeed,
}
use contract_kit.Document.{SketchSemanticDocument, SketchContractFile}
use contract_kit.Prelude.Results.{ok}
use contract_kit.Resolve.Agreement.{check_link_iff}
use contract_kit.Resolve.{
  SketchDeclaration, SignatureLink, from_link, contract_files, linked_id, index_signature,
  declare_sketch, collect_signatures, collect_sketches, collect_documents, collect_files,
  check_link, link_sketch, link_sketches, refuse_remaining, document_count, resolve, validate_root,
}
use contract_kit.Resolve.Linking.{Resolves, resolve-Resolves}
use contract_kit.Generate.{
  full_refresh, SketchRefreshSeeds, refresh_seeds, add_seeds, new_code, validate_full_coverage,
}
use contract_kit.Generate.Coverage.{Refreshes, refresh_seeds-Refreshes}
use contract_kit.Tests.{file, limits, idle, one_line, contract, contracts}

abbrev pub document_x : SketchSemanticDocument
document_x = record {
  root = text "src";
  files = text "src/lib.rs" ∷ [];
  signatures =
      record {
        label = text "f";
        file = text "src/lib.rs";
        signature_type = text "fn";
        sketch = some (text "x");
      }
      ∷ [];
  sketches =
      record {
        id = text "x";
        file = text "src/lib.rs";
        signature = text "f";
        signature_type = text "fn";
        matching = record { normalization = exact_lines_v1; occurrence = at_least_one };
        code = text "a";
      }
      ∷ [];
}

abbrev files_x : SortedMap CatalogPath SketchContractFile
files_x =
    (
      record { value = text "a.yaml" },
      record {
        catalog_name = record { value = text "a.yaml" };
        original_bytes = [];
        documents = record { index = 0; semantic = document_x } ∷ [];
      },
    )
    ∷ []

resolve-Resolves_example : Resolves limits files_x (contracts (contract (text "x") one_line ∷ []))
unfolding resolve collect_files collect_documents collect_signatures collect_sketches contract_files
    index_signature declare_sketch linked_id validate_root check_link link_sketch link_sketches
    refuse_remaining document_count new_id new_label new_type new_snippet normalize_snippet
    from_bytes scan_bytes visit push_byte store_byte first_line validate_line validate_bytes
    validate validate_sketch_count validate_signature_index_entry_count checkpoint_at checkpoint
    is_cancelled cmp_list get insert remove trim byte_len find_control Path.new
resolve-Resolves_example =
    resolve-Resolves files_x limits idle idle (contracts (contract (text "x") one_line ∷ [])) refl

abbrev seed_x : SketchSeed
seed_x = record {
  contract_file = record { value = text "a.yaml" };
  document_index = 0;
  sketch_id = text "x";
  signature_type = text "fn";
  file = file;
  code = b'b' ∷ [];
}

abbrev refresh_x : SketchRefreshSeeds
refresh_x = record {
  entries = (record { value = text "x" }, record { value = b'b' ∷ [] }) ∷ [];
  target_files = (record { value = text "a.yaml" }, tt) ∷ [];
}

refresh_seeds-Refreshes_example :
    Refreshes
      (contracts (contract (text "x") one_line ∷ []))
      limits
      (seed_x ∷ [])
      full_refresh
      refresh_x
unfolding refresh_seeds add_seeds new_code validate_full_coverage validate_seed find_id new_id
    normalize_snippet from_bytes scan_bytes visit push_byte store_byte first_line validate_line
    validate_bytes validate validate_sketch_count checkpoint_at checkpoint is_cancelled cmp_list get
    insert trim byte_len find_control
refresh_seeds-Refreshes_example =
    refresh_seeds-Refreshes (seed_x ∷ []) (contracts (contract (text "x") one_line ∷ []))
      full_refresh limits idle idle refresh_x refl

abbrev declared_x : SketchDeclaration
declared_x = record {
  id = record { value = text "x" };
  locator = record { contract_file = record { value = text "a.yaml" }; document_index = 0 };
  file = file;
  signature = record { value = text "f" };
  signature_type = record { value = text "fn" };
  policy = record { normalization = exact_lines_v1; occurrence = at_least_one };
  snippet = record { normalized = one_line };
}

-- A signature of another document.
abbrev link_x : SignatureLink
link_x = record {
  label = record { value = text "f" };
  locator = record { contract_file = record { value = text "a.yaml" }; document_index = 1 };
  file = file;
  signature_type = record { value = text "fn" };
  sketch_id = record { value = text "x" };
}

check_link_iff_example : (check_link declared_x link_x ≡ ok (from_link declared_x link_x)) ↔ (
    link_x.locator ≡ declared_x.locator × file ≡ file × text "f" ≡ text "f" × text "fn" ≡ text "fn")
check_link_iff_example = check_link_iff declared_x link_x
