-- ===== src/Error.antt =====
-- conkit-sketch/error.rs, id.rs (its error) and limits.rs (its error). A message is a constructor
-- with the values that the source's format string shows, and `Location` the places that stand
-- in front of messages.
use contract_kit.Prelude.{ℕ, Option, Bool, true, false, some, none}
use contract_kit.Text.{Text}
use contract_kit.Path.{CatalogPath, FileCatalogError}

pub data LimitResource : Type 0 where
  catalog_entry_count catalog_total_bytes catalog_file_bytes : LimitResource
  yaml_document_count yaml_depth yaml_node_count yaml_alias_count : LimitResource
  yaml_alias_expansion_bytes sketch_count signature_index_entry_count : LimitResource
  snippet_bytes snippet_lines normalized_source_bytes normalized_source_lines : LimitResource
  matching_line_comparisons occurrence_candidate_count : LimitResource
  diagnostic_count diagnostic_bytes generated_output_bytes output_scratch_bytes : LimitResource

pub record LimitExceeded : Type 0 where
  pub resource : LimitResource
  pub limit : ℕ
  pub observed_at_least : ℕ
  pub file : Option CatalogPath

pub data SketchIdError : Type 0 where
  empty : Text → SketchIdError
  surrounding_whitespace : Text → SketchIdError
  too_long : Text → ℕ → ℕ → SketchIdError
  control_character : Text → ℕ → SketchIdError

-- `ContractDocumentLocator` is `document`.
pub data Location : Type 0 where
  document : CatalogPath → ℕ → Location
  signature_link : CatalogPath → Text → Location
  sketch_declaration : CatalogPath → ℕ → Location
  refresh_seed : CatalogPath → ℕ → Location
  in_file : CatalogPath → Location
  diagnostic_accounting : Location

-- What a label or a type is checked for, "signature {label}" or "sketch {id}".
pub data Subject : Type 0 where
  of_signature of_sketch : Text → Subject

pub data Message : Type 0 where
  invalid_utf8 : Text → Message
  started_before_ending unterminated_document no_documents : Message
  empty_or_null_document : ℕ → Message
  document_counts_differ : ℕ → ℕ → Message
  not_one_named_signature empty_signature_entry requires_extraction : Message
  no_resource_report : Message
  root_must_not_be_empty : Message
  files_contains_invalid_path : FileCatalogError → Message
  duplicate_contract_file : CatalogPath → Message
  label_must_not_be_empty : Message
  signature_type_must_not_be_empty : Subject → Message
  invalid_file : Subject → FileCatalogError → Message
  references_unlisted_file : Subject → CatalogPath → Message
  code_must_not_be_empty : Text → Message
  duplicate_signature_label : Text → Message
  duplicate_sketch_id : Text → Location → Message
  orphan_sketch : Text → Message
  referenced_more_than_once : Text → Message
  no_signature_link : Text → Message
  links_to_another_document : Text → Text → Location → Message
  file_does_not_match : Text → CatalogPath → Text → CatalogPath → Message
  signature_does_not_match : Text → Text → Text → Message
  type_does_not_match : Text → Text → Text → Text → Message
  references_missing_sketch : Text → Text → Message
  link_collection_was_empty : Message
  duplicate_refresh_seed : Text → Message
  no_linked_sketch : Text → Message
  missing_refresh_seed : Text → Message
  seed_type_must_not_be_empty : Text → Message
  seed_targets_document : Text → CatalogPath → CatalogPath → Message
  seed_targets_index : Text → ℕ → ℕ → Message
  seed_targets_source : Text → CatalogPath → CatalogPath → Message
  seed_has_type : Text → Text → Text → Message
  external : Text → Message

pub data Error : Type 0 where
  parse_failed : Location → Message → Error
  write_failed : Location → Message → Error
  conversion_failed : Message → Error
  invalid_sketch_id : Location → SketchIdError → Error
  duplicate_yaml_key : CatalogPath → ℕ → Text → Error
  unsupported_contract_version : Location → Option ℕ → Error
  catalog : FileCatalogError → Error
  limit_error : LimitExceeded → Error
  queue_full operation_cancelled work_capacity_overflow : Error
  worker_failed : Text → Error

pub is_queue_full : Error → Bool
is_queue_full queue_full = true
is_queue_full _ = false

-- `SketchContractKitError::limit_exceeded`.
abbrev pub limit_exceeded : Error → Option LimitExceeded
limit_exceeded (limit_error e) = some e
limit_exceeded _ = none
