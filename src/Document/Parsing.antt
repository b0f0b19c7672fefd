-- ===== src/Document/Parsing.antt =====
-- conkit-sketch/contract/document.rs, `SketchContractFile::parse` and
-- `SketchContractDocuments::from_catalog`: the contract files of a catalog. The YAML library is
-- not the program's; `YamlLibrary` has what its calls return.
pub mod Only
pub mod Parsed
pub mod Sorted
use contract_kit.Prelude.{
  ℕ, ◌+◌, Bool, true, false, not, ◌||◌, ◌&&◌, Option, none, some, List, [], ◌∷◌, ◌==◌, length,
  if◌then◌else◌,
}
use contract_kit.Prelude.Order.{◌===◌, list_ord, nat_ord}
use contract_kit.Prelude.Results.{Result, ok, err, map_err, fail_if}
use contract_kit.SortedMap.{SortedMap, insert}
use contract_kit.Text.{Text, text, contains, split}
use contract_kit.Path.{CatalogPath, path_ord}
use contract_kit.Error.{
  Error, LimitExceeded, document, in_file, parse_failed, conversion_failed, limit_error, catalog,
  duplicate_yaml_key, invalid_utf8, external, document_counts_differ, no_resource_report,
}
use contract_kit.Limits.Yaml.{
  Tag, YamlBudget, RawYamlReport, SemanticBudget, AliasLimits, BudgetReport, SemanticError,
  duplicate_mapping_key, semantic_parser_budget, semantic_alias_limits, record_replay_report,
  limit_for_semantic_parser_error,
}
use contract_kit.Work.{M, ◌>>=◌, ◌>>◌, pure, lift, raise, limited, checkpoint, checkpoint_at}
use contract_kit.Normalize.{Bytes}
use contract_kit.Catalog
use contract_kit.Catalog.{FileCatalog, insert_file}
use contract_kit.Document.{SketchYamlDocumentInput, SketchContractFile, documents_from_inputs}
use contract_kit.Document.Stream.{
  Item, DocumentStream, inspect, document_index_for_error, to_ascii_lowercase,
}

-- An error of the typed parser: its variant, the line of its location, and its text.
pub record TypedError : Type 0 where
  pub variant : SemanticError
  pub line : Option ℕ
  pub shown : Text

pub record YamlLibrary : Type 0 where
  -- `str::from_utf8`, with the text of its error.
  pub from_utf8 : Bytes → Result Text Text
  -- `Parser::new_from_str`.
  pub events : Text → List Item
  pub core_suffix : Tag → Option Text
  -- `from_multiple_with_options`, and what it reports to the callback.
  pub from_multiple :
      Text → SemanticBudget → AliasLimits → Result TypedError (List SketchYamlDocumentInput)
  pub budget_report : Text → SemanticBudget → AliasLimits → Option BudgetReport

-- The error for a failure of the typed parser that is no limit.
abbrev pub typed_failure : CatalogPath → ℕ → SemanticError → Text → Error
typed_failure path index (duplicate_mapping_key key) shown = duplicate_yaml_key path index key
typed_failure path index _ shown = parse_failed (document path index) (external shown)

abbrev pub limit_or : Option LimitExceeded → Error → Error
limit_or none e = e
limit_or (some limit) e = limit_error limit

-- The closure of `map_err`.
unfoldable pub typed_error : CatalogPath → DocumentStream → YamlBudget → TypedError → Error
typed_error path stream budget e =
    limit_or (limit_for_semantic_parser_error path stream.raw_report e.variant budget)
      (typed_failure path (document_index_for_error stream e.line) e.variant e.shown)

abbrev pub required_report : Option BudgetReport → Result Error BudgetReport
required_report none = err (conversion_failed no_resource_report)
required_report (some report) = ok report

module _ (y : YamlLibrary) where
  -- `SketchContractFile::parse` behind the inspection of the stream.
  unfoldable pub parse_inspected :
      CatalogPath → Bytes → Text → DocumentStream → YamlBudget → M (SketchContractFile × YamlBudget)
  parse_inspected path bytes source stream metered = do
    let parser_budget = semantic_parser_budget metered stream.raw_report
    let alias_limits = semantic_alias_limits metered stream.raw_report
    checkpoint
    inputs ← lift (
        map_err (typed_error path stream metered)
          (y.from_multiple source parser_budget alias_limits))
    checkpoint
    report ← lift (required_report (y.budget_report source parser_budget alias_limits))
    replayed ← limited (record_replay_report path stream.raw_report report metered)
    lift (
        fail_if (not (length inputs == stream.document_count)) (
          parse_failed (in_file path)
            (document_counts_differ (length inputs) stream.document_count)))
    documents ← documents_from_inputs 0 inputs path
    pure (record { catalog_name = path; original_bytes = bytes; documents = documents }, replayed)

  -- `SketchContractFile::parse`, with the budget that it updates.
  unfoldable pub parse_file : CatalogPath → Bytes → YamlBudget → M (SketchContractFile × YamlBudget)
  unfolding parse_inspected
  parse_file path bytes budget = do
    checkpoint
    source ← lift (map_err (λ e. parse_failed (in_file path) (invalid_utf8 e)) (y.from_utf8 bytes))
    checkpoint
    (stream, metered) ← inspect y.core_suffix path (y.events source) budget
    parse_inspected path bytes source stream metered

-- `rsplit_once('.')`: what stands behind the last point.
abbrev pub last_of : Text → List Text → Text
last_of part [] = part
last_of part (next ∷ rest) = last_of next rest

abbrev pub suffix_is : Text → List Text → Bool
suffix_is extension [] = false
suffix_is extension (whole ∷ []) = false
suffix_is extension (first ∷ second ∷ rest) =
    to_ascii_lowercase (last_of second rest) === to_ascii_lowercase extension

-- `CatalogPath::has_extension`.
unfoldable pub has_extension : CatalogPath → Text → Bool
has_extension path extension = suffix_is extension (split b'.' path.value)

-- A contract file: a YAML file at the root of the catalog.
unfoldable pub is_contract_file : CatalogPath → Bool
is_contract_file path =
    not (contains b'/' path.value)
    && (has_extension path (text "yaml") || has_extension path (text "yml"))

-- `SketchContractDocuments`.
pub record ContractDocuments : Type 0 where
  pub files : SortedMap CatalogPath SketchContractFile
  pub passthrough : FileCatalog

module _ (y : YamlLibrary) where
  abbrev pub add_parsed :
      CatalogPath → Bytes → ContractDocuments → YamlBudget → M (ContractDocuments × YamlBudget)
  add_parsed path bytes documents budget = do
    (file, next) ← parse_file y path bytes budget
    pure (record documents { files = insert path file documents.files }, next)

  abbrev pub pass_through :
      CatalogPath → Bytes → ContractDocuments → YamlBudget → M (ContractDocuments × YamlBudget)
  pass_through path bytes documents budget = do
    passthrough ← lift (map_err catalog (insert_file path bytes documents.passthrough))
    pure (record documents { passthrough = passthrough }, budget)

  -- The loop of `from_catalog`.
  unfoldable pub sort_files :
      ℕ
      → SortedMap CatalogPath Bytes
      → ContractDocuments
      → YamlBudget
      → M (ContractDocuments × YamlBudget)
  sort_files index [] documents budget = pure (documents, budget)
  sort_files index ((path, bytes) ∷ rest) documents budget = do
    checkpoint_at index
    (sorted, next) ←
        if is_contract_file path
        then add_parsed path bytes documents budget
        else pass_through path bytes documents budget
    sort_files (index + 1) rest sorted next

  -- `SketchContractDocuments::from_catalog`.
  unfoldable pub from_catalog : FileCatalog → YamlBudget → M (ContractDocuments × YamlBudget)
  from_catalog c budget =
      sort_files 0 c.files (record { files = []; passthrough = Catalog.new }) budget
