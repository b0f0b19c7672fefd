-- ===== src/Api.antt =====
-- conkit-sketch/limits.rs, contract/document.rs and api.rs: the limits of an operation, the contracts
-- of a catalog, and a request for a semantic diff, from its two catalogs to its response.
pub mod Diffing
use contract_kit.Prelude.{ℕ, List, []}
use contract_kit.Text.{Text}
use contract_kit.Limits.Matching.{MatchingLimits}
use contract_kit.Limits.Matching
use contract_kit.Limits.Output.{DiagnosticLimits}
use contract_kit.Limits.Generated.{OutputLimits}
use contract_kit.Limits.Yaml
use contract_kit.Limits.Yaml.{YamlLimits, YamlBudget}
use contract_kit.Catalog
use contract_kit.Catalog.{FileCatalog, CatalogLimits, CatalogUsage, record_catalog}
use contract_kit.Work.{M, ◌>>=◌, ◌>>◌, pure, checkpoint}
use contract_kit.Normalize.{Bytes}
use contract_kit.Contract.{SketchContracts}
use contract_kit.Document.Parsing.{YamlLibrary, from_catalog}
use contract_kit.Resolve.{resolve}
use contract_kit.Diff.{DiffResponse, diff_against}

pub record SketchLimits : Type 0 where
  pub catalog : CatalogLimits
  pub yaml : YamlLimits
  pub matching : MatchingLimits
  pub diagnostics : DiagnosticLimits
  pub output : OutputLimits

pub record DiffRequest : Type 0 where
  pub current_contract_files : FileCatalog
  pub previous_contract_files : FileCatalog

module _ (y : YamlLibrary) (limits : SketchLimits) where
  -- `SketchContracts::from_catalog`, with the budget that it updates.
  unfoldable pub contracts_of : FileCatalog → YamlBudget → M (SketchContracts × YamlBudget)
  contracts_of catalog budget = do
    (documents, next) ← from_catalog y catalog budget
    contracts ← resolve documents.files limits.matching
    pure (contracts, next)

  -- `DiffRequest::run`.
  unfoldable pub run_diff : (Bytes → Bytes) → DiffRequest → M DiffResponse
  unfolding contracts_of
  run_diff sha256 request = do
    with_current ← record_catalog limits.catalog request.current_contract_files Catalog.usage
    _ ← record_catalog limits.catalog request.previous_contract_files with_current
    checkpoint
    (current, next) ← contracts_of request.current_contract_files (Yaml.budget limits.yaml)
    checkpoint
    (previous, _) ← contracts_of request.previous_contract_files next
    checkpoint
    diff_against sha256 current previous
