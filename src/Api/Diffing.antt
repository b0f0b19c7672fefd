-- ===== src/Api/Diffing.antt =====
-- A diff that returns, from the files of its request to its entries.
use contract_kit.Prelude.{◌≡◌, arith}
use contract_kit.Prelude.Results.{ok}
use contract_kit.SortedMap.Contents.{Entries, IsSorted}
use contract_kit.Path.{path_ord}
use contract_kit.Limits.Yaml
use contract_kit.Limits.Yaml.{YamlBudget}
use contract_kit.Limits.Yaml.Metering.{IsBounded}
use contract_kit.Catalog
use contract_kit.Catalog.{FileCatalog, CatalogUsage, record_catalog}
use contract_kit.Work.{Work, checkpoint}
use contract_kit.Work.Outcome.{
  Yields, Yields-after, Yields-pure, Yields-bind, Yields-weaken, Yields-ok, Yields-both,
  Polls-Yields,
}
use contract_kit.Normalize.{Bytes}
use contract_kit.Contract.{SketchContracts}
use contract_kit.Document.Parsing.{YamlLibrary, ContractDocuments, is_contract_file, from_catalog}
use contract_kit.Document.Parsing.Only.{OnlyFrom, from_catalog-OnlyFrom}
use contract_kit.Document.Parsing.Parsed.{Fits}
use contract_kit.Document.Parsing.Sorted.{IsSortedInto, from_catalog-Yields}
use contract_kit.Resolve.{resolve}
use contract_kit.Resolve.Linking.{Resolves, resolve-Yields}
use contract_kit.Diff.{DiffResponse, diff_against}
use contract_kit.Diff.Merge.{Tells, diff_against-Tells}
use contract_kit.Api.{SketchLimits, DiffRequest, contracts_of, run_diff}

-- The contracts that the contract files of a catalog, and no others, resolve to.
pub record IsCatalogOf (y : YamlLibrary) (limits : SketchLimits) (c : FileCatalog)
    (contracts : SketchContracts) : Type 0 where
  pub documents : ContractDocuments
  pub sorted :
      Entries (λ path bytes. IsSortedInto y documents (is_contract_file path) path bytes) c.files
  pub only : OnlyFrom y c documents
  pub resolved : Resolves limits.matching documents.files contracts

module _ (y : YamlLibrary) (limits : SketchLimits) where
  contracts_of-Yields :
      (c : FileCatalog) (b : YamlBudget)
      → IsSorted c.files
      → Fits b
      → Yields (λ r. IsCatalogOf y limits c r.0 × Fits r.1) (contracts_of y limits c b)
  unfolding contracts_of
  contracts_of-Yields c b s f =
      let P : SketchContracts × YamlBudget → Type 0 = λ r. IsCatalogOf y limits c r.0 × Fits r.1 in
      Yields-bind _ P (from_catalog y c b) _
        (Yields-both _ _ _ (from_catalog-Yields y c b s f) (from_catalog-OnlyFrom y c b s f))
        (λ d sorted.
          Yields-bind (Resolves limits.matching d.0.files) P (resolve d.0.files limits.matching) _
            (resolve-Yields d.0.files limits.matching)
            (λ contracts resolved.
              Yields-pure P (contracts, d.1)
                (
                  record {
                    documents = d.0;
                    sorted = sorted.0.0;
                    only = sorted.1;
                    resolved = resolved;
                  },
                  sorted.0.1,
                )))

  -- What a response tells of a request.
  pub record Answers (sha256 : Bytes → Bytes) (request : DiffRequest) (r : DiffResponse)
      : Type 0 where
    pub current : SketchContracts
    pub current_of : IsCatalogOf y limits request.current_contract_files current
    pub previous : SketchContracts
    pub previous_of : IsCatalogOf y limits request.previous_contract_files previous
    pub tells : Tells sha256 current previous r

  run_diff-Yields :
      (sha256 : Bytes → Bytes) (request : DiffRequest)
      → IsSorted request.current_contract_files.files
      → IsSorted request.previous_contract_files.files
      → IsBounded limits.yaml
      → Yields (Answers sha256 request) (run_diff y limits sha256 request)
  unfolding run_diff
  run_diff-Yields sha256 request sc sp bounded =
      let P = Answers sha256 request in
      let fresh : Fits (Yaml.budget limits.yaml) = record {
        bounded = bounded;
        documents_fit = omega arith;
        nodes_fit = omega arith;
        aliases_fit = omega arith;
        bytes_fit = omega arith;
      } in
      Yields-after P (record_catalog limits.catalog request.current_contract_files Catalog.usage) _
        (λ u.
          Yields-after P (record_catalog limits.catalog request.previous_contract_files u) _ (λ _.
            Yields-after P checkpoint _ (λ _.
              Yields-bind _ P
                (contracts_of y limits request.current_contract_files (Yaml.budget limits.yaml)) _
                (contracts_of-Yields request.current_contract_files _ sc fresh)
                (λ current is_current. Yields-after P checkpoint _ (λ _.
                  Yields-bind _ P (contracts_of y limits request.previous_contract_files current.1)
                    _
                    (contracts_of-Yields request.previous_contract_files current.1 sp is_current.1)
                    (λ previous is_previous. Yields-after P checkpoint _ (λ _.
                      Yields-weaken (Tells sha256 current.0 previous.0) P
                        (diff_against sha256 current.0 previous.0)
                        (Polls-Yields _ _ (
                          diff_against-Tells sha256 current.0 previous.0
                            is_current.0.resolved.ascending is_previous.0.resolved.ascending))
                        (λ r tells. record {
                          current = current.0;
                          current_of = is_current.0;
                          previous = previous.0;
                          previous_of = is_previous.0;
                          tells = tells;
                        }))))))))

  -- When a request for a diff returns, with YAML limits below `u64::MAX`, each of its two catalogs
  -- was read file by file into documents, which hold nothing but files that were parsed from contract
  -- files of that catalog, each once; the documents resolved to contracts, of which every sketch and
  -- every linking signature is in exactly one pair; and the response tells of each id what the lookups on both
  -- sides tell, with the digest of the framed fields of the current contracts.
  pub run_diff-Answers :
      (sha256 : Bytes → Bytes) (request : DiffRequest) (w w' : Work) (r : DiffResponse)
      → IsSorted request.current_contract_files.files
      → IsSorted request.previous_contract_files.files
      → IsBounded limits.yaml
      → run_diff y limits sha256 request w ≡ ok (r, w')
      → Answers sha256 request r
  run_diff-Answers sha256 request w w' r sc sp bounded h =
      Yields-ok _ (run_diff y limits sha256 request) w w' r
        (run_diff-Yields sha256 request sc sp bounded) h
