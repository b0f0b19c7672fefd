-- ===== src/Document/Parsing/Only.antt =====
-- The files that reading a catalog of contract files gives are entries of the catalog.
use contract_kit.Prelude.{ℕ, ◌+◌, ◌≡◌, refl, Bool, true, false, some, [], ◌∷◌, if◌then◌else◌}
use contract_kit.Prelude.Results.{map_err, map_err-ok}
use contract_kit.SortedMap.{SortedMap, get}
use contract_kit.SortedMap.Contents.{
  Entries, IsSorted, Entries-insert, insert-IsSorted, get-Entries,
}
use contract_kit.Path.{CatalogPath, path_ord}
use contract_kit.Error.{catalog}
use contract_kit.Limits.Yaml.{YamlBudget}
use contract_kit.Work.{M, checkpoint_at}
use contract_kit.Work.Outcome.{
  Yields, Yields-after, Yields-lift, Yields-pure, Yields-bind, Yields-weaken,
}
use contract_kit.Normalize.{Bytes}
use contract_kit.Catalog.{FileCatalog, insert_file}
use contract_kit.Document.{SketchContractFile}
use contract_kit.Document.Parsing.{
  YamlLibrary, ContractDocuments, is_contract_file, parse_file, add_parsed, pass_through,
  sort_files, from_catalog,
}
use contract_kit.Document.Parsing.Parsed.{Fits, Parses, parse_file-Parses}
use contract_kit.Document.Parsing.Sorted.{insert_file-files}

-- The file was parsed from an entry of the catalog, which is a contract file by its name.
abbrev pub IsParsedFrom : YamlLibrary → FileCatalog → CatalogPath → SketchContractFile → Type 0
IsParsedFrom y c path file =
    (bytes : Bytes) × (get path c.files ≡ some bytes)
    × (is_contract_file path ≡ true)
    × (b : YamlBudget) × (b' : YamlBudget) × Fits b
    × Parses y path bytes b file b'

-- The bytes are those of an entry of the catalog, which is no contract file by its name.
abbrev pub IsPassedFrom : FileCatalog → CatalogPath → Bytes → Type 0
IsPassedFrom c path bytes = (get path c.files ≡ some bytes) × (is_contract_file path ≡ false)

-- Nothing but entries of the catalog, each path once.
pub record OnlyFrom (y : YamlLibrary) (c : FileCatalog) (d : ContractDocuments) : Type 0 where
  pub parsed_only : Entries (IsParsedFrom y c) d.files
  pub parsed_once : IsSorted d.files
  pub passed_only : Entries (IsPassedFrom c) d.passthrough.files
  pub passed_once : IsSorted d.passthrough.files

module _ (y : YamlLibrary) (c : FileCatalog) where
  abbrev Kept : ContractDocuments × YamlBudget → Type 0
  Kept r = OnlyFrom y c r.0 × Fits r.1

  module _ (path : CatalogPath) (bytes : Bytes) (there : get path c.files ≡ some bytes) where
    one-OnlyFrom :
        (kind : Bool) (d : ContractDocuments) (b : YamlBudget)
        → is_contract_file path ≡ kind
        → Fits b
        → OnlyFrom y c d
        → Yields Kept (
            if◌then◌else◌ {A = M (ContractDocuments × YamlBudget)} kind
              (add_parsed y path bytes d b)
              (pass_through y path bytes d b))
    one-OnlyFrom true d b is f only =
        Yields-bind (λ r. Parses y path bytes b r.0 r.1) Kept (parse_file y path bytes b) _
          (parse_file-Parses y path bytes b f)
          (λ r parses. Yields-pure Kept _ (
            record {
              parsed_only =
                  Entries-insert (IsParsedFrom y c) path r.0 d.files
                    (bytes, there, is, b, r.1, f, parses) only.parsed_only;
              parsed_once = insert-IsSorted path r.0 d.files only.parsed_once;
              passed_only = only.passed_only;
              passed_once = only.passed_once;
            },
            parses.fits,
          ))
    one-OnlyFrom false d b is f only =
        Yields-lift Kept (map_err catalog (insert_file path bytes d.passthrough)) _ (λ p inserted.
          let same =
            insert_file-files path bytes d.passthrough p (map_err-ok catalog _ p inserted) in
          Yields-pure Kept _ (
            record {
              parsed_only = only.parsed_only;
              parsed_once = only.parsed_once;
              passed_only = rw same (
                  Entries-insert (IsPassedFrom c) path bytes d.passthrough.files (there, is)
                    only.passed_only);
              passed_once =
                  rw same (insert-IsSorted path bytes d.passthrough.files only.passed_once);
            },
            f,
          ))

  sort_files-OnlyFrom :
      (index : ℕ) (entries : SortedMap CatalogPath Bytes) (d : ContractDocuments) (b : YamlBudget)
      → Entries (λ path bytes. get path c.files ≡ some bytes) entries
      → Fits b
      → OnlyFrom y c d
      → Yields Kept (sort_files y index entries d b)
  unfolding sort_files
  sort_files-OnlyFrom index [] d b there f only = Yields-pure Kept (d, b) (only, f)
  sort_files-OnlyFrom index ((path, bytes) ∷ rest) d b there f only =
      Yields-after Kept (checkpoint_at index) _ (λ _.
        Yields-bind Kept Kept
          (if is_contract_file path
            then add_parsed y path bytes d b
            else pass_through y path bytes d b)
          _ (one-OnlyFrom path bytes there.0 (is_contract_file path) d b refl f only)
          (λ r kept. sort_files-OnlyFrom (index + 1) rest r.0 r.1 there.1 kept.1 kept.0))

  pub from_catalog-OnlyFrom :
      (b : YamlBudget)
      → IsSorted c.files
      → Fits b
      → Yields (λ r. OnlyFrom y c r.0) (from_catalog y c b)
  unfolding from_catalog
  from_catalog-OnlyFrom b s f =
      Yields-weaken Kept (λ r. OnlyFrom y c r.0) _
        (sort_files-OnlyFrom 0 c.files _ b (get-Entries c.files s) f
          (record { parsed_only = tt; parsed_once = tt; passed_only = tt; passed_once = tt }))
        (λ r kept. kept.0)
