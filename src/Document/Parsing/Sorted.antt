-- ===== src/Document/Parsing/Sorted.antt =====
-- What becomes of each entry of a catalog of contract files.
use Prim.Native.Nat.Ordering.{lt}
use contract_kit.Prelude.{
  ℕ, ◌+◌, ◌≡◌, ◌≢◌, refl, ◌∙◌, Bool, true, false, some, [], ◌∷◌, arith, if◌then◌else◌,
}
use contract_kit.Prelude.Results.{ok, map_err, map_err-ok}
use contract_kit.SortedMap.{SortedMap, get, insert}
use contract_kit.SortedMap.Contents.{Entries, Front, IsSorted, get-insert, get-insert_other}
use contract_kit.Path.{CatalogPath, path_ord}
use contract_kit.Error.{catalog}
use contract_kit.Limits.Yaml.{YamlBudget}
use contract_kit.Work.{Work, M, checkpoint_at}
use contract_kit.Work.Outcome.{
  Yields, Yields-after, Yields-lift, Yields-pure, Yields-bind, Yields-weaken, Yields-ok,
}
use contract_kit.Normalize.{Bytes}
use contract_kit.Catalog.{FileCatalog, insert_file}
use contract_kit.Document.{SketchContractFile}
use contract_kit.Document.Parsing.{
  YamlLibrary, ContractDocuments, is_contract_file, parse_file, add_parsed, pass_through,
  sort_files, from_catalog,
}
use contract_kit.Document.Parsing.Parsed.{Fits, Parses, parse_file-Parses}

-- An entry was parsed as a contract file, on a budget within its limits, or passed through as it is.
abbrev pub IsSortedInto : YamlLibrary → ContractDocuments → Bool → CatalogPath → Bytes → Type 0
IsSortedInto y r true path bytes =
    (file : SketchContractFile) × (get path r.files ≡ some file)
    × (b : YamlBudget) × (b' : YamlBudget) × Fits b
    × Parses y path bytes b file b'
IsSortedInto y r false path bytes = get path r.passthrough.files ≡ some bytes

-- Nothing is changed at a path.
abbrev Same : CatalogPath → ContractDocuments → ContractDocuments → Type 0
Same path r r' =
    (get path r'.files ≡ get path r.files)
    × (get path r'.passthrough.files ≡ get path r.passthrough.files)

stay :
    (y : YamlLibrary) (r r' : ContractDocuments) (kind : Bool) (path : CatalogPath) (bytes : Bytes)
    → Same path r r'
    → IsSortedInto y r kind path bytes
    → IsSortedInto y r' kind path bytes
stay y r r' true path bytes same (file, found, b, b', fits, parsed) =
    (file, same.0 ∙ found, b, b', fits, parsed)
stay y r r' false path bytes same found = same.1 ∙ found

lt_ne : (i j : CatalogPath) → path_ord.cmp i j ≡ lt → i ≢ j
lt_ne i j h e = absurd (ground (arith, path_ord.cmp_refl i))

pub insert_file-files :
    (path : CatalogPath) (bytes : Bytes) (c c' : FileCatalog)
    → insert_file path bytes c ≡ ok c'
    → c'.files ≡ insert path bytes c.files
unfolding insert_file
insert_file-files path bytes c c' h = ground arith

-- One entry: it is sorted, all other paths stay, and the budget is kept within its limits.
abbrev Sorts :
    YamlLibrary
    → CatalogPath
    → Bytes
    → Bool
    → ContractDocuments
    → ContractDocuments × YamlBudget
    → Type 0
Sorts y path bytes kind d r =
    IsSortedInto y r.0 kind path bytes
    × ((i : CatalogPath) → path_ord.cmp i path ≡ lt → Same i d r.0)
    × Fits r.1

add_parsed-Sorts :
    (y : YamlLibrary) (path : CatalogPath) (bytes : Bytes) (d : ContractDocuments) (b : YamlBudget)
    → Fits b
    → Yields (Sorts y path bytes true d) (add_parsed y path bytes d b)
add_parsed-Sorts y path bytes d b f =
    Yields-bind (λ r. Parses y path bytes b r.0 r.1) (Sorts y path bytes true d)
      (parse_file y path bytes b) _ (parse_file-Parses y path bytes b f)
      (λ r parsed. Yields-pure (Sorts y path bytes true d) _ (
        (r.0, get-insert path r.0 d.files, b, r.1, f, parsed),
        λ i before. (get-insert_other i path r.0 d.files (lt_ne i path before), refl),
        parsed.fits,
      ))

pass_through-Sorts :
    (y : YamlLibrary) (path : CatalogPath) (bytes : Bytes) (d : ContractDocuments) (b : YamlBudget)
    → Fits b
    → Yields (Sorts y path bytes false d) (pass_through y path bytes d b)
pass_through-Sorts y path bytes d b f =
    Yields-lift (Sorts y path bytes false d)
      (map_err catalog (insert_file path bytes d.passthrough)) _
      (λ c inserted.
        let is = insert_file-files path bytes d.passthrough c (map_err-ok catalog _ c inserted) in
        Yields-pure (Sorts y path bytes false d) _ (
          rw is (get-insert path bytes d.passthrough.files),
          λ i before. (
            refl,
            rw is (get-insert_other i path bytes d.passthrough.files (lt_ne i path before)),
          ),
          f,
        ))

-- All entries, and the paths in front of them stay.
record SortsAll (y : YamlLibrary) (entries : SortedMap CatalogPath Bytes) (d : ContractDocuments)
    (r : ContractDocuments × YamlBudget) : Type 0 where
  pub each : Entries (λ path bytes. IsSortedInto y r.0 (is_contract_file path) path bytes) entries
  pub others : (i : CatalogPath) → Front i entries → Same i d r.0
  pub fits : Fits r.1

sort_files-SortsAll :
    (y : YamlLibrary) (index : ℕ) (entries : SortedMap CatalogPath Bytes) (d : ContractDocuments)
    (b : YamlBudget)
    → Fits b
    → IsSorted entries
    → Yields (SortsAll y entries d) (sort_files y index entries d b)
unfolding sort_files
sort_files-SortsAll y index [] d b f s =
    Yields-pure _ (d, b) (record { each = tt; others = λ i _. (refl, refl); fits = f })
sort_files-SortsAll y index ((path, bytes) ∷ rest) d b f s =
    let P = SortsAll y ((path, bytes) ∷ rest) d in
    Yields-after P (checkpoint_at index) _ (λ _.
      Yields-bind (Sorts y path bytes (is_contract_file path) d) P
        (if is_contract_file path
          then add_parsed y path bytes d b
          else pass_through y path bytes d b)
        _ (one (is_contract_file path))
        (λ r sorted.
          Yields-weaken (SortsAll y rest r.0) P _
            (sort_files-SortsAll y (index + 1) rest r.0 r.1 sorted.2 s.1)
            (λ end all. record {
              each = (
                stay y r.0 end.0 (is_contract_file path) path bytes (all.others path s.0) sorted.0,
                all.each,
              );
              others = λ i front.
                  let first = sorted.1 i front.0 in
                  let later = all.others i front.1 in (later.0 ∙ first.0, later.1 ∙ first.1);
              fits = all.fits;
            })))
  where
    one :
        (kind : Bool)
        → Yields (Sorts y path bytes kind d) (
            if◌then◌else◌ {A = M (ContractDocuments × YamlBudget)} kind
              (add_parsed y path bytes d b)
              (pass_through y path bytes d b))
    one true = add_parsed-Sorts y path bytes d b f
    one false = pass_through-Sorts y path bytes d b f

pub from_catalog-Yields :
    (y : YamlLibrary) (c : FileCatalog) (b : YamlBudget)
    → IsSorted c.files
    → Fits b
    → Yields
        (λ r.
          Entries (λ path bytes. IsSortedInto y r.0 (is_contract_file path) path bytes) c.files
          × Fits r.1)
        (from_catalog y c b)
unfolding from_catalog
from_catalog-Yields y c b s f =
    Yields-weaken _ _ _ (sort_files-SortsAll y 0 c.files _ b f s) (λ r all. (all.each, all.fits))

-- When reading a catalog of contract files in the order of its paths returns, on a budget within
-- limits that are below `u64::MAX`: each YAML file at its root was parsed, and each other entry
-- was passed through with its bytes as they are. A file that was parsed has its name and bytes;
-- its bytes are UTF-8, its events are whole documents with content, and its documents were read
-- from what the typed parser returned, as many as in the events, each of version 2, with
-- extraction where it has signatures, and with one name for each signature. The budget is still
-- within its limits.
pub from_catalog-sorted :
    (y : YamlLibrary) (c : FileCatalog) (b b' : YamlBudget) (r : ContractDocuments) (w w' : Work)
    → IsSorted c.files
    → Fits b
    → from_catalog y c b w ≡ ok ((r, b'), w')
    → Entries (λ path bytes. IsSortedInto y r (is_contract_file path) path bytes) c.files × Fits b'
from_catalog-sorted y c b b' r w w' s f h =
    Yields-ok _ (from_catalog y c b) w w' (r, b') (from_catalog-Yields y c b s f) h
