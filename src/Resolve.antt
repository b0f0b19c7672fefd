-- ===== src/Resolve.antt =====
-- conkit-sketch/contract/resolve.rs: the contracts that the documents of a catalog resolve to. Each
-- sketch is linked to the one signature that names it, in the same document.
pub mod Declared
pub mod Placed
pub mod Collecting
pub mod Linking
pub mod Agreement
use contract_kit.Prelude.{
  ℕ, ◌+◌, Bool, not, ◌&&◌, Option, none, some, List, [], ◌∷◌, ◌++◌, map, length, if◌then◌else◌, ap,
  saturating_add,
}
use contract_kit.Prelude.Order.{
  Ord, list_ord, nat_ord, cmp_list, cmp_list_refl, eq_of_cmp_list, gt_of_lt_list, lt_of_gt_list,
  lt_trans_list, ◌===◌,
}
use contract_kit.Prelude.Results.{Result, ok, err, map_err, fail_if}
use contract_kit.SortedMap.{SortedMap, get, insert, remove, contains_key, is_some, push_at}
use contract_kit.Text.{Text, trim, is_empty}
use contract_kit.Path
use contract_kit.Path.{CatalogPath, path_ord}
use contract_kit.Error.{
  Error, Location, Message, document, signature_link, sketch_declaration, parse_failed,
  conversion_failed, invalid_sketch_id, of_signature, of_sketch, root_must_not_be_empty,
  files_contains_invalid_path, duplicate_contract_file, invalid_file, references_unlisted_file,
  duplicate_signature_label, duplicate_sketch_id, orphan_sketch, referenced_more_than_once,
  links_to_another_document, file_does_not_match, signature_does_not_match, type_does_not_match,
  references_missing_sketch, link_collection_was_empty,
}
use contract_kit.Limits.Matching.{
  MatchingLimits, sketch_id_maximum, validate_sketch_count, validate_signature_index_entry_count,
}
use contract_kit.Work.{M, ◌>>=◌, ◌>>◌, pure, lift, raise, limited, checkpoint, checkpoint_at}
use contract_kit.Contract.{
  SketchId, id_ord, new_id, SketchMatchPolicy, ContractDocumentLocator, shown, SignatureLabel,
  new_label, SignatureType, new_type, SketchSnippet, new_snippet, SketchContract, SketchContracts,
}
use contract_kit.Diff.{as_bytes}
use contract_kit.Document.{
  SketchYamlInput, SketchSemanticSignature, SketchSemanticDocument, SketchContractDocument,
  SketchContractFile,
}

instance abbrev pub label_ord : Ord SignatureLabel
label_ord = record {
  cmp = λ a b. cmp_list a.value b.value;
  cmp_refl = λ a. cmp_list_refl a.value;
  eq_of_cmp = λ a b h. ap (λ v. record { value = v }) (eq_of_cmp_list a.value b.value h);
  gt_of_lt = λ a b. gt_of_lt_list a.value b.value;
  lt_of_gt = λ a b. lt_of_gt_list a.value b.value;
  lt_trans = λ a b c. lt_trans_list a.value b.value c.value;
}

-- `return Err(..)` behind a test.
abbrev pub refuse_if : Bool → Error → M (Unit {0})
refuse_if test e = lift (fail_if test e)

-- `SketchSemanticDocument::validate_root`.
unfoldable pub validate_root : SketchSemanticDocument → Location → Result Error (Unit {0})
validate_root input location =
    fail_if (is_empty (trim input.root)) (parse_failed location root_must_not_be_empty)

abbrev pub ContractFiles : Type 0
ContractFiles = SortedMap CatalogPath (Unit {0})

-- `ContractFiles::from_input`, from a position of the list.
unfoldable pub contract_files : ℕ → List Text → Location → ContractFiles → M ContractFiles
contract_files index [] location paths = pure paths
contract_files index (value ∷ rest) location paths = do
  checkpoint_at index
  path ←
      lift (map_err (λ e. parse_failed location (files_contains_invalid_path e)) (Path.new value))
  refuse_if (contains_key path paths) (parse_failed location (duplicate_contract_file path))
  contract_files (index + 1) rest location (insert path tt paths)

pub record SignatureIndexEntry : Type 0 where
  pub label : SignatureLabel
  pub file : CatalogPath
  pub signature_type : SignatureType
  pub sketch_id : Option SketchId

pub record SignatureLink : Type 0 where
  pub label : SignatureLabel
  pub locator : ContractDocumentLocator
  pub file : CatalogPath
  pub signature_type : SignatureType
  pub sketch_id : SketchId

pub record SketchDeclaration : Type 0 where
  pub id : SketchId
  pub locator : ContractDocumentLocator
  pub file : CatalogPath
  pub signature : SignatureLabel
  pub signature_type : SignatureType
  pub policy : SketchMatchPolicy
  pub snippet : SketchSnippet

-- The id that a signature links to, if it has one.
unfoldable pub linked_id : Option Text → ℕ → Location → Result Error (Option SketchId)
linked_id none maximum location = ok none
linked_id (some value) maximum location = elim (new_id value maximum) [
  | ok id ↦ ok (some id)
  | err e ↦ err (invalid_sketch_id location e)
]

-- `SignatureIndexEntry::from_yaml`.
unfoldable pub index_signature :
    SketchSemanticSignature
    → CatalogPath
    → Location
    → ContractFiles
    → MatchingLimits
    → M SignatureIndexEntry
index_signature value catalog_name location files limits = do
  checkpoint
  label ← lift (new_label value.label location)
  checkpoint
  file ← lift (
      map_err (λ e. parse_failed location (invalid_file (of_signature label.value) e))
        (Path.new value.file))
  refuse_if (not (contains_key file files))
      (parse_failed location (references_unlisted_file (of_signature label.value) file))
  signature_type ← lift (new_type value.signature_type location (of_signature label.value))
  checkpoint
  sketch_id ←
      lift (
        linked_id value.sketch (sketch_id_maximum limits) (signature_link catalog_name label.value))
  pure (record {
    label = label;
    file = file;
    signature_type = signature_type;
    sketch_id = sketch_id;
  })

-- `SignatureIndexEntry::into_link`, on its parts.
abbrev pub into_link :
    SignatureIndexEntry → Option SketchId → ContractDocumentLocator → Option SignatureLink
into_link entry none locator = none
into_link entry (some id) locator = some (record {
  label = entry.label;
  locator = locator;
  file = entry.file;
  signature_type = entry.signature_type;
  sketch_id = id;
})

-- `SketchDeclaration::from_yaml`.
unfoldable pub declare_sketch :
    SketchYamlInput
    → ContractDocumentLocator
    → Location
    → ContractFiles
    → MatchingLimits
    → M SketchDeclaration
declare_sketch value locator location files limits = do
  checkpoint
  id ← lift (
      map_err (invalid_sketch_id (sketch_declaration locator.contract_file locator.document_index))
        (new_id value.id (sketch_id_maximum limits)))
  checkpoint
  file ← lift (
      map_err (λ e. parse_failed location (invalid_file (of_sketch id.value) e))
        (Path.new value.file))
  refuse_if (not (contains_key file files))
      (parse_failed location (references_unlisted_file (of_sketch id.value) file))
  checkpoint
  signature ← lift (new_label value.signature location)
  signature_type ← lift (new_type value.signature_type location (of_sketch id.value))
  checkpoint
  snippet ← new_snippet (as_bytes value.code) value.matching.normalization locator id.value limits
  pure (record {
    id = id;
    locator = locator;
    file = file;
    signature = signature;
    signature_type = signature_type;
    policy = value.matching;
    snippet = snippet;
  })

-- The local variables of `contracts` that the loops over the documents fill.
pub record Collected : Type 0 where
  pub sketches : SortedMap SketchId SketchDeclaration
  pub links : SortedMap SketchId (List SignatureLink)
  pub signature_count : ℕ

abbrev pub add_link :
    Option SignatureLink
    → SortedMap SketchId (List SignatureLink)
    → SortedMap SketchId (List SignatureLink)
add_link none links = links
add_link (some link) links = push_at link.sketch_id link links

module _ (limits : MatchingLimits) where
  -- The loop over the signatures of a document.
  unfoldable pub collect_signatures :
      ContractDocumentLocator
      → ContractFiles
      → ℕ
      → List SketchSemanticSignature
      → SortedMap SignatureLabel (Unit {0})
      → Collected
      → M Collected
  collect_signatures locator files index [] labels c = pure c
  collect_signatures locator files index (value ∷ rest) labels c = do
    checkpoint_at index
    let count = saturating_add c.signature_count 1
    limited (validate_signature_index_entry_count limits count (some locator.contract_file))
    signature ← index_signature value locator.contract_file (shown locator) files limits
    refuse_if (contains_key signature.label labels)
        (parse_failed (shown locator) (duplicate_signature_label signature.label.value))
    collect_signatures locator files (index + 1) rest (insert signature.label tt labels) (record c {
      links = add_link (into_link signature signature.sketch_id locator) c.links;
      signature_count = count;
    })

  abbrev pub refuse_duplicate : SketchId → Location → Option SketchDeclaration → M (Unit {0})
  refuse_duplicate id location none = pure tt
  refuse_duplicate id location (some previous) =
      raise (parse_failed location (duplicate_sketch_id previous.id.value (shown previous.locator)))

  -- The loop over the sketches of a document.
  unfoldable pub collect_sketches :
      ContractDocumentLocator → ContractFiles → ℕ → List SketchYamlInput → Collected → M Collected
  collect_sketches locator files index [] c = pure c
  collect_sketches locator files index (value ∷ rest) c = do
    checkpoint_at index
    sketch ← declare_sketch value locator (shown locator) files limits
    refuse_duplicate sketch.id (shown locator) (get sketch.id c.sketches)
    let sketches = insert sketch.id sketch c.sketches
    limited (validate_sketch_count limits (length sketches) (some locator.contract_file))
    collect_sketches locator files (index + 1) rest (record c { sketches = sketches })

  unfoldable pub collect_documents :
      CatalogPath → List SketchContractDocument → Collected → M Collected
  collect_documents catalog_name [] c = pure c
  collect_documents catalog_name (d ∷ rest) c = do
    checkpoint
    let locator : ContractDocumentLocator = record {
      contract_file = catalog_name;
      document_index = d.index;
    }
    lift (validate_root d.semantic (shown locator))
    files ← contract_files 0 d.semantic.files (shown locator) []
    with_signatures ← collect_signatures locator files 0 d.semantic.signatures [] c
    with_sketches ← collect_sketches locator files 0 d.semantic.sketches with_signatures
    collect_documents catalog_name rest with_sketches

  unfoldable pub collect_files : SortedMap CatalogPath SketchContractFile → Collected → M Collected
  collect_files [] c = pure c
  collect_files ((catalog_name, file) ∷ rest) c = do
    collected ← collect_documents catalog_name file.documents c
    collect_files rest collected

-- `SketchContract::from_link`.
abbrev pub from_link : SketchDeclaration → SignatureLink → SketchContract
from_link sketch link = record {
  id = sketch.id;
  locator = sketch.locator;
  file = link.file;
  linked_signature = link.label;
  signature_type = sketch.signature_type;
  policy = sketch.policy;
  snippet = sketch.snippet;
}

abbrev pub same_locator : ContractDocumentLocator → ContractDocumentLocator → Bool
same_locator a b = (a.contract_file === b.contract_file) && (a.document_index === b.document_index)

-- The checks of a sketch against its only link.
unfoldable pub check_link : SketchDeclaration → SignatureLink → Result Error SketchContract
check_link sketch link =
    if not (same_locator link.locator sketch.locator)
    then err (
        parse_failed (shown link.locator)
          (links_to_another_document link.label.value sketch.id.value (shown sketch.locator)))
    else if not (link.file === sketch.file)
    then err (
        parse_failed (shown sketch.locator)
          (file_does_not_match sketch.id.value sketch.file link.label.value link.file))
    else if not (link.label.value === sketch.signature.value)
    then err (
        parse_failed (shown sketch.locator)
          (signature_does_not_match sketch.id.value sketch.signature.value link.label.value))
    else if not (link.signature_type.value === sketch.signature_type.value)
    then err (
        parse_failed (shown sketch.locator) (
          type_does_not_match sketch.id.value sketch.signature_type.value link.label.value
            link.signature_type.value))
    else ok (from_link sketch link)

-- The links of a sketch, as `links.remove` finds them: there is one, and it fits.
unfoldable pub link_sketch :
    SketchDeclaration → Option (List SignatureLink) → Result Error SketchContract
unfolding check_link
link_sketch sketch none = err (parse_failed (shown sketch.locator) (orphan_sketch sketch.id.value))
link_sketch sketch (some (link ∷ [])) = check_link sketch link
link_sketch sketch (some _) =
    err (parse_failed (shown sketch.locator) (referenced_more_than_once sketch.id.value))

-- The loop that pairs the sketches with their links.
unfoldable pub link_sketches :
    ℕ
    → SortedMap SketchId SketchDeclaration
    → SortedMap SketchId (List SignatureLink)
    → M (List SketchContract × SortedMap SketchId (List SignatureLink))
link_sketches index [] links = pure ([], links)
link_sketches index ((sketch_id, sketch) ∷ rest) links = do
  checkpoint_at index
  contract ← lift (link_sketch sketch (get sketch_id links))
  (entries, remaining) ← link_sketches (index + 1) rest (remove sketch_id links)
  pure (contract ∷ entries, remaining)

-- The first link that no sketch has taken.
unfoldable pub refuse_remaining : SortedMap SketchId (List SignatureLink) → Result Error (Unit {0})
refuse_remaining [] = ok tt
refuse_remaining ((sketch_id, []) ∷ rest) = err (conversion_failed link_collection_was_empty)
refuse_remaining ((sketch_id, link ∷ more) ∷ rest) =
    err (
      parse_failed (shown link.locator)
        (references_missing_sketch link.label.value sketch_id.value))

unfoldable pub document_count : SortedMap CatalogPath SketchContractFile → ℕ
document_count [] = 0
document_count ((name, file) ∷ rest) = length file.documents + document_count rest

-- `SketchContractDocuments::contracts`.
unfoldable pub resolve :
    SortedMap CatalogPath SketchContractFile → MatchingLimits → M SketchContracts
resolve files limits = do
  c ← collect_files limits files (record { sketches = []; links = []; signature_count = 0 })
  (entries, remaining) ← link_sketches 0 c.sketches c.links
  lift (refuse_remaining remaining)
  pure (record { entries = entries; contract_document_count = document_count files })
