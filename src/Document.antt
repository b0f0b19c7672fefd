-- ===== src/Document.antt =====
-- conkit-sketch/contract/document.rs: the documents of the contract files, as far as sketches are
-- concerned.
pub mod Stream
pub mod Parsing
use contract_kit.Prelude.{
  ℕ, ◌+◌, Bool, true, false, not, ◌&&◌, Option, none, some, List, [], ◌∷◌, ◌==◌,
}
use contract_kit.Prelude.Results.{Result, ok, err, fail_if}
use contract_kit.Text.{Text}
use contract_kit.Path.{CatalogPath}
use contract_kit.SortedMap.{SortedMap}
use contract_kit.Error.{
  Error, Location, document, parse_failed, unsupported_contract_version, not_one_named_signature,
  requires_extraction,
}
use contract_kit.Work.{M, ◌>>=◌, ◌>>◌, pure, lift, checkpoint_at}
use contract_kit.Normalize.{Bytes}
use contract_kit.Contract.{SketchMatchPolicy}

pub record SketchSignatureInput : Type 0 where
  pub file : Text
  pub signature_type : Text
  pub sketch : Option Text

pub record SketchYamlInput : Type 0 where
  pub id : Text
  pub file : Text
  pub signature : Text
  pub signature_type : Text
  pub matching : SketchMatchPolicy
  pub code : Text

-- What the typed parser makes of one document; the content of `extraction` is ignored.
pub record SketchYamlDocumentInput : Type 0 where
  pub contract_version : Option ℕ
  pub root : Text
  pub files : List Text
  pub extraction : Option (Unit {0})
  pub signatures : List (SortedMap Text SketchSignatureInput)
  pub sketches : List SketchYamlInput

pub record SketchSemanticSignature : Type 0 where
  pub label : Text
  pub file : Text
  pub signature_type : Text
  pub sketch : Option Text

pub record SketchSemanticDocument : Type 0 where
  pub root : Text
  pub files : List Text
  pub signatures : List SketchSemanticSignature
  pub sketches : List SketchYamlInput

pub record SketchContractDocument : Type 0 where
  pub index : ℕ
  pub semantic : SketchSemanticDocument

pub record SketchContractFile : Type 0 where
  pub catalog_name : CatalogPath
  pub original_bytes : Bytes
  pub documents : List SketchContractDocument

-- `SketchSemanticSignature::from_input`.
unfoldable pub signature_from_entry :
    SortedMap Text SketchSignatureInput → Location → Result Error SketchSemanticSignature
signature_from_entry [] location = err (parse_failed location not_one_named_signature)
signature_from_entry ((label, input) ∷ []) location = ok (record {
  label = label;
  file = input.file;
  signature_type = input.signature_type;
  sketch = input.sketch;
})
signature_from_entry _ location = err (parse_failed location not_one_named_signature)

-- The loop over the signatures of `SketchContractDocument::from_input`.
unfoldable pub signatures_from_entries :
    ℕ → List (SortedMap Text SketchSignatureInput) → Location → M (List SketchSemanticSignature)
signatures_from_entries index [] location = pure []
signatures_from_entries index (entry ∷ rest) location = do
  checkpoint_at index
  signature ← lift (signature_from_entry entry location)
  signatures ← signatures_from_entries (index + 1) rest location
  pure (signature ∷ signatures)

abbrev pub same_version : Option ℕ → Bool
same_version none = false
same_version (some version) = version == 2

abbrev pub is_none : {A : Type 0} → Option A → Bool
is_none none = true
is_none (some a) = false

abbrev pub is_nil : {A : Type 0} → List A → Bool
is_nil [] = true
is_nil (x ∷ xs) = false

-- `SketchContractDocument::from_input`; `CONTRACT_VERSION` is 2.
unfoldable pub document_from_input :
    SketchYamlDocumentInput → CatalogPath → ℕ → M SketchContractDocument
document_from_input input catalog_name index = do
  checkpoint_at index
  let location = document catalog_name index
  lift (
      fail_if (not (same_version input.contract_version))
        (unsupported_contract_version location input.contract_version))
  lift (
      fail_if (not (is_nil input.signatures) && is_none input.extraction)
        (parse_failed location requires_extraction))
  signatures ← signatures_from_entries 0 input.signatures location
  pure (record {
    index = index;
    semantic = record {
      root = input.root;
      files = input.files;
      signatures = signatures;
      sketches = input.sketches;
    };
  })

-- The loop over the documents of `SketchContractFile::parse`.
unfoldable pub documents_from_inputs :
    ℕ → List SketchYamlDocumentInput → CatalogPath → M (List SketchContractDocument)
documents_from_inputs index [] catalog_name = pure []
documents_from_inputs index (input ∷ rest) catalog_name = do
  checkpoint_at index
  d ← document_from_input input catalog_name index
  ds ← documents_from_inputs (index + 1) rest catalog_name
  pure (d ∷ ds)
