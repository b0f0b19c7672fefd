-- ===== src/Resolve/Placed.antt =====
-- The sketches and the linking signatures of the contract files, with the documents they stand in.

use contract_kit.Prelude.{◌≡◌, Option, none, some, List, [], ◌∷◌, ◌++◌}
use contract_kit.SortedMap.{SortedMap}
use contract_kit.Text.{Text, trim}
use contract_kit.Path.{CatalogPath, path_ord}
use contract_kit.Contract.{id_ord, ContractDocumentLocator}
use contract_kit.Document.{
  SketchYamlInput, SketchSemanticSignature, SketchContractDocument, SketchContractFile,
}
use contract_kit.Resolve.{SignatureLink, label_ord}

abbrev pub Placed : Type 0 → Type 0
Placed A = ContractDocumentLocator × A

abbrev pub place : {A : Type 0} → ContractDocumentLocator → List A → List (Placed A)
place locator [] = []
place locator (v ∷ vs) = (locator, v) ∷ place locator vs

-- The signature itself, if it names a sketch.
abbrev pub if_linking :
    ContractDocumentLocator
    → SketchSemanticSignature
    → Option Text
    → List (Placed SketchSemanticSignature)
if_linking locator v none = []
if_linking locator v (some id) = (locator, v) ∷ []

abbrev pub linking :
    ContractDocumentLocator → List SketchSemanticSignature → List (Placed SketchSemanticSignature)
linking locator [] = []
linking locator (v ∷ vs) = if_linking locator v v.sketch ++ linking locator vs

abbrev pub locator_of : CatalogPath → SketchContractDocument → ContractDocumentLocator
locator_of name d = record { contract_file = name; document_index = d.index }

abbrev pub sketches_of_documents :
    CatalogPath → List SketchContractDocument → List (Placed SketchYamlInput)
sketches_of_documents name [] = []
sketches_of_documents name (d ∷ ds) =
    place (locator_of name d) d.semantic.sketches ++ sketches_of_documents name ds

abbrev pub links_of_documents :
    CatalogPath → List SketchContractDocument → List (Placed SketchSemanticSignature)
links_of_documents name [] = []
links_of_documents name (d ∷ ds) =
    linking (locator_of name d) d.semantic.signatures ++ links_of_documents name ds

-- All sketches of the contract files, in order.
abbrev pub sketches_of : SortedMap CatalogPath SketchContractFile → List (Placed SketchYamlInput)
sketches_of [] = []
sketches_of ((name, file) ∷ rest) = sketches_of_documents name file.documents ++ sketches_of rest

-- All signatures of the contract files that name a sketch, in order.
abbrev pub links_of :
    SortedMap CatalogPath SketchContractFile → List (Placed SketchSemanticSignature)
links_of [] = []
links_of ((name, file) ∷ rest) = links_of_documents name file.documents ++ links_of rest

-- What a signature's link is read as.
pub record LinksAs (at : Placed SketchSemanticSignature) (l : SignatureLink) : Type 0 where
  pub same_label : l.label.value ≡ trim at.1.label
  pub same_place : l.locator ≡ at.0
  pub same_file : l.file.value ≡ at.1.file
  pub same_type : l.signature_type.value ≡ trim at.1.signature_type
  pub same_sketch : some l.sketch_id.value ≡ at.1.sketch
