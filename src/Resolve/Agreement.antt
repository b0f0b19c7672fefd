-- ===== src/Resolve/Agreement.antt =====
-- When a sketch and the only signature that names it fit together.
use contract_kit.Prelude.{◌≡◌, ◌↔◌, Bool, true, not, arith, refl, if◌then◌else◌}
use contract_kit.Prelude.Order.{◌===◌, ===_iff, list_ord, nat_ord}
use contract_kit.Prelude.Results.{ok, err}
use contract_kit.Path.{path_ord}
use contract_kit.Error.{Error}
use contract_kit.Contract.{SketchContract, ContractDocumentLocator}
use contract_kit.Resolve.{SignatureLink, SketchDeclaration, check_link, from_link, same_locator}
use contract_kit.Resolve.Linking.{same_locator-eq}

-- A chain of tests, of which each one that fails returns an error.
chain :
    (a b c d : Bool) (x : SketchContract) (u v w z : Error)
    → ((if not a
          then err u
          else if not b
          then err v
          else if not c
          then err w
          else if not d
          then err z
          else ok x)
        ≡ ok x)
      ↔ (a ≡ true × b ≡ true × c ≡ true × d ≡ true)
chain a b c d x u v w z = ground arith

same_locator_iff : (a b : ContractDocumentLocator) → (same_locator a b ≡ true) ↔ (a ≡ b)
same_locator_iff a b =
    let file = (===_iff b.contract_file b.contract_file).1 refl in
    let index = (===_iff b.document_index b.document_index).1 refl in
    (same_locator-eq a b, λ e. rw (e, file, index) refl)

-- A sketch is paired with its link exactly when both stand in the same document, and have the same
-- file, label and signature type, as they are read.
pub check_link_iff :
    (d : SketchDeclaration) (l : SignatureLink)
    → (check_link d l ≡ ok (from_link d l)) ↔ (
        l.locator ≡ d.locator
        × l.file ≡ d.file
        × l.label.value ≡ d.signature.value
        × l.signature_type.value ≡ d.signature_type.value)
unfolding check_link
check_link_iff d l =
    let tests =
      chain (same_locator l.locator d.locator) (l.file === d.file)
        (l.label.value === d.signature.value) (l.signature_type.value === d.signature_type.value)
        (from_link d l) _ _ _ _ in
    let place = same_locator_iff l.locator d.locator in
    let file = ===_iff l.file d.file in
    let label = ===_iff l.label.value d.signature.value in
    let kind = ===_iff l.signature_type.value d.signature_type.value in
    (
      λ h. let t = tests.0 h in (place.0 t.0, file.0 t.1, label.0 t.2, kind.0 t.3),
      λ h. tests.1 (place.1 h.0, file.1 h.1, label.1 h.2, kind.1 h.3),
    )
