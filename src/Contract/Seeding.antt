-- ===== src/Contract/Seeding.antt =====
-- When a seed agrees with the sketch that it replaces.
use contract_kit.Prelude.{Bool, true, false, not, ◌≡◌, ◌↔◌, ◌==◌, ==_iff, if◌then◌else◌, arith}
use contract_kit.Prelude.Order.{◌===◌, ===_iff, list_ord, nat_ord, cmp_list}
use contract_kit.Prelude.Results.{ok, err}
use contract_kit.Text.{trim, is_empty}
use contract_kit.Path.{path_ord}
use contract_kit.Error.{Error}
use contract_kit.Contract.{SketchContract, SketchSeed, SketchId, validate_seed}

-- A chain of tests, of which each one that fails returns an error.
chain :
    (a b c d e : Bool) (u v x y z : Error)
    → ((if a
          then err u
          else if not b
          then err v
          else if not c
          then err x
          else if not d
          then err y
          else if not e
          then err z
          else ok tt)
        ≡ ok (tt {0}))
      ↔ (a ≡ false × b ≡ true × c ≡ true × d ≡ true × e ≡ true)
chain a b c d e u v x y z = ground arith

-- A seed is accepted exactly when its signature type is not blank and it has the sketch's contract
-- file, document index, source file and signature type, each without any normalization.
pub validate_seed_iff :
    (contract : SketchContract) (seed : SketchSeed) (id : SketchId)
    → (validate_seed contract seed id ≡ ok tt) ↔ (
        is_empty (trim seed.signature_type) ≡ false
        × seed.contract_file ≡ contract.locator.contract_file
        × seed.document_index ≡ contract.locator.document_index
        × seed.file ≡ contract.file
        × seed.signature_type ≡ contract.signature_type.value)
unfolding validate_seed cmp_list
validate_seed_iff contract seed id =
    let tests =
      chain (is_empty (trim seed.signature_type))
        (seed.contract_file === contract.locator.contract_file)
        (seed.document_index == contract.locator.document_index) (seed.file === contract.file)
        (seed.signature_type === contract.signature_type.value) _ _ _ _ _ in
    let file = ===_iff seed.contract_file contract.locator.contract_file in
    let index = ==_iff seed.document_index contract.locator.document_index in
    let source = ===_iff seed.file contract.file in
    let kind = ===_iff seed.signature_type contract.signature_type.value in
    (
      λ h. let t = tests.0 h in (t.0, file.0 t.1, index.0 t.2, source.0 t.3, kind.0 t.4),
      λ h. tests.1 (h.0, file.1 h.1, index.1 h.2, source.1 h.3, kind.1 h.4),
    )
