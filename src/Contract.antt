-- ===== src/Contract.antt =====
-- conkit-sketch/id.rs and contract/model.rs: the identity of a sketch, its matching policy, and
-- the contracts that the documents resolve to.
pub mod Identity
pub mod Seeding
use contract_kit.Prelude.{
  ℕ, Bool, true, false, not, ◌||◌, Option, none, some, List, [], ◌∷◌, ltb, ◌==◌, if◌then◌else◌,
  length, ap, ◌≡◌,
}
use contract_kit.Prelude.Order.{
  Ord, nat_ord, list_ord, cmp_list, cmp_list_refl, eq_of_cmp_list, gt_of_lt_list, lt_of_gt_list,
  lt_trans_list, ◌===◌,
}
use contract_kit.Prelude.Results
use contract_kit.Prelude.Results.{Result, ok, err}
use contract_kit.Text
use contract_kit.Text.{Text, trim, byte_len, find_control}
use contract_kit.Path.{CatalogPath, path_ord}
use contract_kit.Error.{
  Error, Location, Message, Subject, SketchIdError, empty, surrounding_whitespace, too_long,
  control_character, document, parse_failed, conversion_failed, label_must_not_be_empty,
  signature_type_must_not_be_empty, code_must_not_be_empty, seed_type_must_not_be_empty,
  seed_targets_document, seed_targets_index, seed_targets_source, seed_has_type,
}
use contract_kit.Limits.Matching.{MatchingLimits}
use contract_kit.Work.{M, ◌>>=◌, ◌>>◌, pure, raise, lift}
use contract_kit.Normalize
use contract_kit.Normalize.{Bytes, NormalizedSnippet, SketchNormalization, normalize_snippet}

pub record SketchId : Type 0 where
  pub value : Text

instance abbrev pub id_ord : Ord SketchId
id_ord = record {
  cmp = λ a b. cmp_list a.value b.value;
  cmp_refl = λ a. cmp_list_refl a.value;
  eq_of_cmp = λ a b h. ap (λ v. record { value = v }) (eq_of_cmp_list a.value b.value h);
  gt_of_lt = λ a b. gt_of_lt_list a.value b.value;
  lt_of_gt = λ a b. lt_of_gt_list a.value b.value;
  lt_trans = λ a b c. lt_trans_list a.value b.value c.value;
}

-- `if let Some((index, _)) = ..find(..)`.
abbrev pub no_control : Text → Option ℕ → Result SketchIdError SketchId
no_control value (some index) = err (control_character value index)
no_control value none = ok (record { value = value })

-- `SketchId::new`.
unfoldable pub new_id : Text → ℕ → Result SketchIdError SketchId
unfolding trim byte_len find_control cmp_list
new_id value maximum_bytes =
    if Text.is_empty value
    then err (empty value)
    else if not (trim value === value)
    then err (surrounding_whitespace value)
    else if ltb maximum_bytes (byte_len value)
    then err (too_long value maximum_bytes (byte_len value))
    else no_control value (find_control 0 value)

pub data SketchOccurrence : Type 0 where
  at_least_one exactly_one : SketchOccurrence

pub record SketchMatchPolicy : Type 0 where
  pub normalization : SketchNormalization
  pub occurrence : SketchOccurrence

pub record ContractDocumentLocator : Type 0 where
  pub contract_file : CatalogPath
  pub document_index : ℕ

-- The locator's `Display`.
abbrev pub shown : ContractDocumentLocator → Location
shown locator = document locator.contract_file locator.document_index

pub record SignatureLabel : Type 0 where
  pub value : Text

-- `SignatureLabel::new`.
unfoldable pub new_label : Text → Location → Result Error SignatureLabel
new_label value location =
    if Text.is_empty (trim value)
    then err (parse_failed location label_must_not_be_empty)
    else ok (record { value = trim value })

pub record SignatureType : Type 0 where
  pub value : Text

-- `SignatureType::from_contract`.
unfoldable pub new_type : Text → Location → Subject → Result Error SignatureType
new_type value location subject =
    if Text.is_empty (trim value)
    then err (parse_failed location (signature_type_must_not_be_empty subject))
    else ok (record { value = trim value })

pub record SketchSnippet : Type 0 where
  pub normalized : NormalizedSnippet

-- `code.as_bytes()` is the encoding, which is given: the code of a document is its bytes.
unfoldable pub new_snippet :
    Bytes → SketchNormalization → ContractDocumentLocator → Text → MatchingLimits → M SketchSnippet
new_snippet code normalization locator sketch_id limits = do
  normalized ← normalize_snippet normalization code limits locator.contract_file
  if Normalize.is_empty normalized
      then raise (parse_failed (shown locator) (code_must_not_be_empty sketch_id))
      else pure (record { normalized = normalized })

pub record SketchContract : Type 0 where
  pub id : SketchId
  pub locator : ContractDocumentLocator
  pub file : CatalogPath
  pub linked_signature : SignatureLabel
  pub signature_type : SignatureType
  pub policy : SketchMatchPolicy
  pub snippet : SketchSnippet

pub record SketchContracts : Type 0 where
  pub entries : List SketchContract
  pub contract_document_count : ℕ

-- The entry with this id. The source searches its ascending slice by bisection.
unfoldable pub find_id : SketchId → List SketchContract → Option SketchContract
find_id id [] = none
find_id id (contract ∷ rest) = if contract.id === id then some contract else find_id id rest

abbrev pub get : SketchContracts → SketchId → Option SketchContract
get contracts id = find_id id contracts.entries

abbrev pub len : SketchContracts → ℕ
len contracts = length contracts.entries

-- api.rs: one replacement of a sketch's code.
pub record SketchSeed : Type 0 where
  pub contract_file : CatalogPath
  pub document_index : ℕ
  pub sketch_id : Text
  pub signature_type : Text
  pub file : CatalogPath
  pub code : Bytes

-- `SketchContract::validate_seed`.
unfoldable pub validate_seed : SketchContract → SketchSeed → SketchId → Result Error (Unit {0})
unfolding cmp_list
validate_seed contract seed id =
    if Text.is_empty (trim seed.signature_type)
    then err (conversion_failed (seed_type_must_not_be_empty id.value))
    else if not (seed.contract_file === contract.locator.contract_file)
    then err (
        conversion_failed
          (seed_targets_document id.value seed.contract_file contract.locator.contract_file))
    else if not (seed.document_index == contract.locator.document_index)
    then err (
        conversion_failed
          (seed_targets_index id.value seed.document_index contract.locator.document_index))
    else if not (seed.file === contract.file)
    then err (conversion_failed (seed_targets_source id.value seed.file contract.file))
    else if not (seed.signature_type === contract.signature_type.value)
    then err (
        conversion_failed
          (seed_has_type id.value seed.signature_type contract.signature_type.value))
    else ok tt
