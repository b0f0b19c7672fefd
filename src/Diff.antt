-- ===== src/Diff.antt =====
-- conkit-sketch/contract/diff.rs: what changed between two contract catalogs, and the digests.
-- SHA-256 is not the program's: `sha256` stands for the digest of all the bytes that the hasher
-- was updated with.
pub mod Digest
pub mod Framing
pub mod Merge
use Prim.Native.Nat.Ordering.{lt, eq, gt}
use contract_kit.Prelude.{
  ℕ, zero, suc, ◌+◌, ◌/◌, ◌%◌, Bool, true, false, not, Option, none, some, List, [], ◌∷◌, ◌++◌, ltb,
  if◌then◌else◌, length, saturating_add,
}
use contract_kit.Prelude.Order.{Ord, ◌===◌, list_ord, nat_ord, cmp_list}
use contract_kit.Text.{Text, text}
use contract_kit.Path.{CatalogPath, path_ord}
use contract_kit.Work.{M, ◌>>=◌, ◌>>◌, pure, checkpoint_at}
use contract_kit.Normalize.{
  Bytes, NormalizedSnippet, SketchNormalization, exact_lines_v1, line_count, lines, equal_lines,
}
use contract_kit.Contract.{
  SketchContract, SketchContracts, SketchMatchPolicy, SketchOccurrence, at_least_one, exactly_one,
  id_ord,
}
use contract_kit.Contract
use contract_kit.Evidence.{hex_digit}

-- `char::encode_utf8`, of which `str::as_bytes` is made.
abbrev pub encode_utf8 : ℕ → Bytes
encode_utf8 c =
    if ltb c 0x80
    then c ∷ []
    else if ltb c 0x800
    then (0xc0 + c / 0x40) ∷ (0x80 + c % 0x40) ∷ []
    else if ltb c 0x10000
    then (0xe0 + c / 0x1000) ∷ (0x80 + c / 0x40 % 0x40) ∷ (0x80 + c % 0x40) ∷ []
    else (0xf0 + c / 0x40000)
      ∷ (0x80 + c / 0x1000 % 0x40)
      ∷ (0x80 + c / 0x40 % 0x40)
      ∷ (0x80 + c % 0x40)
      ∷ []

abbrev pub as_bytes : Text → Bytes
as_bytes [] = []
as_bytes (c ∷ cs) = encode_utf8 c ++ as_bytes cs

-- The last `n` bytes of a number, the highest first.
abbrev pub big_endian : ℕ → ℕ → Bytes
big_endian zero value = []
big_endian (suc n) value = big_endian n (value / 256) ++ value % 256 ∷ []

-- `u64::to_be_bytes`.
abbrev pub to_be_bytes : ℕ → Bytes
to_be_bytes value = big_endian 8 value

-- `SketchNormalization::as_str` and `SketchOccurrence::as_str`.
abbrev pub normalization_name : SketchNormalization → Text
normalization_name exact_lines_v1 = text "exact_lines_v1"

abbrev pub occurrence_name : SketchOccurrence → Text
occurrence_name at_least_one = text "at_least_one"
occurrence_name exactly_one = text "exactly_one"

-- The hasher, as the bytes that it was updated with.
pub record SketchDigestEncoder : Type 0 where
  pub written : Bytes

unfoldable pub write_field : Bytes → SketchDigestEncoder → SketchDigestEncoder
write_field value encoder = record {
  written = encoder.written ++ to_be_bytes (length value) ++ value;
}

unfoldable pub write_count : ℕ → SketchDigestEncoder → SketchDigestEncoder
unfolding write_field
write_count value encoder = write_field (to_be_bytes value) encoder

unfoldable pub new_encoder : Bytes → SketchDigestEncoder
unfolding write_field
new_encoder domain = write_field domain (record { written = [] })

unfoldable pub write_lines : ℕ → List Bytes → SketchDigestEncoder → M SketchDigestEncoder
unfolding write_field
write_lines index [] encoder = pure encoder
write_lines index (line ∷ rest) encoder = do
  checkpoint_at index
  write_lines (index + 1) rest (write_field line encoder)

unfoldable pub write_normalized : NormalizedSnippet → SketchDigestEncoder → M SketchDigestEncoder
unfolding write_count write_lines
write_normalized normalized encoder =
    write_lines 0 (lines normalized) (write_count (line_count normalized) encoder)

abbrev pub hex : Bytes → Text
hex [] = []
hex (b ∷ bs) = hex_digit (b / 16) ∷ hex_digit (b % 16) ∷ hex bs

unfoldable pub write_semantics : SketchContract → SketchDigestEncoder → M SketchDigestEncoder
unfolding write_field write_normalized
write_semantics contract encoder = write_normalized contract.snippet.normalized (
    write_field (as_bytes (occurrence_name contract.policy.occurrence)) (
      write_field (as_bytes (normalization_name contract.policy.normalization)) (
        write_field (as_bytes contract.signature_type.value) (
          write_field (as_bytes contract.linked_signature.value) (
            write_field (as_bytes contract.file.value)
              (write_field (as_bytes contract.id.value) encoder))))))

unfoldable pub write_contracts :
    ℕ → List SketchContract → SketchDigestEncoder → M SketchDigestEncoder
unfolding write_semantics
write_contracts index [] encoder = pure encoder
write_contracts index (contract ∷ rest) encoder = do
  checkpoint_at index
  written ← write_semantics contract encoder
  write_contracts (index + 1) rest written

-- api.rs: what a diff shows of a sketch.
pub record SketchSnapshot : Type 0 where
  pub sketch_id : Text
  pub contract_file : CatalogPath
  pub document_index : ℕ
  pub source_file : CatalogPath
  pub linked_signature : Text
  pub signature_type : Text
  pub matching : SketchMatchPolicy
  pub code_digest : Text

pub data SketchField : Type 0 where
  source_file linked_signature signature_type occurrence code : SketchField

pub data DiffEntry : Type 0 where
  added removed : SketchSnapshot → DiffEntry
  changed : SketchSnapshot → SketchSnapshot → List SketchField → DiffEntry

pub record DiffResponse : Type 0 where
  pub contract_digest : Text
  pub digest_version : ℕ
  pub entries : List DiffEntry

-- `DiffResponse::changed`.
abbrev pub is_changed : DiffResponse → Bool
is_changed response = elim response.entries [ [] ↦ false | e ∷ es ↦ true ]

abbrev pub same_occurrence : SketchOccurrence → SketchOccurrence → Bool
same_occurrence at_least_one at_least_one = true
same_occurrence exactly_one exactly_one = true
same_occurrence _ _ = false

-- `if a != b { fields.push(field) }`, in front of the later ones.
abbrev pub unless : Bool → SketchField → List SketchField → List SketchField
unless true field fields = fields
unless false field fields = field ∷ fields

-- `SketchContract::changed_fields`.
unfoldable pub changed_fields : SketchContract → SketchContract → List SketchField
unfolding cmp_list
changed_fields current previous = unless (current.file === previous.file) source_file (
    unless (current.linked_signature.value === previous.linked_signature.value) linked_signature (
      unless (current.signature_type.value === previous.signature_type.value) signature_type (
        unless (same_occurrence current.policy.occurrence previous.policy.occurrence) occurrence
          (unless (equal_lines current.snippet.normalized previous.snippet.normalized) code []))))

module _ (sha256 : Bytes → Bytes) where
  abbrev pub finish : SketchDigestEncoder → Text
  finish encoder = hex (sha256 encoder.written)

  -- `SketchContract::code_digest`.
  unfoldable pub code_digest : SketchContract → M Text
  unfolding new_encoder write_field write_normalized
  code_digest contract = do
    encoder ← write_normalized contract.snippet.normalized (
        write_field (as_bytes (normalization_name contract.policy.normalization))
          (new_encoder (as_bytes (text "conkit-sketch:v2:code"))))
    pure (finish encoder)

  abbrev pub shown : SketchContract → Text → SketchSnapshot
  shown contract digest = record {
    sketch_id = contract.id.value;
    contract_file = contract.locator.contract_file;
    document_index = contract.locator.document_index;
    source_file = contract.file;
    linked_signature = contract.linked_signature.value;
    signature_type = contract.signature_type.value;
    matching = contract.policy;
    code_digest = digest;
  }

  -- `SketchContract::snapshot`.
  unfoldable pub snapshot : SketchContract → M SketchSnapshot
  unfolding code_digest
  snapshot contract = do digest ← code_digest contract; pure (shown contract digest)

  -- The arms of the match: the entries with what one id adds to them.
  unfoldable pub push_added : SketchContract → List DiffEntry → M (List DiffEntry)
  push_added current entries = do snap ← snapshot current; pure (entries ++ added snap ∷ [])

  unfoldable pub push_removed : SketchContract → List DiffEntry → M (List DiffEntry)
  push_removed previous entries = do snap ← snapshot previous; pure (entries ++ removed snap ∷ [])

  abbrev pub push_fields :
      List SketchField → SketchContract → SketchContract → List DiffEntry → M (List DiffEntry)
  push_fields [] current previous entries = pure entries
  push_fields (field ∷ fields) current previous entries = do
    before ← snapshot previous
    after ← snapshot current
    pure (entries ++ changed before after (field ∷ fields) ∷ [])

  unfoldable pub push_changed :
      SketchContract → SketchContract → List DiffEntry → M (List DiffEntry)
  unfolding changed_fields
  push_changed current previous entries =
      push_fields (changed_fields current previous) current previous entries

  -- The `while` loop of `diff_against` on the contracts that are left on both sides. Each round
  -- takes one at least, so their number is enough rounds.
  unfoldable pub merge :
      ℕ → ℕ → List SketchContract → List SketchContract → List DiffEntry → M (List DiffEntry)
  merge rounds processed [] [] entries = pure entries
  merge zero processed (c ∷ cs) ps entries = pure entries
  merge zero processed [] (p ∷ ps) entries = pure entries
  merge (suc rounds) processed (c ∷ cs) [] entries = do
    checkpoint_at processed
    pushed ← push_added c entries
    merge rounds (saturating_add processed 1) cs [] pushed
  merge (suc rounds) processed [] (p ∷ ps) entries = do
    checkpoint_at processed
    pushed ← push_removed p entries
    merge rounds (saturating_add processed 1) [] ps pushed
  merge (suc rounds) processed (c ∷ cs) (p ∷ ps) entries = do
    checkpoint_at processed
    elim (id_ord.cmp c.id p.id) [
      | lt ↦ push_added c entries >>= merge rounds (saturating_add processed 1) cs (p ∷ ps)
      | eq ↦ push_changed c p entries >>= merge rounds (saturating_add processed 1) cs ps
      | gt ↦ push_removed p entries >>= merge rounds (saturating_add processed 1) (c ∷ cs) ps
    ]

  -- `SketchContracts::contract_digest`.
  unfoldable pub contract_digest : SketchContracts → M Text
  unfolding new_encoder write_count write_contracts
  contract_digest contracts = do
    encoder ← write_contracts 0 contracts.entries (
        write_count (Contract.len contracts)
          (new_encoder (as_bytes (text "conkit-sketch:v2:contract"))))
    pure (finish encoder)

  -- `SketchContracts::diff_against`.
  unfoldable pub diff_against : SketchContracts → SketchContracts → M DiffResponse
  unfolding merge contract_digest
  diff_against current previous = do
    entries ←
        merge (Contract.len current + Contract.len previous) 0 current.entries previous.entries []
    digest ← contract_digest current
    pure (record { contract_digest = digest; digest_version = 2; entries = entries })
