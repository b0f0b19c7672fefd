-- ===== src/Diff/Digest.antt =====
-- The digests as functions of the contracts: the hash of their fields, each behind its length.
use contract_kit.Prelude.{ℕ, ◌+◌, ◌≡◌, refl, ap, ◌∙◌, List, [], ◌∷◌}
use contract_kit.Text.{Text, text}
use contract_kit.Work.Outcome.{Polls, Polls-pure, Polls-bind, Polls-weaken, Polls-checkpoint_at}
use contract_kit.Normalize.{Bytes, NormalizedSnippet, line_count, lines}
use contract_kit.Contract.{SketchContract, SketchContracts, len}
use contract_kit.Diff.{
  SketchDigestEncoder, write_field, write_count, new_encoder, write_lines, write_normalized,
  SketchSnapshot, shown, code_digest, snapshot, finish, as_bytes, normalization_name,
  occurrence_name, write_semantics, write_contracts, contract_digest,
}

-- The lines behind each other, each behind its length.
abbrev pub frames : List Bytes → SketchDigestEncoder → SketchDigestEncoder
frames [] encoder = encoder
frames (line ∷ rest) encoder = frames rest (write_field line encoder)

write_lines-frames :
    (index : ℕ) (rest : List Bytes) (encoder : SketchDigestEncoder)
    → Polls (λ e. e ≡ frames rest encoder) (write_lines index rest encoder)
unfolding write_lines
write_lines-frames index [] encoder = Polls-pure (λ e. e ≡ encoder) encoder refl
write_lines-frames index (line ∷ rest) encoder =
    Polls-checkpoint_at (λ e. e ≡ frames rest (write_field line encoder)) index _
      (write_lines-frames (index + 1) rest (write_field line encoder))

-- The number of the lines and the lines.
abbrev pub code_frames : NormalizedSnippet → SketchDigestEncoder → SketchDigestEncoder
code_frames normalized encoder =
    frames (lines normalized) (write_count (line_count normalized) encoder)

-- The fields of a contract that have a meaning, the code last.
abbrev pub contract_frames : SketchContract → SketchDigestEncoder → SketchDigestEncoder
contract_frames contract encoder = code_frames contract.snippet.normalized (
    frames
      (as_bytes contract.id.value
        ∷ as_bytes contract.file.value
        ∷ as_bytes contract.linked_signature.value
        ∷ as_bytes contract.signature_type.value
        ∷ as_bytes (normalization_name contract.policy.normalization)
        ∷ as_bytes (occurrence_name contract.policy.occurrence)
        ∷ [])
      encoder)

abbrev pub all_frames : List SketchContract → SketchDigestEncoder → SketchDigestEncoder
all_frames [] encoder = encoder
all_frames (contract ∷ rest) encoder = all_frames rest (contract_frames contract encoder)

pub write_normalized-code_frames :
    (normalized : NormalizedSnippet) (encoder : SketchDigestEncoder)
    → Polls (λ e. e ≡ code_frames normalized encoder) (write_normalized normalized encoder)
unfolding write_normalized
write_normalized-code_frames normalized encoder =
    write_lines-frames 0 (lines normalized) (write_count (line_count normalized) encoder)

write_semantics-contract_frames :
    (contract : SketchContract) (encoder : SketchDigestEncoder)
    → Polls (λ e. e ≡ contract_frames contract encoder) (write_semantics contract encoder)
unfolding write_semantics
write_semantics-contract_frames contract encoder =
    write_normalized-code_frames contract.snippet.normalized _

write_contracts-all_frames :
    (index : ℕ) (contracts : List SketchContract) (encoder : SketchDigestEncoder)
    → Polls (λ e. e ≡ all_frames contracts encoder) (write_contracts index contracts encoder)
unfolding write_contracts
write_contracts-all_frames index [] encoder = Polls-pure (λ e. e ≡ encoder) encoder refl
write_contracts-all_frames index (contract ∷ rest) encoder =
    let goal : SketchDigestEncoder → Type 0 =
      λ e. e ≡ all_frames rest (contract_frames contract encoder) in
    Polls-checkpoint_at goal index _ (
      Polls-bind (λ e. e ≡ contract_frames contract encoder) goal (write_semantics contract encoder)
        _ (write_semantics-contract_frames contract encoder)
        (λ written h.
          Polls-weaken (λ e. e ≡ all_frames rest written) goal _
            (write_contracts-all_frames (index + 1) rest written)
            (λ e k. k ∙ ap (all_frames rest) h)))

module _ (sha256 : Bytes → Bytes) where
  -- The snapshot of a sketch, with the digest of its framed lines.
  abbrev pub snapshot_of : SketchContract → SketchSnapshot
  snapshot_of contract = shown sha256 contract (
      finish sha256 (
        frames (lines contract.snippet.normalized) (
          write_count (line_count contract.snippet.normalized) (
            write_field (as_bytes (normalization_name contract.policy.normalization))
              (new_encoder (as_bytes (text "conkit-sketch:v2:code")))))))

  pub snapshot-Polls :
      (contract : SketchContract) → Polls (λ s. s ≡ snapshot_of contract) (snapshot sha256 contract)
  unfolding snapshot code_digest write_normalized
  snapshot-Polls contract =
      let start =
        write_field (as_bytes (normalization_name contract.policy.normalization))
          (new_encoder (as_bytes (text "conkit-sketch:v2:code"))) in
      let normalized = contract.snippet.normalized in
      let counted = write_count (line_count normalized) start in
      Polls-bind (λ d. d ≡ finish sha256 (frames (lines normalized) counted)) _
        (code_digest sha256 contract) _
        (Polls-bind (λ e. e ≡ frames (lines normalized) counted) _
          (write_normalized normalized start) _ (write_lines-frames 0 (lines normalized) counted)
          (λ e h. Polls-pure _ (finish sha256 e) (ap (finish sha256) h)))
        (λ d h. Polls-pure _ (shown sha256 contract d) (ap (shown sha256 contract) h))

  abbrev pub contract_digest_of : SketchContracts → Text
  contract_digest_of contracts = finish sha256 (
      all_frames contracts.entries
        (write_count (len contracts) (new_encoder (as_bytes (text "conkit-sketch:v2:contract")))))

  pub contract_digest-Polls :
      (contracts : SketchContracts)
      → Polls (λ d. d ≡ contract_digest_of contracts) (contract_digest sha256 contracts)
  unfolding contract_digest
  contract_digest-Polls contracts =
      let start =
        write_count (len contracts) (new_encoder (as_bytes (text "conkit-sketch:v2:contract"))) in
      Polls-bind (λ e. e ≡ all_frames contracts.entries start) _
        (write_contracts 0 contracts.entries start) _
        (write_contracts-all_frames 0 contracts.entries start)
        (λ e h. Polls-pure _ (finish sha256 e) (ap (finish sha256) h))
