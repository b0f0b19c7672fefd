-- ===== src/Tests/Buffers.antt =====
-- Scratch buffers and a returned file, at concrete calls.
use contract_kit.Prelude.{◌+◌, ◌≤◌, ◌≡◌, refl, false, none, [], ◌∷◌, arith, length}
use contract_kit.Text.{text}
use contract_kit.Path.{CatalogPath}
use contract_kit.Normalize.{Bytes}
use contract_kit.Limits.Generated
use contract_kit.Limits.Generated.{
  OutputLimits, Allocator, GeneratedBytes, new, ScratchWriter, scratch_writer, write, store_chunk,
  ReturnedOutput, returned_buffer, append, append_chunks, finish,
}
use contract_kit.Limits.Generated.Scratch.{
  writing, done, next, opens, writes, Counts, Takes, scratch-Counts, write-Takes,
}
use contract_kit.Limits.Generated.Returned.{joined, pieces_of, finish-joined}

abbrev always : Allocator
always = record { try_reserve = λ b n. none; from_utf8 = λ b. none }

abbrev path : CatalogPath
path = record { value = text "out.yaml" }

abbrev three : OutputLimits
three = record { generated_bytes = 3; scratch_bytes = 3 }

abbrev empty : ScratchWriter
empty = record { file = path; bytes = []; reserved = 0; failure = none }

-- Two bytes, and then two more, which do not fit.
abbrev first_write : Generated.Written
first_write = write always false (b'a' ∷ b'b' ∷ []) empty (new three)

abbrev second_write : Generated.Written
second_write = write always false (b'c' ∷ b'd' ∷ []) first_write.writer first_write.meter

scratch-Counts_example :
    Counts (record { meter = second_write.meter; live = writing second_write.writer ∷ [] })
unfolding scratch_writer
scratch-Counts_example =
    scratch-Counts always three
      (record { meter = second_write.meter; live = writing second_write.writer ∷ [] }) (omega arith)
      (next _ _ _
        (next _ _ _ (next _ _ _ (done _) (opens (new three) [] empty path refl))
          (writes (new three) [] [] empty false (b'a' ∷ b'b' ∷ [])))
        (writes first_write.meter [] [] first_write.writer false (b'c' ∷ b'd' ∷ [])))

write-Takes_example :
    Takes (b'c' ∷ b'd' ∷ []) first_write.writer second_write.count second_write.writer
write-Takes_example =
    write-Takes always false (b'c' ∷ b'd' ∷ []) first_write.writer first_write.meter

abbrev abc : Bytes
abc = b'a' ∷ b'b' ∷ b'c' ∷ []

finish-joined_example :
    (abc ≡ joined (pieces_of ((λ n. false, b'a' ∷ b'b' ∷ []) ∷ (λ n. false, b'c' ∷ []) ∷ [])))
    × ((new three).total + length abc ≤ (new three).limits.generated_bytes)
unfolding append append_chunks finish
finish-joined_example =
    finish-joined always ((λ n. false, b'a' ∷ b'b' ∷ []) ∷ (λ n. false, b'c' ∷ []) ∷ []) path
      (new three) false none abc (omega arith) (omega arith) refl
