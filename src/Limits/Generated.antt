-- ===== src/Limits/Generated.antt =====
-- conkit-sketch/limits/output.rs: the budgets of generated output. Scratch buffers share one
-- counter of the bytes that they retain, and give back what they reserved when they are dropped;
-- the bytes of the returned catalog have a budget of their own. What `try_reserve` and
-- `String::from_utf8` say is not the program's: `Allocator` has their error texts, if any.
pub mod Scratch
pub mod Returned
use contract_kit.Prelude.{
  ℕ, zero, suc, ◌+◌, ◌-◌, Bool, true, false, not, ◌&&◌, ◌||◌, Option, none, some, List, [], ◌∷◌,
  ◌++◌, ltb, leb, ◌==◌, if◌then◌else◌, length, take, drop, get_elem?, min, saturating_add,
  saturating_sub,
}
use contract_kit.Prelude.Results.{Result, ok, err, ◌>>=◌, ◌>>◌, fail_if}
use contract_kit.Text.{Text}
use contract_kit.Path.{CatalogPath}
use contract_kit.Error.{
  Error, LimitResource, limit_error, operation_cancelled, write_failed, in_file, external,
  generated_output_bytes, output_scratch_bytes,
}
use contract_kit.Limits.Words.{observed}
use contract_kit.Normalize.{Bytes}

pub record OutputLimits : Type 0 where
  pub generated_bytes : ℕ
  pub scratch_bytes : ℕ

abbrev pub default : OutputLimits
default = record { generated_bytes = 536870912; scratch_bytes = 536870912 }

pub record Allocator : Type 0 where
  -- `try_reserve` of some more bytes behind a buffer.
  pub try_reserve : Bytes → ℕ → Option Text
  -- `String::from_utf8`.
  pub from_utf8 : Bytes → Option Text

pub record GeneratedBytes : Type 0 where
  pub limits : OutputLimits
  pub total : ℕ
  pub retained_scratch_bytes : ℕ

-- `GeneratedBytes::new`.
abbrev pub new : OutputLimits → GeneratedBytes
new limits = record { limits = limits; total = 0; retained_scratch_bytes = 0 }

abbrev pub beyond : LimitResource → ℕ → ℕ → CatalogPath → Error
beyond resource limit count file =
    limit_error
      (record { resource = resource; limit = limit; observed_at_least = count; file = some file })

-- `GeneratedBytes::record`, with what the load of the probe reads.
unfoldable pub record_bytes : Bool → CatalogPath → ℕ → GeneratedBytes → Result Error GeneratedBytes
record_bytes cancelled path bytes meter =
    let total = saturating_add meter.total (observed bytes) in
    if cancelled
    then err operation_cancelled
    else if ltb meter.limits.generated_bytes total
    then err (beyond generated_output_bytes meter.limits.generated_bytes total path)
    else ok (record meter { total = total })

unfoldable pub release_scratch : ℕ → GeneratedBytes → GeneratedBytes
release_scratch bytes meter = record meter {
  retained_scratch_bytes = saturating_sub meter.retained_scratch_bytes bytes;
}

pub data OutputFailure : Type 0 where
  cancelled : OutputFailure
  limit : ℕ → OutputFailure
  allocation : Text → OutputFailure

-- `OutputFailure::store`: the first failure stays.
abbrev pub store : OutputFailure → Option OutputFailure → Option OutputFailure
store failure none = some failure
store failure (some first) = some first

abbrev pub into_error : OutputFailure → LimitResource → ℕ → CatalogPath → Error
into_error cancelled resource n file = operation_cancelled
into_error (limit seen) resource n file = beyond resource n seen file
into_error (allocation message) resource n file = write_failed (in_file file) (external message)

pub record ScratchWriter : Type 0 where
  pub file : CatalogPath
  pub bytes : Bytes
  pub reserved : ℕ
  pub failure : Option OutputFailure

-- `GeneratedBytes::scratch_writer`.
unfoldable pub scratch_writer : Bool → CatalogPath → Result Error ScratchWriter
scratch_writer is_cancelled path =
    if is_cancelled
    then err operation_cancelled
    else ok (record { file = path; bytes = []; reserved = 0; failure = none })

abbrev pub fail : OutputFailure → ScratchWriter → ScratchWriter
fail failure writer = record writer { failure = store failure writer.failure }

abbrev pub is_failed : Option OutputFailure → Bool
is_failed none = false
is_failed (some failure) = true

-- The result of a `write`: the bytes taken, `none` for an I/O error.
pub record Written : Type 0 where
  pub count : Option ℕ
  pub writer : ScratchWriter
  pub meter : GeneratedBytes

module _ (a : Allocator) where
  -- The part of `write` behind the checks, on at most 64 KiB.
  unfoldable pub store_chunk : Bytes → ScratchWriter → GeneratedBytes → Written
  store_chunk chunk writer meter =
      let additional = observed (length chunk) in
      let next = saturating_add meter.retained_scratch_bytes additional in
      if ltb meter.limits.scratch_bytes next
      then record {
        count = none;
        writer = fail (limit (saturating_add meter.limits.scratch_bytes 1)) writer;
        meter = meter;
      }
      else elim (a.try_reserve writer.bytes (length chunk)) [
        | some message ↦ record {
          count = none;
          writer = fail (allocation message) writer;
          meter = meter;
        }
        | none ↦ record {
          count = some (length chunk);
          writer = record writer {
            bytes = writer.bytes ++ chunk;
            reserved = saturating_add writer.reserved additional;
          };
          meter = record meter { retained_scratch_bytes = next };
        }
      ]

  -- `Write::write`, with what the load of the probe reads.
  unfoldable pub write : Bool → Bytes → ScratchWriter → GeneratedBytes → Written
  unfolding store_chunk
  write is_cancelled bytes writer meter =
      if is_failed writer.failure
      then record { count = none; writer = writer; meter = meter }
      else if is_cancelled
      then record { count = none; writer = fail cancelled writer; meter = meter }
      else if length bytes == 0
      then record { count = some 0; writer = writer; meter = meter }
      else store_chunk (take (min (length bytes) 65536) bytes) writer meter

-- `Write::flush`, and whether it went through.
unfoldable pub flush : Bool → ScratchWriter → ScratchWriter × Bool
flush is_cancelled writer =
    if is_failed writer.failure
    then (writer, false)
    else if is_cancelled
    then (fail cancelled writer, false)
    else (writer, true)

-- `Drop` of a writer or a text, by what it still holds.
abbrev pub drop_reserved : ℕ → GeneratedBytes → GeneratedBytes
drop_reserved reserved meter = release_scratch reserved meter

pub record ScratchText : Type 0 where
  pub text : Bytes
  pub reserved : ℕ

abbrev pub write_error : CatalogPath → Text → Error
write_error file source = write_failed (in_file file) (external source)

abbrev pub check_failure :
    Option OutputFailure → LimitResource → ℕ → CatalogPath → Result Error (Unit {0})
check_failure none resource maximum file = ok tt
check_failure (some failure) resource maximum file = err (into_error failure resource maximum file)

-- `result.map_err(..)?`, for the result of the writes.
abbrev pub check_result : Option Text → CatalogPath → Result Error (Unit {0})
check_result none file = ok tt
check_result (some source) file = err (write_error file source)

-- The checks of `finish_text`, in their order.
abbrev pub check_writer :
    Allocator → Bool → Option Text → ScratchWriter → GeneratedBytes → Result Error (Unit {0})
check_writer a is_cancelled result writer meter = do
  fail_if is_cancelled operation_cancelled
  check_failure writer.failure output_scratch_bytes meter.limits.scratch_bytes writer.file
  check_result result writer.file
  check_result (a.from_utf8 writer.bytes) writer.file

-- `ScratchWriter::finish_text`. On an error the writer is dropped, and the meter gets back what it
-- reserved; a text takes the reservation over.
unfoldable pub finish_text :
    Allocator
    → Bool
    → Option Text
    → ScratchWriter
    → GeneratedBytes
    → Result Error ScratchText × GeneratedBytes
unfolding release_scratch
finish_text a is_cancelled result writer meter =
    elim (check_writer a is_cancelled result writer meter) [
      | ok _ ↦ (ok (record { text = writer.bytes; reserved = writer.reserved }), meter)
      | err e ↦ (err e, drop_reserved writer.reserved meter)
    ]

-- `str::is_char_boundary` in UTF-8: not in front of a continuation byte, nor past the end.
abbrev pub is_boundary_byte : Option ℕ → Bool
is_boundary_byte none = true
is_boundary_byte (some byte) = ltb byte 0x80 || leb 0xc0 byte

-- `ScratchText::truncate_tail`.
unfoldable pub truncate_tail :
    ℕ → ScratchText → GeneratedBytes → Bool × ScratchText × GeneratedBytes
unfolding release_scratch
truncate_tail bytes text meter =
    let new_length = length text.text - bytes in
    let released = observed bytes in
    if ltb (length text.text) bytes
    then (false, text, meter)
    else if not (new_length == 0 || is_boundary_byte (get_elem? text.text new_length))
    then (false, text, meter)
    else (
      true,
      record { text = take new_length text.text; reserved = saturating_sub text.reserved released },
      release_scratch released meter,
    )

pub record ReturnedOutput : Type 0 where
  pub limit : ℕ
  pub observed : ℕ
  pub path : CatalogPath
  pub bytes : Bytes
  pub failure : Option OutputFailure

-- `GeneratedBytes::returned_buffer`, `ReturnedOutput::new`.
abbrev pub returned_buffer : CatalogPath → GeneratedBytes → ReturnedOutput
returned_buffer path meter = record {
  limit = meter.limits.generated_bytes;
  observed = meter.total;
  path = path;
  bytes = [];
  failure = none;
}

abbrev pub fail_output : OutputFailure → ReturnedOutput → ReturnedOutput
fail_output failure output = record output { failure = store failure output.failure }

module _ (a : Allocator) where
  -- The loop over the chunks of 64 KiB, with what the load of the probe reads in front of each; the
  -- output, and whether all were stored. The number of rounds is that of the bytes.
  unfoldable pub append_chunks : (ℕ → Bool) → ℕ → ℕ → Bytes → ReturnedOutput → ReturnedOutput × Bool
  append_chunks cancelled_at zero index bytes output = (output, true)
  append_chunks cancelled_at (suc rounds) index bytes output =
      let chunk = take 65536 bytes in
      let grown = record output { bytes = output.bytes ++ chunk } in
      let rest = append_chunks cancelled_at rounds (index + 1) (drop 65536 bytes) grown in
      if length bytes == 0
      then (output, true)
      else if cancelled_at index
      then (fail_output cancelled output, false)
      else elim (a.try_reserve output.bytes (length chunk)) [
        | some message ↦ (fail_output (allocation message) output, false)
        | none ↦ rest
      ]

  -- `ReturnedOutput::append`, which is `Write::write` too; the output, and whether it went through.
  unfoldable pub append : (ℕ → Bool) → Bytes → ReturnedOutput → ReturnedOutput × Bool
  unfolding append_chunks
  append cancelled_at bytes output =
      let next = saturating_add output.observed (observed (length bytes)) in
      let stored = append_chunks cancelled_at (length bytes) 0 bytes output in
      if is_failed output.failure
      then (output, false)
      else if ltb output.limit next
      then (fail_output (limit (saturating_add output.limit 1)) output, false)
      else if length bytes == 0
      then (output, true)
      else if stored.1
      then (record stored.0 { observed = next }, true)
      else (stored.0, false)

unfoldable pub flush_output : Bool → ReturnedOutput → ReturnedOutput × Bool
flush_output is_cancelled output =
    if is_failed output.failure
    then (output, false)
    else if is_cancelled
    then (fail_output cancelled output, false)
    else (output, true)

-- `ReturnedOutput::finish`.
unfoldable pub finish : Bool → Option Text → ReturnedOutput → Result Error Bytes
finish is_cancelled result output = do
  fail_if is_cancelled operation_cancelled
  check_failure output.failure generated_output_bytes output.limit output.path
  check_result result output.path
  ok output.bytes
