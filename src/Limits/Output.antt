-- ===== src/Limits/Output.antt =====
-- conkit-sketch/limits/output.rs: the budget of the diagnostics. An entry is reserved first and
-- committed when it is stored. The JSON writer is not the program's: `Json` gives the lengths of
-- the pieces that it hands to `write`, and the error that it may end with.
pub mod Accounting
use contract_kit.Prelude.{
  ℕ, suc, ◌+◌, Bool, true, false, Option, none, some, List, [], ◌∷◌, ltb, ◌==◌, if◌then◌else◌,
  saturating_add,
}
use contract_kit.Prelude.Results.{Result, ok, err, ◌>>=◌, ◌>>◌, fail_if}
use contract_kit.Text.{Text}
use contract_kit.Path.{CatalogPath}
use contract_kit.Error.{
  Error, LimitResource, LimitExceeded, limit_error, write_failed, diagnostic_count,
  diagnostic_bytes, diagnostic_accounting, external,
}
use contract_kit.Limits.Words.{observed, parser_limit}

pub record DiagnosticLimits : Type 0 where
  pub count : ℕ
  pub serialized_bytes : ℕ
  pub excerpt_bytes : ℕ

abbrev pub default : DiagnosticLimits
default = record { count = 10000; serialized_bytes = 16777216; excerpt_bytes = 256 }

abbrev pub excerpt_maximum : DiagnosticLimits → ℕ
excerpt_maximum limits = parser_limit limits.excerpt_bytes

pub record DiagnosticBytes : Type 0 where
  pub count : ℕ
  pub total : ℕ

pub record DiagnosticReservation : Type 0 where
  pub previous_count : ℕ
  pub previous_bytes : ℕ
  pub next_count : ℕ
  pub next_bytes : ℕ

-- `serde_json::to_writer` on a diagnostic.
pub record Json (D : Type 0) : Type 0 where
  pub pieces : D → List ℕ
  pub failure : D → Option Text

abbrev pub beyond : LimitResource → ℕ → ℕ → Option CatalogPath → Error
beyond resource limit count file =
    limit_error
      (record { resource = resource; limit = limit; observed_at_least = count; file = file })

-- `DiagnosticBytes::new`: the two brackets of the JSON array.
unfoldable pub new : DiagnosticLimits → Result Error DiagnosticBytes
new limits =
    if ltb limits.serialized_bytes 2
    then err (beyond diagnostic_bytes limits.serialized_bytes 2 none)
    else ok (record { count = 0; total = 2 })

unfoldable pub preflight_count :
    DiagnosticLimits → Option CatalogPath → DiagnosticBytes → Result Error ℕ
preflight_count limits file meter =
    let next_count = saturating_add meter.count 1 in
    if ltb limits.count next_count
    then err (beyond diagnostic_count limits.count next_count file)
    else ok next_count

pub record DiagnosticByteCounter : Type 0 where
  pub limit : ℕ
  pub observed : ℕ
  pub exceeded : Bool

-- `Write::write`: the counter, and whether the write went through.
unfoldable pub write : ℕ → DiagnosticByteCounter → DiagnosticByteCounter × Bool
write bytes counter =
    let next = saturating_add counter.observed (observed bytes) in
    if ltb counter.limit next
    then (record counter { observed = saturating_add counter.limit 1; exceeded = true }, false)
    else (record counter { observed = next }, true)

-- The serializer stops at the first write that fails.
unfoldable pub write_pieces : List ℕ → DiagnosticByteCounter → DiagnosticByteCounter
unfolding write
write_pieces [] counter = counter
write_pieces (bytes ∷ rest) counter = elim ((write bytes counter).1) [
  | true ↦ write_pieces rest (write bytes counter).0
  | false ↦ (write bytes counter).0
]

-- `if self.count > 0`, the comma in front of a later entry.
unfoldable pub write_comma : ℕ → DiagnosticByteCounter → DiagnosticByteCounter × Bool
unfolding write
write_comma count counter = if ltb 0 count then write 1 counter else (counter, true)

abbrev pub serializer_error : Option Text → Result Error (Unit {0})
serializer_error none = ok tt
serializer_error (some text) = err (write_failed diagnostic_accounting (external text))

module _ {D : Type 0} (json : Json D) where
  unfoldable pub reserve :
      D
      → ℕ
      → DiagnosticLimits
      → Option CatalogPath
      → DiagnosticBytes
      → Result Error DiagnosticReservation
  unfolding write_pieces write_comma preflight_count
  reserve diagnostic additional_bytes limits file meter = do
    next_count ← preflight_count limits file meter
    let started =
        write_comma meter.count
          (record { limit = limits.serialized_bytes; observed = meter.total; exceeded = false })
    fail_if (if started.1 then false else true)
        (beyond diagnostic_bytes limits.serialized_bytes started.0.observed file)
    let counter = write_pieces (json.pieces diagnostic) started.0
    fail_if counter.exceeded (beyond diagnostic_bytes limits.serialized_bytes counter.observed file)
    serializer_error (json.failure diagnostic)
    let next_bytes = saturating_add counter.observed additional_bytes
    fail_if (ltb limits.serialized_bytes next_bytes) (
        beyond diagnostic_bytes limits.serialized_bytes (saturating_add limits.serialized_bytes 1)
          file)
    ok (record {
      previous_count = meter.count;
      previous_bytes = meter.total;
      next_count = next_count;
      next_bytes = next_bytes;
    })

unfoldable pub add_bytes :
    DiagnosticReservation
    → ℕ
    → DiagnosticLimits
    → Option CatalogPath
    → Result Error DiagnosticReservation
add_bytes reservation additional_bytes limits file =
    let next_bytes = saturating_add reservation.next_bytes additional_bytes in
    if ltb limits.serialized_bytes next_bytes
    then err (
        beyond diagnostic_bytes limits.serialized_bytes (saturating_add limits.serialized_bytes 1)
          file)
    else ok (record reservation { next_bytes = next_bytes })

unfoldable pub commit : DiagnosticReservation → DiagnosticBytes → DiagnosticBytes
commit reservation meter = record { count = reservation.next_count; total = reservation.next_bytes }
