-- ===== src/Limits/Output/Accounting.antt =====
-- A reserved entry is charged with exactly its bytes, its comma included, within the budget.
use contract_kit.Prelude.{
  ℕ, zero, suc, ◌+◌, ◌≤◌, ◌<◌, Bool, true, false, ◌≡◌, refl, Option, List, [], ◌∷◌, ltb,
  if◌then◌else◌, arith, u64_max, saturating_add, min,
}
use contract_kit.Prelude.Results.{Result, ok, err, ◌>>=◌, fail_if}
use contract_kit.Path.{CatalogPath}
use contract_kit.Error.{Error}
use contract_kit.Limits.Output.{
  DiagnosticLimits, DiagnosticBytes, DiagnosticReservation, Json, DiagnosticByteCounter, write,
  write_pieces, write_comma, preflight_count, reserve, serializer_error,
}

abbrev pub sum : List ℕ → ℕ
sum [] = 0
sum (n ∷ ns) = n + sum ns

-- The comma in front of every entry but the first.
abbrev pub comma : ℕ → ℕ
comma zero = 0
comma (suc n) = 1

-- While nothing is exceeded, the counter holds the sum of what was written.
write_pieces-sum :
    (pieces : List ℕ) (c : DiagnosticByteCounter)
    → c.limit < u64_max
    → c.observed ≤ c.limit
    → (write_pieces pieces c).exceeded ≡ false
    → ((write_pieces pieces c).observed ≡ c.observed + sum pieces)
      × c.observed + sum pieces ≤ c.limit
unfolding write_pieces write
write_pieces-sum [] c h b e = (omega arith, omega arith)
write_pieces-sum (n ∷ ns) c h b e =
    ground (
      arith,
      write_pieces-sum ns (record c { observed = saturating_add c.observed (min n u64_max) }),
    )

-- The counter behind the comma.
write_comma-comma :
    (count total limit : ℕ)
    → limit < u64_max
    → total ≤ limit
    → (write_comma count (record { limit = limit; observed = total; exceeded = false })).1 ≡ true
    → ((write_comma count (record { limit = limit; observed = total; exceeded = false })).0.observed
        ≡ total + comma count)
      × ((write_comma count (record { limit = limit; observed = total; exceeded = false })).0.limit
          ≡ limit)
      × total + comma count ≤ limit
unfolding write_comma write
write_comma-comma zero total limit h b e = ground arith
write_comma-comma (suc n) total limit h b e = ground arith

bind_ok :
    {A B : Type 0} (m : Result Error A) (f : A → Result Error B) (b : B)
    → (m >>= f) ≡ ok b
    → (a : A) × (m ≡ ok a) × (f a ≡ ok b)
bind_ok (ok a) f b h = (a, refl, h)
bind_ok (err e) f b h = absurd (ground arith)

fail_if_ok : (t : Bool) (e : Error) (u : Unit {0}) → fail_if t e ≡ ok u → t ≡ false
fail_if_ok true e u h = absurd (ground arith)
fail_if_ok false e u h = refl

preflight_count_ok :
    (limits : DiagnosticLimits) (file : Option CatalogPath) (meter : DiagnosticBytes) (n : ℕ)
    → limits.count < u64_max
    → preflight_count limits file meter ≡ ok n
    → (n ≡ meter.count + 1) × n ≤ limits.count
unfolding preflight_count
preflight_count_ok limits file meter n h e = ground arith

granted :
    (s r : DiagnosticReservation) (e : Result Error DiagnosticReservation)
    → e ≡ ok s
    → e ≡ ok r
    → (r.next_count ≡ s.next_count) × (r.next_bytes ≡ s.next_bytes)
granted s r e h k = (ground (arith, h, k), ground (arith, h, k))

module _ {D : Type 0} (json : Json D) where
  -- Under limits below `u64::MAX` and from a meter within them, a reservation that is granted
  -- counts one entry more, holds what the meter holds and the bytes of the comma, of the
  -- serialized diagnostic and of the additional evidence, and is within both limits.
  pub reserve_charges :
      (d : D) (additional : ℕ) (limits : DiagnosticLimits) (file : Option CatalogPath)
      (meter : DiagnosticBytes) (r : DiagnosticReservation)
      → limits.count < u64_max
      → limits.serialized_bytes < u64_max
      → meter.total ≤ limits.serialized_bytes
      → reserve json d additional limits file meter ≡ ok r
      → (r.next_count ≡ meter.count + 1)
        × (r.next_bytes ≡ meter.total + comma meter.count + sum (json.pieces d) + additional)
        × r.next_count ≤ limits.count
        × r.next_bytes ≤ limits.serialized_bytes
  unfolding reserve
  reserve_charges d additional limits file meter r hc hb within e =
      let start : DiagnosticByteCounter = record {
        limit = limits.serialized_bytes;
        observed = meter.total;
        exceeded = false;
      } in
      let started = write_comma meter.count start in
      let counter = write_pieces (json.pieces d) started.0 in
      let (n, counted, e1) = bind_ok (preflight_count limits file meter) _ r e in
      let (u1, comma_fits, e2) = bind_ok (fail_if (if started.1 then false else true) _) _ r e1 in
      let (u2, entry_fits, e3) = bind_ok (fail_if counter.exceeded _) _ r e2 in
      let (u3, written, e4) = bind_ok (serializer_error (json.failure d)) _ r e3 in
      let (u4, all_fits, e5) =
        bind_ok
          (fail_if (ltb limits.serialized_bytes (saturating_add counter.observed additional)) _) _ r
          e4 in
      let first =
        write_comma-comma meter.count meter.total limits.serialized_bytes hb within
          (ground (arith, fail_if_ok (if started.1 then false else true) _ u1 comma_fits)) in
      let rest =
        write_pieces-sum (json.pieces d) started.0 (rw first.1 hb) (rw (first.0, first.1) first.2)
          (fail_if_ok counter.exceeded _ u2 entry_fits) in
      let (same_count, same_bytes) =
        granted
          (record {
            previous_count = meter.count;
            previous_bytes = meter.total;
            next_count = n;
            next_bytes = saturating_add counter.observed additional;
          })
          r _ refl e5 in
      let (more, count_fits) = preflight_count_ok limits file meter n hc counted in
      let fits : ltb limits.serialized_bytes (saturating_add counter.observed additional) ≡ false =
        fail_if_ok (ltb limits.serialized_bytes (saturating_add counter.observed additional)) _ u4
          all_fits in
      let bounded : saturating_add counter.observed additional ≤ limits.serialized_bytes =
        ground arith in
      (
        omega (arith, same_count, more),
        omega (arith, same_bytes, bounded, rest.0, first.0),
        omega (arith, same_count, count_fits),
        omega (arith, same_bytes, bounded),
      )
