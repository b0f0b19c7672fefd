-- ===== src/Limits/Generated/Returned.antt =====
-- The returned output: what is finished is all that was written.
use contract_kit.Prelude.{
  ℕ, zero, suc, ◌+◌, ◌≤◌, ◌<◌, ◌≡◌, refl, sym, ap, ◌∙◌, Bool, true, false, Option, none, some, List,
  [], ◌∷◌, ◌++◌, arith, length, take, drop, u64_max, append-nil, append_assoc, length-drop,
  if◌then◌else◌, ltb, ◌==◌, ==_iff, ◌⊎◌, inl, inr, length-append, saturating_add,
}
use contract_kit.Prelude.Results.{ok}
use contract_kit.Text.{Text}
use contract_kit.Path.{CatalogPath}
use contract_kit.Normalize.{Bytes}
use contract_kit.Limits.Words.{observed}
use contract_kit.Limits.Generated.{
  Allocator, GeneratedBytes, ReturnedOutput, returned_buffer, append_chunks, append, finish,
  fail_output, is_failed, OutputFailure, cancelled, allocation, limit,
}

take-drop : (n : ℕ) (xs : Bytes) → take n xs ++ drop n xs ≡ xs
take-drop zero xs = refl
take-drop (suc n) [] = refl
take-drop (suc n) (x ∷ xs) = ap (◌∷◌ x) (take-drop n xs)

-- The chunks are stored behind one another, or a failure is.
abbrev Stores : Bytes → ReturnedOutput → ReturnedOutput × Bool → Type 0
Stores bytes o (o', true) = o' ≡ record o { bytes = o.bytes ++ bytes }
Stores bytes o (o', false) = is_failed o'.failure ≡ true

nothing_more : (bytes : Bytes) (o : ReturnedOutput) → length bytes ≡ 0 → Stores bytes o (o, true)
nothing_more [] o h = ap (λ b. record o { bytes = b }) (sym (append-nil o.bytes))
nothing_more (b ∷ bytes) o h = absurd (omega arith)

store_rest :
    (bytes chunk behind : Bytes) (o : ReturnedOutput) (r : ReturnedOutput × Bool)
    → (o.bytes ++ chunk) ++ behind ≡ o.bytes ++ bytes
    → Stores behind (record o { bytes = o.bytes ++ chunk }) r
    → Stores bytes o r
store_rest bytes chunk behind o (o', true) e h = h ∙ ap (λ b. record o { bytes = b }) e
store_rest bytes chunk behind o (o', false) e h = h

failed_stays : (f : OutputFailure) (o : ReturnedOutput) → is_failed (fail_output f o).failure ≡ true
failed_stays f o = ground arith

by_case :
    (empty is_cancelled : Bool) (refused : Option Text) (bytes : Bytes) (o : ReturnedOutput)
    (rest : ReturnedOutput × Bool)
    → (empty ≡ true → Stores bytes o (o, true))
    → Stores bytes o rest
    → Stores bytes o (
        if empty
        then (o, true)
        else if is_cancelled
        then (fail_output cancelled o, false)
        else elim refused [
          | some message ↦ (fail_output (allocation message) o, false)
          | none ↦ rest
        ])
by_case true is_cancelled refused bytes o rest h k = h refl
by_case false true refused bytes o rest h k = failed_stays cancelled o
by_case false false none bytes o rest h k = k
by_case false false (some message) bytes o rest h k = failed_stays (allocation message) o

append_chunks-Stores :
    (a : Allocator) (cancelled_at : ℕ → Bool) (rounds index : ℕ) (bytes : Bytes)
    (o : ReturnedOutput)
    → length bytes ≤ rounds
    → Stores bytes o (append_chunks a cancelled_at rounds index bytes o)
unfolding append_chunks
append_chunks-Stores a at zero index bytes o h = nothing_more bytes o (omega arith)
append_chunks-Stores a at (suc rounds) index bytes o h =
    let chunk = take 65536 bytes in
    let behind = drop 65536 bytes in
    let grown : ReturnedOutput = record o { bytes = o.bytes ++ chunk } in
    let shorter = length-drop 65536 bytes in
    let rest = append_chunks-Stores a at rounds (index + 1) behind grown (omega arith) in
    let joined : (o.bytes ++ chunk) ++ behind ≡ o.bytes ++ bytes =
      append_assoc o.bytes chunk behind ∙ ap (λ t. o.bytes ++ t) (take-drop 65536 bytes) in
    let whole =
      store_rest bytes chunk behind o (append_chunks a at rounds (index + 1) behind grown) joined
        rest in
    by_case (length bytes == 0) (at index) (a.try_reserve o.bytes (length chunk)) bytes o
      (append_chunks a at rounds (index + 1) behind grown)
      (λ e. nothing_more bytes o ((==_iff (length bytes) 0).0 e)) whole

-- The pieces of several writes, one behind the other.
abbrev pub joined : List Bytes → Bytes
joined [] = []
joined (piece ∷ pieces) = piece ++ joined pieces

-- Several writes, whatever comes of each.
abbrev pub append_all : Allocator → List ((ℕ → Bool) × Bytes) → ReturnedOutput → ReturnedOutput
append_all a [] o = o
append_all a ((at, piece) ∷ rest) o = append_all a rest (append a at piece o).0

abbrev pub pieces_of : List ((ℕ → Bool) × Bytes) → List Bytes
pieces_of [] = []
pieces_of ((at, piece) ∷ rest) = piece ∷ pieces_of rest

-- The output has failed, or it has all of these bytes, counted on top of what was returned before.
abbrev Holds : ℕ → ℕ → Bytes → ReturnedOutput → Type 0
Holds maximum before bytes o =
    (is_failed o.failure ≡ true)
    ⊎ ((o.failure ≡ none)
        × (o.limit ≡ maximum)
        × (o.bytes ≡ bytes)
        × (o.observed ≡ before + length bytes)
        × (o.observed ≤ maximum))

-- `append` behind its loop.
abbrev settle : Bytes → ReturnedOutput → ReturnedOutput × Bool → ReturnedOutput × Bool
settle piece o r =
    if is_failed o.failure
    then (o, false)
    else if ltb o.limit (saturating_add o.observed (observed (length piece)))
    then (fail_output (limit (saturating_add o.limit 1)) o, false)
    else if length piece == 0
    then (o, true)
    else if r.1
    then (record r.0 { observed = saturating_add o.observed (observed (length piece)) }, true)
    else (r.0, false)

settle-Holds :
    (piece : Bytes) (maximum before : ℕ) (bytes : Bytes) (o : ReturnedOutput)
    (r : ReturnedOutput × Bool)
    → maximum < u64_max
    → Stores piece o r
    → (o.failure ≡ none)
      × (o.limit ≡ maximum)
      × (o.bytes ≡ bytes)
      × (o.observed ≡ before + length bytes)
      × (o.observed ≤ maximum)
    → Holds maximum before (bytes ++ piece) (settle piece o r).0
settle-Holds [] maximum before bytes o (o', stored) h s fine =
    let same = append-nil bytes in ground (arith, same, fine)
settle-Holds (p ∷ ps) maximum before bytes o (o', true) h s fine =
    let longer = length-append bytes (p ∷ ps) in ground (arith, longer, fine)
settle-Holds (p ∷ ps) maximum before bytes o (o', false) h s fine = ground (arith, fine)

append-Holds :
    (a : Allocator) (at : ℕ → Bool) (piece : Bytes) (maximum before : ℕ) (bytes : Bytes)
    (o : ReturnedOutput)
    → maximum < u64_max
    → Holds maximum before bytes o
    → Holds maximum before (bytes ++ piece) (append a at piece o).0
unfolding append
append-Holds a at piece maximum before bytes o h (inl failed) = inl (rw failed failed)
append-Holds a at piece maximum before bytes o h (inr fine) =
    settle-Holds piece maximum before bytes o (append_chunks a at (length piece) 0 piece o) h
      (append_chunks-Stores a at (length piece) 0 piece o (omega arith)) fine

append_all-Holds :
    (a : Allocator) (ps : List ((ℕ → Bool) × Bytes)) (maximum before : ℕ) (bytes : Bytes)
    (o : ReturnedOutput)
    → maximum < u64_max
    → Holds maximum before bytes o
    → Holds maximum before (bytes ++ joined (pieces_of ps)) (append_all a ps o)
append_all-Holds a [] maximum before bytes o h holds = rw (append-nil bytes) holds
append_all-Holds a ((at, piece) ∷ rest) maximum before bytes o h holds =
    rw (← append_assoc bytes piece (joined (pieces_of rest))) (
      append_all-Holds a rest maximum before (bytes ++ piece) (append a at piece o).0 h
        (append-Holds a at piece maximum before bytes o h holds))

finish-Holds :
    (is_cancelled : Bool) (result : Option Text) (maximum before : ℕ) (all bytes : Bytes)
    (o : ReturnedOutput)
    → Holds maximum before all o
    → finish is_cancelled result o ≡ ok bytes
    → (bytes ≡ all) × (before + length bytes ≤ maximum)
unfolding finish
finish-Holds is_cancelled result maximum before all bytes o (inl failed) e = absurd (ground arith)
finish-Holds is_cancelled result maximum before all bytes o (inr fine) e = ground (arith, fine)

-- When a returned file is finished with success, with a limit below `u64::MAX` that what was
-- returned before does not exceed, its bytes are those of all writes to it, one behind the other,
-- whatever the probe and the allocator said at each write and whatever their callers did with the
-- results; and together with what was returned before they are within the limit.
pub finish-joined :
    (a : Allocator) (ps : List ((ℕ → Bool) × Bytes)) (path : CatalogPath) (meter : GeneratedBytes)
    (is_cancelled : Bool) (result : Option Text) (bytes : Bytes)
    → meter.limits.generated_bytes < u64_max
    → meter.total ≤ meter.limits.generated_bytes
    → finish is_cancelled result (append_all a ps (returned_buffer path meter)) ≡ ok bytes
    → (bytes ≡ joined (pieces_of ps)) × (meter.total + length bytes ≤ meter.limits.generated_bytes)
finish-joined a ps path meter is_cancelled result bytes bounded within e =
    finish-Holds is_cancelled result meter.limits.generated_bytes meter.total
      (joined (pieces_of ps)) bytes (append_all a ps (returned_buffer path meter))
      (append_all-Holds a ps meter.limits.generated_bytes meter.total []
        (returned_buffer path meter) bounded (inr (refl, refl, refl, omega arith, within)))
      e
