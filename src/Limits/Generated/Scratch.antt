-- ===== src/Limits/Generated/Scratch.antt =====
-- The live scratch buffers of an operation: what they hold is what the meter has counted.
use contract_kit.Prelude.{
  ℕ, zero, suc, ◌+◌, ◌-◌, ◌≤◌, ◌<◌, ◌≡◌, refl, sym, ap, Bool, true, false, Option, none, some, List,
  [], ◌∷◌, ◌++◌, arith, length, take, min, length-append, u64_max, append-nil,
}
use contract_kit.Prelude.Results.{ok, err}
use contract_kit.Text.{Text}
use contract_kit.Path.{CatalogPath}
use contract_kit.Error.{Error}
use contract_kit.Normalize.{Bytes}
use contract_kit.Limits.Generated.{
  OutputLimits, Allocator, GeneratedBytes, ScratchWriter, ScratchText, scratch_writer, store_chunk,
  write, flush, finish_text, truncate_tail, release_scratch, drop_reserved, record_bytes, new,
  is_failed,
}

-- A buffer that lives: a writer, or the text that it became.
pub data Buffer : Type 0 where
  writing : ScratchWriter → Buffer
  written : ScratchText → Buffer

abbrev pub held : Buffer → Bytes
held (writing w) = w.bytes
held (written t) = t.text

abbrev pub reserved_by : Buffer → ℕ
reserved_by (writing w) = w.reserved
reserved_by (written t) = t.reserved

-- The meter, and the buffers that borrow it.
pub record Scratch : Type 0 where
  pub meter : GeneratedBytes
  pub live : List Buffer

-- One call on the meter or on one of the buffers, whatever the probe, the allocator, the decoder
-- and the caller say.
pub data Step (a : Allocator) : Scratch → Scratch → Type 0 where
  opens :
      (m : GeneratedBytes) (bs : List Buffer) (w : ScratchWriter) (path : CatalogPath)
      → scratch_writer false path ≡ ok w
      → Step a (record { meter = m; live = bs }) (record { meter = m; live = writing w ∷ bs })
  writes :
      (m : GeneratedBytes) (xs ys : List Buffer) (w : ScratchWriter) (cancelled : Bool)
      (bytes : Bytes)
      → Step a
          (record { meter = m; live = xs ++ writing w ∷ ys })
          (record {
            meter = (write a cancelled bytes w m).meter;
            live = xs ++ writing (write a cancelled bytes w m).writer ∷ ys;
          })
  flushes :
      (m : GeneratedBytes) (xs ys : List Buffer) (w : ScratchWriter) (cancelled : Bool)
      → Step a
          (record { meter = m; live = xs ++ writing w ∷ ys })
          (record { meter = m; live = xs ++ writing (flush cancelled w).0 ∷ ys })
  finishes :
      (m m' : GeneratedBytes) (xs ys : List Buffer) (w : ScratchWriter) (t : ScratchText)
      (cancelled : Bool) (result : Option Text)
      → finish_text a cancelled result w m ≡ (ok t, m')
      → Step a
          (record { meter = m; live = xs ++ writing w ∷ ys })
          (record { meter = m'; live = xs ++ written t ∷ ys })
  finishing_fails :
      (m m' : GeneratedBytes) (xs ys : List Buffer) (w : ScratchWriter) (e : Error)
      (cancelled : Bool) (result : Option Text)
      → finish_text a cancelled result w m ≡ (err e, m')
      → Step a
          (record { meter = m; live = xs ++ writing w ∷ ys })
          (record { meter = m'; live = xs ++ ys })
  truncates :
      (m : GeneratedBytes) (xs ys : List Buffer) (t : ScratchText) (bytes : ℕ)
      → Step a
          (record { meter = m; live = xs ++ written t ∷ ys })
          (record {
            meter = (truncate_tail bytes t m).2;
            live = xs ++ written (truncate_tail bytes t m).1 ∷ ys;
          })
  drops :
      (m : GeneratedBytes) (xs ys : List Buffer) (b : Buffer)
      → Step a
          (record { meter = m; live = xs ++ b ∷ ys })
          (record { meter = drop_reserved (reserved_by b) m; live = xs ++ ys })
  records :
      (m m' : GeneratedBytes) (bs : List Buffer) (cancelled : Bool) (path : CatalogPath) (n : ℕ)
      → record_bytes cancelled path n m ≡ ok m'
      → Step a (record { meter = m; live = bs }) (record { meter = m'; live = bs })

-- Any number of calls, one after the other.
pub data Steps (a : Allocator) : Scratch → Scratch → Type 0 where
  done : (s : Scratch) → Steps a s s
  next : (s t u : Scratch) → Steps a s t → Step a t u → Steps a s u

-- The bytes that the live buffers hold.
abbrev pub held_bytes : List Buffer → ℕ
held_bytes [] = 0
held_bytes (b ∷ bs) = length (held b) + held_bytes bs

-- Each buffer has reserved what it holds.
abbrev pub Reserved : List Buffer → Type 0
Reserved [] = Unit
Reserved (b ∷ bs) = (reserved_by b ≡ length (held b)) × Reserved bs

-- The meter counts what is held, within its limit.
pub record Counts (s : Scratch) : Type 0 where
  pub exact : s.meter.retained_scratch_bytes ≡ held_bytes s.live
  pub within : s.meter.retained_scratch_bytes ≤ s.meter.limits.scratch_bytes
  pub bounded : s.meter.limits.scratch_bytes < u64_max
  pub reserved : Reserved s.live

held_bytes-at :
    (xs ys : List Buffer) (b : Buffer)
    → held_bytes (xs ++ b ∷ ys) ≡ length (held b) + held_bytes (xs ++ ys)
held_bytes-at [] ys b = refl
held_bytes-at (x ∷ xs) ys b = omega (arith, held_bytes-at xs ys b)

Reserved-at :
    (xs ys : List Buffer) (b : Buffer)
    → Reserved (xs ++ b ∷ ys)
    → (reserved_by b ≡ length (held b)) × Reserved (xs ++ ys)
Reserved-at [] ys b h = h
Reserved-at (x ∷ xs) ys b h = let rest = Reserved-at xs ys b h.1 in (rest.0, (h.0, rest.1))

Reserved-put :
    (xs ys : List Buffer) (b : Buffer)
    → (reserved_by b ≡ length (held b))
    → Reserved (xs ++ ys)
    → Reserved (xs ++ b ∷ ys)
Reserved-put [] ys b e h = (e, h)
Reserved-put (x ∷ xs) ys b e h = (h.0, Reserved-put xs ys b e h.1)

-- What a call does to one buffer and the meter: the change of what is held is the change of what
-- is counted, and the limits stay.
record Exchanges (m m' : GeneratedBytes) (b b' : Buffer) : Type 0 where
  pub balanced :
      m'.retained_scratch_bytes + length (held b) ≡ m.retained_scratch_bytes + length (held b')
  pub still_within : m'.retained_scratch_bytes ≤ m.limits.scratch_bytes
  pub still_reserved : reserved_by b' ≡ length (held b')
  pub same_limits : m'.limits ≡ m.limits

exchange-Counts :
    (m m' : GeneratedBytes) (xs ys : List Buffer) (b b' : Buffer)
    → Counts (record { meter = m; live = xs ++ b ∷ ys })
    → Exchanges m m' b b'
    → Counts (record { meter = m'; live = xs ++ b' ∷ ys })
exchange-Counts m m' xs ys b b' c e =
    let before = held_bytes-at xs ys b in
    let after = held_bytes-at xs ys b' in
    let kept = Reserved-at xs ys b c.reserved in
    let same : m'.limits.scratch_bytes ≡ m.limits.scratch_bytes =
      ap (λ l. l.scratch_bytes) e.same_limits in
    record {
      exact = omega (arith, c.exact, e.balanced);
      within = omega (arith, e.still_within);
      bounded = omega (arith, c.bounded);
      reserved = Reserved-put xs ys b' e.still_reserved kept.1;
    }

release-Counts :
    (m : GeneratedBytes) (xs ys : List Buffer) (b : Buffer)
    → Counts (record { meter = m; live = xs ++ b ∷ ys })
    → Counts (record { meter = drop_reserved (reserved_by b) m; live = xs ++ ys })
unfolding release_scratch
release-Counts m xs ys b c =
    let before = held_bytes-at xs ys b in
    let kept = Reserved-at xs ys b c.reserved in
    let gone = kept.0 in
    record {
      exact = omega (arith, c.exact);
      within = omega (arith, c.within);
      bounded = c.bounded;
      reserved = kept.1;
    }

module _ (a : Allocator) (m : GeneratedBytes) (bounded : m.limits.scratch_bytes < u64_max)
    (within : m.retained_scratch_bytes ≤ m.limits.scratch_bytes) where
  store_chunk-Exchanges :
      (chunk : Bytes) (w : ScratchWriter)
      → w.reserved ≡ length w.bytes
      → w.reserved ≤ m.retained_scratch_bytes
      → Exchanges m
          (store_chunk a chunk w m).meter
          (writing w)
          (writing (store_chunk a chunk w m).writer)
  unfolding store_chunk
  store_chunk-Exchanges chunk w e le =
      let longer = length-append w.bytes chunk in ground (arith, longer)

  write-Exchanges :
      (is_cancelled : Bool) (bytes : Bytes) (w : ScratchWriter)
      → w.reserved ≡ length w.bytes
      → w.reserved ≤ m.retained_scratch_bytes
      → Exchanges m
          (write a is_cancelled bytes w m).meter
          (writing w)
          (writing (write a is_cancelled bytes w m).writer)
  unfolding write
  write-Exchanges is_cancelled bytes w e le =
      let stored = store_chunk-Exchanges (take (min (length bytes) 65536) bytes) w e le in
      ground (arith, stored)

length-take : (n : ℕ) (xs : Bytes) → length (take n xs) ≡ min n (length xs)
length-take zero xs = omega arith
length-take (suc n) [] = omega arith
length-take (suc n) (x ∷ xs) = omega (arith, length-take n xs)

truncate_tail-Exchanges :
    (m : GeneratedBytes) (bytes : ℕ) (t : ScratchText)
    → m.retained_scratch_bytes ≤ m.limits.scratch_bytes
    → m.limits.scratch_bytes < u64_max
    → t.reserved ≡ length t.text
    → t.reserved ≤ m.retained_scratch_bytes
    → Exchanges m (truncate_tail bytes t m).2 (written t) (written (truncate_tail bytes t m).1)
unfolding truncate_tail release_scratch
truncate_tail-Exchanges m bytes t within bounded e le =
    let shorter = length-take (length t.text - bytes) t.text in ground (arith, shorter)

-- What one buffer has reserved is among what is retained.
retained_by :
    (m : GeneratedBytes) (xs ys : List Buffer) (b : Buffer)
    → Counts (record { meter = m; live = xs ++ b ∷ ys })
    → (reserved_by b ≡ length (held b)) × (reserved_by b ≤ m.retained_scratch_bytes)
retained_by m xs ys b c =
    let same = (Reserved-at xs ys b c.reserved).0 in
    let part = held_bytes-at xs ys b in (same, omega (arith, c.exact))

Step-Counts : (a : Allocator) {s t : Scratch} → Step a s t → Counts s → Counts t
unfolding scratch_writer flush finish_text record_bytes release_scratch
Step-Counts a (opens m bs w path e) c = ground arith
Step-Counts a (writes m xs ys w cancelled bytes) c =
    let own = retained_by m xs ys (writing w) c in
    exchange-Counts m _ xs ys (writing w) _ c
      (write-Exchanges a m c.bounded c.within cancelled bytes w own.0 own.1)
Step-Counts a (flushes m xs ys w cancelled) c =
    let own = retained_by m xs ys (writing w) c in
    exchange-Counts m m xs ys (writing w) _ c (ground (arith, own, c.within))
Step-Counts a (finishes m m' xs ys w t cancelled result e) c =
    let own = retained_by m xs ys (writing w) c in
    exchange-Counts m m' xs ys (writing w) (written t) c (ground (arith, own, c.within))
Step-Counts a (finishing_fails m m' xs ys w x cancelled result e) c =
    let released : m' ≡ drop_reserved w.reserved m = ground arith in
    rw released (release-Counts m xs ys (writing w) c)
Step-Counts a (truncates m xs ys t bytes) c =
    let own = retained_by m xs ys (written t) c in
    exchange-Counts m _ xs ys (written t) _ c
      (truncate_tail-Exchanges m bytes t c.within c.bounded own.0 own.1)
Step-Counts a (drops m xs ys b) c = release-Counts m xs ys b c
Step-Counts a (records m m' bs cancelled path n e) c = ground arith

Steps-Counts : (a : Allocator) {s t : Scratch} → Steps a s t → Counts s → Counts t
Steps-Counts a (done s) c = c
Steps-Counts a (next s t u before step) c = Step-Counts a step (Steps-Counts a before c)

-- After any sequence of calls on a meter and its scratch buffers, whatever the probe, the
-- allocator, the decoder and the callers of the buffers say, and with a limit below `u64::MAX`:
-- the meter counts exactly the bytes that the live buffers hold, this is within the limit, and
-- each buffer has reserved exactly what it holds. So nothing is counted once all are dropped.
pub scratch-Counts :
    (a : Allocator) (limits : OutputLimits) (s : Scratch)
    → limits.scratch_bytes < u64_max
    → Steps a (record { meter = new limits; live = [] }) s
    → Counts s
scratch-Counts a limits s bounded steps =
    Steps-Counts a steps
      (record { exact = refl; within = omega arith; bounded = bounded; reserved = tt })

-- What a write leaves: some bytes were taken, or none and the first failure is there.
abbrev pub Takes : Bytes → ScratchWriter → Option ℕ → ScratchWriter → Type 0
Takes bytes w (some n) w' =
    (n ≡ min (length bytes) 65536)
    × (w'.bytes ≡ w.bytes ++ take n bytes)
    × (w.failure ≡ none)
    × (w'.failure ≡ none)
Takes bytes w none w' =
    (w'.bytes ≡ w.bytes) × (is_failed w'.failure ≡ true) × (is_failed w.failure ≡ true → w' ≡ w)

take_nil : (bytes w : Bytes) → length bytes ≡ 0 → w ≡ w ++ take 0 bytes
take_nil bytes w e = sym (append-nil w)

-- A write to a scratch buffer takes the first bytes, at most 64 KiB of them and none only if there
-- is none, behind what the buffer holds; or it takes nothing and the buffer has failed, by what
-- failed it first. A buffer that has failed takes nothing more and stays as it is.
pub write-Takes :
    (a : Allocator) (is_cancelled : Bool) (bytes : Bytes) (w : ScratchWriter) (m : GeneratedBytes)
    → Takes bytes w (write a is_cancelled bytes w m).count (write a is_cancelled bytes w m).writer
unfolding write store_chunk
write-Takes a is_cancelled bytes w m =
    let empty = take_nil bytes w.bytes in
    let taken = length-take (min (length bytes) 65536) bytes in ground (arith, empty, taken)
