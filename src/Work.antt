-- ===== src/Work.antt =====
-- conkit-sketch/work.rs: the cancellation probe, and the steps of an operation that polls it.
-- Another thread may set the probe's flag once, at any time, and nothing clears it: a probe is
-- the number of loads that still read `false`, if the flag is ever set. The counters of the
-- matching budgets, which the source passes as `&mut`, stand beside it in one state.
pub mod Outcome
use contract_kit.Prelude.{
  ℕ, zero, suc, ◌%◌, Bool, true, false, ◌≡◌, refl, List, [], ◌∷◌, ◌==◌, if◌then◌else◌,
}
use contract_kit.Prelude.Results.{Result, ok, err, map_err}
use contract_kit.Error.{Error, operation_cancelled, limit_error, LimitExceeded}
use contract_kit.Path.{CatalogPath}
use contract_kit.Limits.Matching
use contract_kit.Limits.Matching.{MatchingLimits, MatchingUsage}

pub data CancellationProbe : Type 0 where
  uncancelled : CancellationProbe
  cancelled_after : ℕ → CancellationProbe

-- `cancelled.load(Ordering::Acquire)`, with the probe of the later loads.
unfoldable pub is_cancelled : CancellationProbe → Bool × CancellationProbe
is_cancelled uncancelled = (false, uncancelled)
is_cancelled (cancelled_after zero) = (true, cancelled_after zero)
is_cancelled (cancelled_after (suc n)) = (false, cancelled_after n)

-- Whether another thread ever sets the flag.
abbrev pub is_interruptible : CancellationProbe → Bool
is_interruptible uncancelled = false
is_interruptible (cancelled_after n) = true

pub record Work : Type 0 where
  pub cancellation : CancellationProbe
  pub usage : MatchingUsage

abbrev pub M : Type 0 → Type 0
M A = Work → Result Error (A × Work)

infixl 5 ◌>>=◌ ◌>>◌
abbrev pub ◌>>=◌ : {A B : Type 0} → M A → (A → M B) → M B
◌>>=◌ m f w = elim (m w) [ ok (a, w') ↦ f a w' | err e ↦ err e ]

abbrev pub ◌>>◌ : {B : Type 0} → M (Unit {0}) → M B → M B
m >> k = m >>= λ _. k

abbrev pub pure : {A : Type 0} → A → M A
pure a w = ok (a, w)

abbrev pub lift : {A : Type 0} → Result Error A → M A
lift (ok a) w = ok (a, w)
lift (err e) w = err e

abbrev pub raise : {A : Type 0} → Error → M A
raise e w = err e

abbrev pub limited : {A : Type 0} → Result LimitExceeded A → M A
limited r = lift (map_err limit_error r)

unfoldable pub checkpoint : M (Unit {0})
unfolding is_cancelled
checkpoint w =
    let (cancelled, later) = is_cancelled w.cancellation in
    if cancelled then err operation_cancelled else ok (tt, record w { cancellation = later })

-- `CHECKPOINT_INTERVAL` is 1,024.
unfoldable pub checkpoint_at : ℕ → M (Unit {0})
unfolding checkpoint
checkpoint_at index = if index % 1024 == 0 then checkpoint else pure tt

-- An update of the counters that may cross a budget.
abbrev pub counted : (MatchingUsage → Result LimitExceeded MatchingUsage) → M (Unit {0})
counted f w = elim (f w.usage) [
  | ok u ↦ ok (tt, record w { usage = u })
  | err e ↦ err (limit_error e)
]

-- `limits.matching.usage()`, at the start of a check.
abbrev pub start_usage : M (Unit {0})
start_usage w = ok (tt, record w { usage = Matching.usage })
