-- ===== src/Pool.antt =====
-- conkit-sketch/work.rs, `AsyncWorkPool`: the admission of operations, the permits that they hold,
-- and their cancellation. A job is a call of `execute`. The executor, the Rayon pool and the
-- callers run concurrently: each of their atomic actions on a job is one value of `Action`, and `act`
-- is what the code does then, or `none` where it cannot happen. An operation that is submitted is
-- picked by some worker in the end, and its body returns or panics.
pub mod Accounting
pub mod Draining
use contract_kit.Prelude.{
  ℕ, zero, suc, ◌+◌, Bool, true, false, not, ◌||◌, Option, none, some, List, [], ◌∷◌, ◌++◌, ltb,
  u64_max, if◌then◌else◌,
}
use contract_kit.Prelude.Results.{Result, ok, err}
use contract_kit.Text.{Text}
use contract_kit.Error.{Error, worker_failed, work_capacity_overflow, queue_full}

-- `max_in_flight_operations` is not zero.
pub record WorkOptions : Type 0 where
  pub max_in_flight_operations : ℕ
  pub max_pending_operations : ℕ

abbrev pub default : WorkOptions
default = record { max_in_flight_operations = 1; max_pending_operations = 0 }

-- The permits of the two semaphores that are free.
pub record Permits : Type 0 where
  pub admitted : ℕ
  pub running : ℕ

-- `AsyncWorkPool::new`, for what building the Rayon pool returns.
unfoldable pub new : Option Text → WorkOptions → Result Error Permits
new (some message) options = err (worker_failed message)
new none options =
    let capacity = options.max_in_flight_operations + options.max_pending_operations in
    if ltb u64_max capacity
    then err work_capacity_overflow
    else ok (record { admitted = capacity; running = options.max_in_flight_operations })

pub data Outcome : Type 0 where
  returned panicked : Outcome

pub data Phase : Type 0 where
  -- Admitted, and awaiting a permit to run.
  waiting : Phase
  -- The closure is spawned, with both permits.
  submitted : Phase
  -- The body of the operation runs.
  executing : Phase
  -- The closure ended without running the body.
  skipped : Phase
  -- The closure ended, and the outcome is sent.
  finished : Outcome → Phase
  -- The future has passed the outcome on.
  delivered : Outcome → Phase
  -- The future was dropped in front of the submission.
  withdrawn : Phase

pub record Job : Type 0 where
  pub phase : Phase
  -- The receiver lives: the future is not dropped.
  pub listening : Bool
  -- The flag of the probe.
  pub cancelled : Bool
  -- The guard is still to set the flag when it is dropped.
  pub armed : Bool

-- `try_acquire_arc` at the entry of `execute`, with the job that it starts.
unfoldable pub admit : Permits → Result Error (Job × Permits)
admit permits = elim (permits.admitted) [
  | zero ↦ err queue_full
  | suc left ↦ ok (
    record { phase = waiting; listening = true; cancelled = false; armed = true },
    record permits { admitted = left },
  )
]

pub data Action : Type 0 where
  -- The future gets its permit to run and spawns the closure.
  acquire : Action
  -- A worker starts the closure.
  pick : Action
  -- The body returns or panics; the permits are dropped, and the outcome is sent.
  complete : Outcome → Action
  -- The future is polled with the outcome.
  receive : Action
  -- The future is dropped: first its receiver, then its guard.
  drop_receiver : Action
  drop_guard : Action

-- Both permits of a closure that ends.
abbrev pub release : Permits → Permits
release permits = record { admitted = permits.admitted + 1; running = permits.running + 1 }

-- The future waits for a permit to run.
abbrev pub acquire_running : Job → Permits → Option (Job × Permits)
acquire_running job permits = elim (permits.running) [
  | zero ↦ none
  | suc left ↦ some (record job { phase = submitted }, record permits { running = left })
]

-- The head of the closure.
abbrev pub start : Job → Permits → Job × Permits
start job permits =
    if not job.listening || job.cancelled
    then (record job { phase = skipped }, release permits)
    else (record job { phase = executing }, permits)

-- `Drop` of the guard.
abbrev pub set_flag : Job → Job
set_flag job = if job.armed then record job { cancelled = true; armed = false } else job

-- A future that is dropped while it waits gives its permit back.
abbrev pub withdraw : Job → Permits → Job × Permits
withdraw job permits = (
  record job { phase = withdrawn; listening = false; cancelled = true; armed = false },
  record permits { admitted = permits.admitted + 1 },
)

-- The future passes the outcome on, if it was not dropped.
abbrev pub deliver : Outcome → Job → Permits → Option (Job × Permits)
deliver outcome job permits =
    if job.listening
    then some (record job { phase = delivered outcome; armed = false }, permits)
    else none

abbrev pub deafen : Job → Permits → Option (Job × Permits)
deafen job permits =
    if job.listening then some (record job { listening = false }, permits) else none

abbrev pub flag_after : Job → Permits → Option (Job × Permits)
flag_after job permits = if job.listening then none else some (set_flag job, permits)

abbrev pub act_on : Phase → Action → Job → Permits → Option (Job × Permits)
act_on waiting acquire job permits = acquire_running job permits
act_on waiting drop_receiver job permits = some (withdraw job permits)
act_on submitted pick job permits = some (start job permits)
act_on submitted drop_receiver job permits = deafen job permits
act_on submitted drop_guard job permits = flag_after job permits
act_on executing (complete outcome) job permits =
    some (record job { phase = finished outcome }, release permits)
act_on executing drop_receiver job permits = deafen job permits
act_on executing drop_guard job permits = flag_after job permits
act_on (finished outcome) receive job permits = deliver outcome job permits
act_on (finished outcome) drop_receiver job permits = deafen job permits
act_on (finished outcome) drop_guard job permits = flag_after job permits
act_on skipped drop_guard job permits = flag_after job permits
act_on (delivered outcome) drop_guard job permits = some (set_flag job, permits)
act_on _ _ job permits = none

-- `execute` behind the admission, one action at a time.
unfoldable pub act : Action → Job → Permits → Option (Job × Permits)
act action job permits = act_on job.phase action job permits
