-- ===== src/Pool/Draining.antt =====
-- The pool never gets stuck: what is under way can be brought to its end.
use contract_kit.Prelude.{
  ℕ, zero, suc, ◌+◌, ◌≤◌, ◌<◌, ◌≡◌, refl, none, some, List, [], ◌∷◌, ◌++◌, arith, inl, inr, ltb,
  Bool-cases, ◌-◌, ap, sym,
}
use mathlib.Core.Path.{subst}
use contract_kit.Prelude.Results.{ok}
use contract_kit.Pool.{
  WorkOptions, Permits, new, returned, Phase, waiting, submitted, executing, finished, Job, Action,
  acquire, pick, complete, act, start, release,
}
use contract_kit.Pool.Accounting.{
  Pool, Step, acts, Steps, holds_admitted, holds_running, admitted_jobs, running_jobs, Balanced,
  Served, Step-Balanced, pool-Balanced, built,
}

-- The actions that a job is from its end, by the executor and a worker alone.
abbrev pub to_go : Phase → ℕ
to_go waiting = 3
to_go submitted = 2
to_go executing = 1
to_go _ = 0

abbrev pub all_to_go : List Job → ℕ
all_to_go [] = 0
all_to_go (j ∷ js) = to_go j.phase + all_to_go js

all_to_go-at :
    (xs ys : List Job) (j : Job) → all_to_go (xs ++ j ∷ ys) ≡ to_go j.phase + all_to_go (xs ++ ys)
all_to_go-at [] ys j = refl
all_to_go-at (x ∷ xs) ys j = omega (arith, all_to_go-at xs ys j)

-- The actions of the executor and of a worker whose operation returns: no receiver takes an
-- outcome and no future is dropped.
abbrev pub IsServing : Action → Type 0
IsServing acquire = Unit
IsServing pick = Unit
IsServing (complete returned) = Unit
IsServing _ = ⊥

-- A run of such actions only, on the jobs that are there: no call is admitted.
pub data Serves : Pool → Pool → Type 0 where
  rests : (s : Pool) → Serves s s
  serves :
      (action : Action) (p p' : Permits) (xs ys : List Job) (j j' : Job) (t : Pool)
      → IsServing action
      → act action j p ≡ some (j', p')
      → Serves (record { permits = p'; jobs = xs ++ j' ∷ ys }) t
      → Serves (record { permits = p; jobs = xs ++ j ∷ ys }) t

-- One job that the pool can go on with.
record Moving (p : Permits) (jobs : List Job) : Type 0 where
  pub action : Action
  pub before : List Job
  pub after : List Job
  pub job : Job
  pub moved : Job
  pub left : Permits
  pub is_there : jobs ≡ before ++ job ∷ after
  pub acts_on_it : act action job p ≡ some (moved, left)
  pub own : IsServing action
  pub closer : to_go moved.phase < to_go job.phase

-- A job that holds a permit to run goes on with no other permit.
running_moves :
    (phase : Phase) (j : Job) (p : Permits)
    → j.phase ≡ phase
    → 0 < holds_running phase
    → (action : Action) × (j' : Job) × (p' : Permits) × (act action j p ≡ some (j', p'))
      × (to_go j'.phase < to_go phase)
      × IsServing action
unfolding act
running_moves submitted j p is h =
    (pick, (start j p).0, (start j p).1, rw is refl, ground arith, tt)
running_moves executing j p is h = (
  complete returned,
  record j { phase = finished returned },
  release p,
  rw is refl,
  omega arith,
  tt,
)
running_moves phase j p is h = absurd (omega arith)

waiting_moves :
    (phase : Phase) (j : Job) (p : Permits) (free : ℕ)
    → j.phase ≡ phase
    → p.running ≡ suc free
    → 0 < to_go phase
    → holds_running phase ≡ 0
    → (action : Action) × (j' : Job) × (p' : Permits) × (act action j p ≡ some (j', p'))
      × (to_go j'.phase < to_go phase)
      × IsServing action
unfolding act
waiting_moves waiting j p free is there h k = (
  acquire,
  record j { phase = submitted },
  record p { running = free },
  rw (is, there) refl,
  omega arith,
  tt,
)
waiting_moves phase j p free is there h k = absurd (omega arith)

-- The same job behind one more.
Moving-later : (p : Permits) (j : Job) (jobs : List Job) → Moving p jobs → Moving p (j ∷ jobs)
Moving-later p j jobs m = record {
  action = m.action;
  before = j ∷ m.before;
  after = m.after;
  job = m.job;
  moved = m.moved;
  left = m.left;
  is_there = ap (λ t. j ∷ t) m.is_there;
  acts_on_it = m.acts_on_it;
  own = m.own;
  closer = m.closer;
}

Moving-here :
    (p : Permits) (j : Job) (jobs : List Job)
    → (action : Action) × (j' : Job) × (p' : Permits) × (act action j p ≡ some (j', p'))
      × (to_go j'.phase < to_go j.phase)
      × IsServing action
    → Moving p (j ∷ jobs)
Moving-here p j jobs (action, j', p', moves, closer, own) = record {
  action = action;
  before = [];
  after = jobs;
  job = j;
  moved = j';
  left = p';
  is_there = refl;
  acts_on_it = moves;
  own = own;
  closer = closer;
}

find_running : (p : Permits) (jobs : List Job) → 0 < running_jobs jobs → Moving p jobs
find_running p [] h = absurd (omega arith)
find_running p (j ∷ jobs) h = elim (Bool-cases (ltb 0 (holds_running j.phase))) [
  | inl held ↦ Moving-here p j jobs (running_moves j.phase j p refl (ground arith))
  | inr free ↦ Moving-later p j jobs (find_running p jobs (ground arith))
]

find_waiting :
    (p : Permits) (jobs : List Job) (free : ℕ)
    → p.running ≡ suc free
    → running_jobs jobs ≡ 0
    → 0 < all_to_go jobs
    → Moving p jobs
find_waiting p [] free there none_runs h = absurd (omega arith)
find_waiting p (j ∷ jobs) free there none_runs h = elim (Bool-cases (ltb 0 (to_go j.phase))) [
  | inl under_way ↦
      Moving-here p j jobs (waiting_moves j.phase j p free refl there (ground arith) (omega arith))
  | inr settled ↦
      Moving-later p j jobs (find_waiting p jobs free there (omega arith) (ground arith))
]

-- While something is under way, some job can go on.
find-Moving :
    (options : WorkOptions) (s : Pool)
    → 0 < options.max_in_flight_operations
    → Balanced options s
    → 0 < all_to_go s.jobs
    → Moving s.permits s.jobs
find-Moving options s positive b h = elim (Bool-cases (ltb 0 (running_jobs s.jobs))) [
  | inl runs ↦ find_running s.permits s.jobs (ground arith)
  | inr none_runs ↦
      let quiet : running_jobs s.jobs ≡ 0 = ground arith in
      find_waiting s.permits s.jobs (s.permits.running - 1) (omega (arith, b.running_balance)) quiet
        h
]

holds_running-le : (phase : Phase) → holds_running phase ≤ holds_admitted phase
holds_running-le submitted = omega arith
holds_running-le executing = omega arith
holds_running-le _ = omega arith

settled_admitted : (jobs : List Job) → all_to_go jobs ≡ 0 → admitted_jobs jobs ≡ 0
settled_admitted [] h = refl
settled_admitted (j ∷ jobs) h =
    let rest = settled_admitted jobs (omega arith) in
    omega (arith, settled_one j.phase (omega arith))
  where
    settled_one : (phase : Phase) → to_go phase ≡ 0 → holds_admitted phase ≡ 0
    settled_one waiting h = absurd (omega arith)
    settled_one submitted h = absurd (omega arith)
    settled_one executing h = absurd (omega arith)
    settled_one _ h = refl

running-le-admitted : (jobs : List Job) → running_jobs jobs ≤ admitted_jobs jobs
running-le-admitted [] = omega arith
running-le-admitted (j ∷ jobs) =
    let rest = running-le-admitted jobs in
    let one = holds_running-le j.phase in omega (arith, rest, one)

-- One action on the job that can go on.
Moving-Step :
    (s : Pool) (m : Moving s.permits s.jobs)
    → Step s (record { permits = m.left; jobs = m.before ++ m.moved ∷ m.after })
Moving-Step s m =
    subst
      (λ jobs.
        Step (record { permits = s.permits; jobs = jobs })
          (record { permits = m.left; jobs = m.before ++ m.moved ∷ m.after }))
      (sym m.is_there) (acts m.action s.permits m.left m.before m.after m.job m.moved m.acts_on_it)

Moving-Serves :
    (s t : Pool) (m : Moving s.permits s.jobs)
    → Serves (record { permits = m.left; jobs = m.before ++ m.moved ∷ m.after }) t
    → Serves s t
Moving-Serves s t m rest =
    subst (λ jobs. Serves (record { permits = s.permits; jobs = jobs }) t) (sym m.is_there)
      (serves m.action s.permits m.left m.before m.after m.job m.moved t m.own m.acts_on_it rest)

fewer_to_go :
    (s : Pool) (m : Moving s.permits s.jobs)
    → all_to_go (m.before ++ m.moved ∷ m.after) < all_to_go s.jobs
fewer_to_go s m = rw m.is_there (
    omega
      (arith, all_to_go-at m.before m.after m.moved, all_to_go-at m.before m.after m.job, m.closer))

drain :
    (options : WorkOptions) (fuel : ℕ) (s : Pool)
    → all_to_go s.jobs ≤ fuel
    → 0 < options.max_in_flight_operations
    → Balanced options s
    → (t : Pool) × Serves s t × Balanced options t × (all_to_go t.jobs ≡ 0)
drain options zero s h positive b = (s, rests s, b, omega arith)
drain options (suc fuel) s h positive b = elim (Bool-cases (ltb 0 (all_to_go s.jobs))) [
  | inr over ↦ (s, rests s, b, ground arith)
  | inl under_way ↦
      let m = find-Moving options s positive b (ground arith) in
      let t : Pool = record { permits = m.left; jobs = m.before ++ m.moved ∷ m.after } in
      let step = Moving-Step s m in
      let (u, steps, balanced, settled) =
        drain options fuel t (omega (arith, fewer_to_go s m)) positive
          (Step-Balanced options step b) in
      (u, Moving-Serves s u m steps, balanced, settled)
]

-- From whatever state calls, workers and dropped futures have brought the pool into, a run of
-- nothing but grants of a permit to run, starts by a worker and returns of operations brings every
-- job to its end, if there is at least one permit to run: no call is admitted, no future dropped
-- and no outcome received in it. Then all permits are free again, and no operation of a living
-- future was skipped or cancelled.
pub pool_drains :
    (options : WorkOptions) (p : Permits) (s : Pool)
    → 0 < options.max_in_flight_operations
    → new none options ≡ ok p
    → Steps (built p) s
    → (t : Pool) × Serves s t
      × (all_to_go t.jobs ≡ 0)
      × (t.permits.admitted ≡ options.max_in_flight_operations + options.max_pending_operations)
      × (t.permits.running ≡ options.max_in_flight_operations)
      × Served t.jobs
pool_drains options p s positive h steps =
    let (t, rest, b, settled) =
      drain options (all_to_go s.jobs) s (omega arith) positive
        (pool-Balanced options p s h steps) in
    let quiet = settled_admitted t.jobs settled in
    let idle = running-le-admitted t.jobs in
    (
      t,
      rest,
      settled,
      omega (arith, b.admitted_balance, quiet),
      omega (arith, b.running_balance, quiet, idle),
      b.served,
    )
