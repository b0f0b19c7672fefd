-- ===== src/Pool/Accounting.antt =====
-- Every permit is free or held by one job that is under way.
use contract_kit.Prelude.{
  ℕ, zero, suc, ◌+◌, ◌≡◌, ◌↔◌, refl, Bool, true, false, none, some, List, [], ◌∷◌, ◌++◌, arith,
}
use contract_kit.Prelude.Results.{Result, ok, err}
use contract_kit.Error.{Error, queue_full}
use contract_kit.Pool.{
  WorkOptions, Permits, new, Phase, waiting, submitted, executing, skipped, delivered, Job, admit,
  Action, acquire, pick, act, act_on,
}

pub record Pool : Type 0 where
  pub permits : Permits
  pub jobs : List Job

-- A call of `execute` is admitted, or one action happens on one of the jobs.
pub data Step : Pool → Pool → Type 0 where
  admits :
      (p p' : Permits) (jobs : List Job) (j : Job)
      → admit p ≡ ok (j, p')
      → Step (record { permits = p; jobs = jobs }) (record { permits = p'; jobs = j ∷ jobs })
  acts :
      (action : Action) (p p' : Permits) (xs ys : List Job) (j j' : Job)
      → act action j p ≡ some (j', p')
      → Step
          (record { permits = p; jobs = xs ++ j ∷ ys })
          (record { permits = p'; jobs = xs ++ j' ∷ ys })

pub data Steps : Pool → Pool → Type 0 where
  done : (s : Pool) → Steps s s
  next : (s t u : Pool) → Steps s t → Step t u → Steps s u

-- The permits that a job holds.
abbrev pub holds_admitted : Phase → ℕ
holds_admitted waiting = 1
holds_admitted submitted = 1
holds_admitted executing = 1
holds_admitted _ = 0

abbrev pub holds_running : Phase → ℕ
holds_running submitted = 1
holds_running executing = 1
holds_running _ = 0

abbrev pub admitted_jobs : List Job → ℕ
admitted_jobs [] = 0
admitted_jobs (j ∷ js) = holds_admitted j.phase + admitted_jobs js

abbrev pub running_jobs : List Job → ℕ
running_jobs [] = 0
running_jobs (j ∷ js) = holds_running j.phase + running_jobs js

-- A future that lives is not cancelled, and its closure is not skipped; one that has its outcome is
-- not cancelled after that either.
abbrev pub IsServed : Phase → Job → Type 0
IsServed skipped j = j.listening ≡ false
IsServed (delivered outcome) j = (j.armed ≡ false) × (j.cancelled ≡ false)
IsServed _ j = j.listening ≡ true → j.cancelled ≡ false

abbrev pub Served : List Job → Type 0
Served [] = Unit
Served (j ∷ js) = IsServed j.phase j × Served js

pub record Balanced (options : WorkOptions) (s : Pool) : Type 0 where
  pub admitted_balance :
      s.permits.admitted + admitted_jobs s.jobs
      ≡ options.max_in_flight_operations + options.max_pending_operations
  pub running_balance : s.permits.running + running_jobs s.jobs ≡ options.max_in_flight_operations
  pub served : Served s.jobs

admitted_jobs-at :
    (xs ys : List Job) (j : Job)
    → admitted_jobs (xs ++ j ∷ ys) ≡ holds_admitted j.phase + admitted_jobs (xs ++ ys)
admitted_jobs-at [] ys j = refl
admitted_jobs-at (x ∷ xs) ys j = omega (arith, admitted_jobs-at xs ys j)

pub running_jobs-at :
    (xs ys : List Job) (j : Job)
    → running_jobs (xs ++ j ∷ ys) ≡ holds_running j.phase + running_jobs (xs ++ ys)
running_jobs-at [] ys j = refl
running_jobs-at (x ∷ xs) ys j = omega (arith, running_jobs-at xs ys j)

Served-at :
    (xs ys : List Job) (j : Job) → Served (xs ++ j ∷ ys) → IsServed j.phase j × Served (xs ++ ys)
Served-at [] ys j h = h
Served-at (x ∷ xs) ys j h = let rest = Served-at xs ys j h.1 in (rest.0, (h.0, rest.1))

Served-put :
    (xs ys : List Job) (j : Job) → IsServed j.phase j → Served (xs ++ ys) → Served (xs ++ j ∷ ys)
Served-put [] ys j e h = (e, h)
Served-put (x ∷ xs) ys j e h = (h.0, Served-put xs ys j e h.1)

-- What an action moves between the free permits and the job.
record Moves (p p' : Permits) (j j' : Job) : Type 0 where
  pub admitted_moves : p'.admitted + holds_admitted j'.phase ≡ p.admitted + holds_admitted j.phase
  pub running_moves : p'.running + holds_running j'.phase ≡ p.running + holds_running j.phase
  pub still_served : IsServed j'.phase j'

act_on-Moves :
    (phase : Phase) (action : Action) (listening cancelled armed : Bool) (p p' : Permits) (j' : Job)
    → IsServed phase
        (record { phase = phase; listening = listening; cancelled = cancelled; armed = armed })
    → act_on phase action
        (record { phase = phase; listening = listening; cancelled = cancelled; armed = armed })
        p
      ≡ some (j', p')
    → Moves p p'
        (record { phase = phase; listening = listening; cancelled = cancelled; armed = armed })
        j'
act_on-Moves waiting acquire l c a p p' j' s h = ground arith
act_on-Moves submitted pick l c a p p' j' s h = ground arith
act_on-Moves phase action l c a p p' j' s h = ground arith

act-Moves :
    (action : Action) (p p' : Permits) (j j' : Job)
    → IsServed j.phase j
    → act action j p ≡ some (j', p')
    → Moves p p' j j'
unfolding act
act-Moves action p p' j j' s h =
    act_on-Moves j.phase action j.listening j.cancelled j.armed p p' j' s h

pub Step-Balanced :
    (options : WorkOptions) {s t : Pool} → Step s t → Balanced options s → Balanced options t
unfolding admit
Step-Balanced options (admits p p' jobs j e) b =
    ground (arith, b.admitted_balance, b.running_balance)
Step-Balanced options (acts action p p' xs ys j j' e) b =
    let kept = Served-at xs ys j b.served in
    let moves = act-Moves action p p' j j' kept.0 e in
    let a = admitted_jobs-at xs ys j in
    let a' = admitted_jobs-at xs ys j' in
    let r = running_jobs-at xs ys j in
    let r' = running_jobs-at xs ys j' in
    record {
      admitted_balance = omega (arith, b.admitted_balance, moves.admitted_moves);
      running_balance = omega (arith, b.running_balance, moves.running_moves);
      served = Served-put xs ys j' moves.still_served kept.1;
    }

pub Steps-Balanced :
    (options : WorkOptions) {s t : Pool} → Steps s t → Balanced options s → Balanced options t
Steps-Balanced options (done s) b = b
Steps-Balanced options (next s t u before step) b =
    Step-Balanced options step (Steps-Balanced options before b)

-- A pool as it is built, without a job.
abbrev pub built : Permits → Pool
built p = record { permits = p; jobs = [] }

built-Balanced :
    (options : WorkOptions) (p : Permits) → new none options ≡ ok p → Balanced options (built p)
unfolding new
built-Balanced options p h = ground arith

-- Whatever calls, workers and dropped futures do, in any order: every admission permit is free or
-- held by one job that waits, is submitted or executes, and every permit to run is free or held by
-- one job that is submitted or executes. So at most `max_in_flight_operations` bodies execute at
-- once, and at most `max_pending_operations` more are admitted. The closure of a future that lives
-- is never skipped, and its operation is never cancelled, nor is one whose outcome was passed on.
pub pool-Balanced :
    (options : WorkOptions) (p : Permits) (s : Pool)
    → new none options ≡ ok p
    → Steps (built p) s
    → Balanced options s
pool-Balanced options p s h steps = Steps-Balanced options steps (built-Balanced options p h)

-- A call is refused with a full queue exactly when as many jobs are under way as may be.
pub admit-queue_full :
    (options : WorkOptions) (p : Permits) (s : Pool)
    → new none options ≡ ok p
    → Steps (built p) s
    → (admit s.permits ≡ err queue_full)
      ↔ (admitted_jobs s.jobs ≡ options.max_in_flight_operations + options.max_pending_operations)
unfolding admit
admit-queue_full options p s h steps =
    full s.permits.admitted (pool-Balanced options p s h steps).admitted_balance
  where
    full :
        (free : ℕ)
        → free + admitted_jobs s.jobs
          ≡ options.max_in_flight_operations + options.max_pending_operations
        → ((elim free as (λ _. Result Error (Job × Permits)) [
          | zero ↦ err queue_full
          | suc left ↦ ok (
            record { phase = waiting; listening = true; cancelled = false; armed = true },
            record s.permits { admitted = left },
          )
        ])
            ≡ err queue_full)
          ↔ (admitted_jobs s.jobs
              ≡ options.max_in_flight_operations + options.max_pending_operations)
    full zero b = (λ _. omega (arith, b), λ _. refl)
    full (suc left) b = (λ e. absurd (ground arith), λ e. absurd (omega (arith, b, e)))
