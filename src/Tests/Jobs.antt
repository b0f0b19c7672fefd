-- ===== src/Tests/Jobs.antt =====
-- One job that starts to execute while its future is dropped, on a pool of one.
use contract_kit.Prelude.{◌≡◌, ◌↔◌, refl, true, false, [], ◌∷◌, arith}
use contract_kit.Prelude.Results.{err}
use contract_kit.Error.{queue_full}
use contract_kit.Pool
use contract_kit.Pool.{
  Permits, new, Job, waiting, submitted, executing, admit, acquire, pick, drop_receiver, drop_guard,
  act,
}
use contract_kit.Pool.Accounting.{
  Pool, admits, acts, Steps, done, next, Balanced, built, Served, admitted_jobs, pool-Balanced,
  admit-queue_full,
}
use contract_kit.Pool.Draining.{Serves, all_to_go, pool_drains}

abbrev one : Permits
one = record { admitted = 1; running = 1 }

abbrev in_queue : Job
in_queue = record { phase = waiting; listening = true; cancelled = false; armed = true }

-- The states of the job on its way.
abbrev spawned : Job
spawned = record in_queue { phase = submitted }

abbrev runs : Job
runs = record in_queue { phase = executing }

abbrev deaf : Job
deaf = record runs { listening = false }

abbrev dropped : Job
dropped = record deaf { cancelled = true; armed = false }

abbrev state : Permits → Job → Pool
state p j = record { permits = p; jobs = j ∷ [] }

abbrev none_free : Permits
none_free = record { admitted = 0; running = 0 }

path : Steps (built one) (state none_free dropped)
unfolding admit act
path =
    next _ _ _
      (next _ _ _
        (next _ _ _
          (next _ _ _
            (next _ _ _ (done _)
              (admits one (record { admitted = 0; running = 1 }) [] in_queue refl))
            (acts acquire (record { admitted = 0; running = 1 }) none_free [] [] in_queue spawned
              refl))
          (acts pick none_free none_free [] [] spawned runs refl))
        (acts drop_receiver none_free none_free [] [] runs deaf refl))
      (acts drop_guard none_free none_free [] [] deaf dropped refl)

pool-Balanced_example : Balanced Pool.default (state none_free dropped)
unfolding new
pool-Balanced_example = pool-Balanced Pool.default one (state none_free dropped) refl path

admit-queue_full_example : (admit none_free ≡ err queue_full) ↔ (admitted_jobs (dropped ∷ []) ≡ 1)
unfolding new
admit-queue_full_example = admit-queue_full Pool.default one (state none_free dropped) refl path

pool_drains_example :
    (t : Pool) × Serves (state none_free dropped) t
    × (all_to_go t.jobs ≡ 0)
    × (t.permits.admitted ≡ 1)
    × (t.permits.running ≡ 1)
    × Served t.jobs
unfolding new
pool_drains_example = pool_drains Pool.default one (state none_free dropped) (omega arith) refl path
