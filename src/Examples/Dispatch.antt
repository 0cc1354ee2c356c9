-- ===== src/Examples/Dispatch.antt =====
-- The dispatcher's theorems at a coordinator with a queued job and an idle worker.
use radahn.Common.{
  ℕ, ◌<◌, ◌≡◌, refl, pos, ◌⊎◌, inl, inr, Bool-cases, some, [], ◌∷◌, ok, err, arith, Str, str_eq,
}
use radahn.Common.Keyed
use radahn.Domain.Error.{Error}
use radahn.Domain.JobState.{queued}
use radahn.Domain.Eligibility.Sound.{Meets}
use radahn.Scheduler.Policy.{least_loaded, least_loaded_name}
use radahn.Scheduler.Planner.{DispatchDecision}
use radahn.Persistence.JobRepository.{JobRecord}
use radahn.Persistence.WorkerRepository.{StoredWorker, stored_key}
use radahn.Coordinator.State.{Coordinator, is_active_state}
use radahn.Coordinator.Invariant.{Inv, IsSoundRecord, Account}
use radahn.Coordinator.Submit.{unassigned}
use radahn.Coordinator.Dispatch.{apply_dispatch_decision}
use radahn.Coordinator.Dispatch.Applied.{Names, returned, dispatched}
use radahn.Coordinator.Dispatch.Kept.{apply_dispatch_decision_cases}
use radahn.Examples.Values.{
  nat_double, job_id, worker_id, small, small-IsValidRequirements, job_in, job_in-IsValidJob,
  idle_worker, idle_worker-IsValidWorker, idle_view,
}

abbrev waiting_record : JobRecord ℕ
waiting_record = unassigned (job_in queued 2 7)

abbrev idle_stored : StoredWorker ℕ
idle_stored = record { worker = idle_worker 1; last_heartbeat = pos 4000 }

abbrev ready : Coordinator ℕ
ready = record {
  jobs = waiting_record ∷ [];
  workers = idle_stored ∷ [];
  lease_duration = pos 5000;
  queue = job_in queued 2 7 ∷ [];
  policy = least_loaded;
}

waiting_record-IsSoundRecord : IsSoundRecord waiting_record
unfolding is_active_state
waiting_record-IsSoundRecord = record {
  job_valid = job_in-IsValidJob queued 2 7;
  requirements_valid = small-IsValidRequirements;
  active_leased = λ h. cc;
  waiting_free = λ h. (refl, refl);
}

ready_accounts : (w : Str) → Account w (Keyed.find stored_key w ready.workers) ready.jobs
unfolding Keyed.find is_active_state
ready_accounts w = elim (Bool-cases (str_eq (stored_key idle_stored) w)) [
  | inl same ↦ ground arith
  | inr other ↦ ground arith
]

ready-Inv : Inv ready
unfolding Keyed.find Keyed.has
ready-Inv = record {
  jobs_unique = (refl, tt);
  workers_unique = (refl, tt);
  queue_unique = (refl, tt);
  records_sound = (waiting_record-IsSoundRecord, tt);
  workers_sound = (idle_worker-IsValidWorker 1, tt);
  queue_view = λ id. ground arith;
  accounts = ready_accounts;
}

abbrev to_first : DispatchDecision ℕ
to_first = record {
  job_id = job_id 2;
  worker_id = worker_id 1;
  policy_name = least_loaded_name;
  eligible_worker_count = 1;
  score = some 0;
}

ready-Names : Names to_first waiting_record idle_stored ready
unfolding Keyed.find str_eq
ready-Names = record {
  job_named = refl;
  worker_named = refl;
  job_stored = refl;
  worker_stored = refl;
  job_queued = refl;
  is_queued = refl;
}

apply_dispatch_decision_cases_example :
    ((e : Error) × (apply_dispatch_decision (pos 6000) to_first ready
        ≡ (err e, returned waiting_record ready)))
    ⊎ Meets small (idle_view 1)
      × (0 < 3)
      × (apply_dispatch_decision (pos 6000) to_first ready
          ≡ (ok tt, dispatched (pos 6000) waiting_record idle_stored ready))
apply_dispatch_decision_cases_example =
    apply_dispatch_decision_cases (pos 6000) to_first waiting_record idle_stored ready ready-Inv
      ready-Names
