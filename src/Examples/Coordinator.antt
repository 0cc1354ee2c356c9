-- ===== src/Examples/Coordinator.antt =====
-- The coordinator's theorems at concrete coordinators.
use radahn.Common.{
  ℕ, ◌≡◌, refl, pos, ◌+ℤ◌, ◌⊎◌, inl, inr, Bool-cases, some, [], ◌∷◌, map, ok, err, arith, Str,
  str_eq,
}
use radahn.Common.Keyed
use radahn.Domain.Error.{Error}
use radahn.Domain.JobState.{leased, succeeded}
use radahn.Domain.WorkerRecord.Accounts.{reserved}
use radahn.Scheduler.Policy.{least_loaded}
use radahn.Persistence.JobRepository.{JobRecord}
use radahn.Persistence.WorkerRepository.{StoredWorker, stored_key}
use radahn.Coordinator.State.{Coordinator, is_active_state}
use radahn.Coordinator.Invariant.{Inv, IsSoundRecord, IsSoundWorker, Account}
use radahn.Coordinator.Finish.{finish_job}
use radahn.Coordinator.Finish.Finished.{Finishes, finish_job_cases}
use radahn.Coordinator.Recover.{make_coordinator}
use radahn.Coordinator.Recover.Recovered.{Storable, IsRecovered, make_coordinator-IsRecovered}
use radahn.Coordinator.Reachable.{finds_stale, Call-Inv}
use radahn.Coordinator.Loops.Mapped.{count}
use radahn.Coordinator.Expiry.{mark_expired_job_leases, requeue_retry_wait_jobs}
use radahn.Coordinator.Expiry.Ended.{mark_expired_job_leases-Inv}
use radahn.Coordinator.Expiry.Again.{tries_again, after_wait, requeue_retry_wait_jobs_lem}
use radahn.Coordinator.Heartbeat.{record_worker_heartbeat, mark_stale_workers_offline}
use radahn.Coordinator.Heartbeat.Beat.{awake}
use radahn.Coordinator.Heartbeat.Stale.{is_stale}
use radahn.Coordinator.Heartbeat.Offline.{set_offline, mark_stale_workers_offline_lem}
use radahn.Coordinator.Heartbeat.Leases.{renewed_of, record_worker_heartbeat_lem}
use radahn.Examples.Values.{
  nat_double, nat_double-IsIeee, job_id, worker_id, small, small-IsValidRequirements, job_in,
  idle_worker,
}

-- A leased job, and the worker that holds it.
abbrev pub leased_record : JobRecord ℕ
leased_record = record {
  job = record (job_in leased 1 5) { attempt_count = 1 };
  assigned_worker_id = some (worker_id 1);
  lease_expires_at = some (pos 9000);
}

abbrev pub busy_worker : StoredWorker ℕ
busy_worker = record { worker = reserved small (idle_worker 1); last_heartbeat = pos 4000 }

abbrev pub busy : Coordinator ℕ
busy = record {
  jobs = leased_record ∷ [];
  workers = busy_worker ∷ [];
  lease_duration = pos 5000;
  queue = [];
  policy = least_loaded;
}

leased_record-IsSoundRecord : IsSoundRecord leased_record
unfolding is_active_state
leased_record-IsSoundRecord = record {
  job_valid = ground arith;
  requirements_valid = small-IsValidRequirements;
  active_leased = λ h. (refl, refl);
  waiting_free = λ h. cc;
}

busy_worker-IsSoundWorker : IsSoundWorker busy_worker
busy_worker-IsSoundWorker = ground arith

busy_accounts : (w : Str) → Account w (Keyed.find stored_key w busy.workers) busy.jobs
unfolding Keyed.find is_active_state
busy_accounts w = elim (Bool-cases (str_eq (stored_key busy_worker) w)) [
  | inl same ↦ ground arith
  | inr other ↦ ground arith
]

pub busy-Inv : Inv busy
unfolding Keyed.find Keyed.has
busy-Inv = record {
  jobs_unique = (refl, tt);
  workers_unique = (refl, tt);
  queue_unique = tt;
  records_sound = (leased_record-IsSoundRecord, tt);
  workers_sound = (busy_worker-IsSoundWorker, tt);
  queue_view = λ id. ground arith;
  accounts = busy_accounts;
}

finish_job_cases_example :
    ((e : Error) × (finish_job (job_id 1) succeeded busy ≡ (err e, busy)))
    ⊎ Finishes (job_id 1) succeeded busy
finish_job_cases_example = finish_job_cases (job_id 1) succeeded busy

Call-Inv_example : Inv (mark_stale_workers_offline (pos 9000) (pos 5000) busy).1
Call-Inv_example = Call-Inv nat_double-IsIeee (finds_stale (pos 9000) (pos 5000)) busy-Inv

busy-Storable : Storable busy.jobs busy.workers
unfolding Keyed.has
busy-Storable = record {
  jobs_unique = (refl, tt);
  workers_unique = (refl, tt);
  jobs_storable = ((leased_record-IsSoundRecord.job_valid, small-IsValidRequirements), tt);
  workers_sound = (busy_worker-IsSoundWorker, tt);
}

make_coordinator-IsRecovered_example :
    ((make_coordinator least_loaded busy.jobs busy.workers (pos 5000)).0 ≡ ok tt)
    × IsRecovered (make_coordinator least_loaded busy.jobs busy.workers (pos 5000)).1
make_coordinator-IsRecovered_example =
    make_coordinator-IsRecovered nat_double-IsIeee least_loaded busy.jobs busy.workers (pos 5000)
      refl busy-Storable

-- The lease has expired, and the job waits to be tried again.
abbrev expired : Coordinator ℕ
expired = (mark_expired_job_leases (pos 9500) busy).1

requeue_retry_wait_jobs_lem_example :
    ((requeue_retry_wait_jobs expired).0 ≡ ok (count tries_again expired.jobs))
    × ((requeue_retry_wait_jobs expired).1.jobs ≡ map after_wait expired.jobs)
requeue_retry_wait_jobs_lem_example =
    requeue_retry_wait_jobs_lem expired
      (mark_expired_job_leases-Inv nat_double-IsIeee (pos 9500) busy busy-Inv)

mark_stale_workers_offline_lem_example :
    ((mark_stale_workers_offline (pos 9000) (pos 5000) busy).0
      ≡ ok (count (is_stale (pos 9000) (pos 5000)) busy.workers))
    × ((mark_stale_workers_offline (pos 9000) (pos 5000) busy).1.workers
        ≡ map (set_offline (pos 9000) (pos 5000)) busy.workers)
    × ((mark_stale_workers_offline (pos 9000) (pos 5000) busy).1.jobs ≡ busy.jobs)
mark_stale_workers_offline_lem_example =
    mark_stale_workers_offline_lem (pos 9000) (pos 5000) busy busy-Inv refl

busy_found : Keyed.find stored_key (worker_id 1).value busy.workers ≡ some busy_worker
unfolding Keyed.find str_eq
busy_found = refl

record_worker_heartbeat_lem_example :
    ((record_worker_heartbeat (worker_id 1) (pos 4700) busy).0 ≡ ok tt)
    × ((record_worker_heartbeat (worker_id 1) (pos 4700) busy).1.workers
        ≡ Keyed.replace stored_key
            (record (awake busy_worker) { last_heartbeat = pos 4700 })
            busy.workers)
    × ((record_worker_heartbeat (worker_id 1) (pos 4700) busy).1.jobs
        ≡ map (renewed_of (worker_id 1) (pos 4700 +ℤ pos 5000)) busy.jobs)
record_worker_heartbeat_lem_example =
    record_worker_heartbeat_lem (worker_id 1) (pos 4700) busy {s = busy_worker} busy-Inv busy_found
