-- ===== src/Examples/Reachable.antt =====
-- A coordinator with a worker and a job, after three calls.
use radahn.Common.{is_some, ℕ, ◌≤◌, ◌≡◌, refl, pos, some, str_eq, []}
use radahn.Common.Keyed
use radahn.Domain.JobState.{queued}
use radahn.Scheduler.JobQueue
use radahn.Scheduler.Policy.{least_loaded}
use radahn.Persistence.JobRepository
use radahn.Persistence.WorkerRepository
use radahn.Persistence.WorkerRepository.{StoredWorker, stored_key}
use radahn.Coordinator.State.{Coordinator, for_each}
use radahn.Coordinator.Recover.{make_coordinator, recover_persisted_state}
use radahn.Coordinator.Recover.Recovered.{Storable}
use radahn.Coordinator.Submit.{submit_job, register_worker}
use radahn.Scheduler.JobQueue.{job_key}
use radahn.Persistence.JobRepository.{record_key}
use radahn.Coordinator.Invariant.{queued_job, slot, memory, disk, total_held}
use radahn.Coordinator.Reachable.{
  Reachable, begins, goes_on, registers, submits, never_overcommits, queue_complete,
}
use radahn.Examples.Values.{
  nat_double, nat_double-IsIeee, job_id, worker_id, small-IsValidRequirements, job_in,
  job_in-IsValidJob, idle_worker, idle_worker-IsValidWorker,
}

abbrev pub new_coordinator : Coordinator ℕ
new_coordinator = (make_coordinator least_loaded [] [] (pos 5000)).1

abbrev pub with_worker : Coordinator ℕ
with_worker = (register_worker (pos 4000) (idle_worker 1) new_coordinator).1

abbrev pub in_use : Coordinator ℕ
in_use = (submit_job (job_in queued 2 7) with_worker).1

nothing_stored : Storable {F = ℕ} [] []
nothing_stored = record {
  jobs_unique = tt;
  workers_unique = tt;
  jobs_storable = tt;
  workers_sound = tt;
}

pub in_use-Reachable : Reachable in_use
in_use-Reachable =
    goes_on
      (goes_on (begins least_loaded [] [] (pos 5000) refl nothing_stored)
        (registers (pos 4000) (idle_worker 1) (idle_worker-IsValidWorker 1)))
      (submits (job_in queued 2 7) (job_in-IsValidJob queued 2 7) small-IsValidRequirements)

abbrev registered : StoredWorker ℕ
registered = record { worker = idle_worker 1; last_heartbeat = pos 4000 }

in_use-workers : Keyed.find stored_key (worker_id 1).value in_use.workers ≡ some registered
unfolding make_coordinator recover_persisted_state for_each JobRepository.list WorkerRepository.list
    register_worker WorkerRepository.insert WorkerRepository.contains Keyed.has submit_job
    JobRepository.contains JobRepository.insert JobQueue.enqueue JobQueue.contains Keyed.find str_eq
in_use-workers = refl

never_overcommits_example :
    (total_held slot (worker_id 1).value in_use.jobs ≤ 2)
    × (total_held memory (worker_id 1).value in_use.jobs ≤ 1000)
    × (total_held disk (worker_id 1).value in_use.jobs ≤ 1000)
never_overcommits_example =
    never_overcommits nat_double-IsIeee in_use (worker_id 1).value {s = registered} in_use-Reachable
      in_use-workers

queue_complete_example :
    Keyed.has job_key (job_id 2).value in_use.queue
    ≡ is_some (queued_job (Keyed.find record_key (job_id 2).value in_use.jobs))
queue_complete_example = queue_complete nat_double-IsIeee in_use (job_id 2).value in_use-Reachable
