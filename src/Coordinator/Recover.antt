-- ===== src/Coordinator/Recover.antt =====
-- `recover_persisted_state` and the constructors, which end with it.
pub mod Jobs
pub mod Workers
pub mod Requeue
pub mod Recovered
use radahn.Common.{
  ℤ, pos, leb_ℤ, Bool, true, false, not, is_some, Option, none, some, List, [], if◌then◌else◌, ok,
  err,
}
use radahn.Common
use radahn.Domain.Double.{Double}
use radahn.Domain.Resource.{make_resources}
use radahn.Domain.JobState.{
  JobState, queued, leased, running, retry_wait, cancellation_requested, succeeded, failed,
  cancelled,
}
use radahn.Domain.Worker.{make_snapshot}
use radahn.Domain.Job.{Job, can_attempt}
use radahn.Domain.WorkerRecord.{WorkerRecord, snapshot, of_snapshot}
use radahn.Domain.Error.{Outcome, lease_not_positive}
use radahn.Scheduler.Policy.{Policy}
use radahn.Persistence.JobRepository
use radahn.Persistence.JobRepository.{JobRecord, JobRepository}
use radahn.Persistence.WorkerRepository
use radahn.Persistence.WorkerRepository.{WorkerRepository}
use radahn.Coordinator.State.{
  Coordinator, M, ◌>>=◌, ◌>>◌, pure, lift, read, update_job, update_worker, enqueue_job, for_each,
  restore_as,
}

module _ {F : Type 0} ⦃d : Double F⦄ where
  -- The body of the loop over the workers: all resources become available.
  unfoldable pub recover_worker : WorkerRecord F → M F (Unit {0})
  recover_worker worker = do
    s ← lift (snapshot worker)
    recovered_resources ← lift (
        make_resources (record s.resources {
          available_cpu_cores = s.resources.total_cpu_cores;
          available_memory_bytes = s.resources.total_memory_bytes;
          available_disk_bytes = s.resources.total_disk_bytes;
        }))
    recovered_snapshot ←
        lift (make_snapshot (record s { resources = recovered_resources; running_jobs = 0 }))
    update_worker (of_snapshot recovered_snapshot)

module _ {F : Type 0} where
  abbrev pub detached : JobRecord F → JobRecord F
  detached r = record r { assigned_worker_id = none; lease_expires_at = none }

  -- The job goes on in another state, with no assignment.
  unfoldable pub store_recovered : JobState → JobRecord F → M F (Job F)
  store_recovered state r = do
    recovered_job ← lift (restore_as state r.job)
    update_job (record (detached r) { job = recovered_job })
    pure recovered_job

  unfoldable pub recover_failed : JobRecord F → M F (Unit {0})
  unfolding store_recovered
  recover_failed r = do job ← store_recovered failed r; pure tt

  unfoldable pub recover_waiting : JobRecord F → M F (Unit {0})
  unfolding store_recovered
  recover_waiting r = do job ← store_recovered queued r; enqueue_job job

  -- `queued`.
  unfoldable pub recover_queued : JobRecord F → M F (Unit {0})
  unfolding recover_failed
  recover_queued r =
      if not (can_attempt r.job)
      then recover_failed r
      else (update_job (detached r) >> enqueue_job r.job)

  -- `leased`, `running` and `retry_wait`.
  unfoldable pub recover_abandoned : JobRecord F → M F (Unit {0})
  unfolding recover_failed recover_waiting
  recover_abandoned r = if can_attempt r.job then recover_waiting r else recover_failed r

  unfoldable pub recover_cancellation : JobRecord F → M F (Unit {0})
  unfolding store_recovered
  recover_cancellation r = do job ← store_recovered cancelled r; pure tt

  unfoldable pub recover_finished : JobRecord F → M F (Unit {0})
  recover_finished r =
      if is_some r.lease_expires_at
      then update_job (record r { lease_expires_at = none })
      else pure tt

  -- The `switch` on the job's state.
  unfoldable pub recover_by : JobState → JobRecord F → M F (Unit {0})
  unfolding recover_queued recover_abandoned recover_cancellation recover_finished
  recover_by queued r = recover_queued r
  recover_by leased r = recover_abandoned r
  recover_by running r = recover_abandoned r
  recover_by retry_wait r = recover_abandoned r
  recover_by cancellation_requested r = recover_cancellation r
  recover_by succeeded r = recover_finished r
  recover_by failed r = recover_finished r
  recover_by cancelled r = recover_finished r

  abbrev pub recover_job : JobRecord F → M F (Unit {0})
  recover_job r = recover_by r.job.state r

module _ {F : Type 0} ⦃d : Double F⦄ where
  unfoldable pub recover_persisted_state : M F (Unit {0})
  recover_persisted_state = do
    workers ← read (λ c. WorkerRepository.list c.workers)
    for_each recover_worker workers
    records ← read (λ c. JobRepository.list c.jobs)
    for_each recover_job records

  -- The constructor over given repositories. An exception leaves them as they are then.
  unfoldable pub make_coordinator :
      Policy → JobRepository F → WorkerRepository F → ℤ → Outcome (Unit {0}) × Coordinator F
  unfolding recover_persisted_state
  make_coordinator policy jobs workers lease_duration =
      (lift (Common.throw_if (leb_ℤ lease_duration (pos 0)) lease_not_positive)
          >> recover_persisted_state)
        (record {
          jobs = jobs;
          workers = workers;
          lease_duration = lease_duration;
          queue = [];
          policy = policy;
        })

  -- The constructor that owns empty repositories.
  unfoldable pub make_in_memory : Policy → ℤ → Outcome (Unit {0}) × Coordinator F
  unfolding make_coordinator
  make_in_memory policy lease_duration = make_coordinator policy [] [] lease_duration
