-- ===== src/Coordinator/Submit.antt =====
-- `submit_job` and `register_worker`.
pub mod Added
use radahn.Common.{ℤ, Option, none, Bool, true, false, ok, err}
use radahn.Domain.Job.{Job}
use radahn.Domain.WorkerRecord.{WorkerRecord}
use radahn.Domain.Error.{job_exists_already}
use radahn.Persistence.JobRepository
use radahn.Persistence.JobRepository.{JobRecord}
use radahn.Persistence.WorkerRepository
use radahn.Coordinator.State.{
  M, ◌>>=◌, ◌>>◌, lift, on_error, on_workers, insert_job, erase_job, enqueue_job,
}
use radahn.Common

module _ {F : Type 0} where
  abbrev pub unassigned : Job F → JobRecord F
  unassigned job = record { job = job; assigned_worker_id = none; lease_expires_at = none }

  unfoldable pub submit_job : Job F → M F (Unit {0})
  submit_job job c =
      (do
        lift (Common.throw_if (JobRepository.contains job.id c.jobs) job_exists_already)
        insert_job (unassigned job)
        on_error (enqueue_job job) (erase_job job.id))
        c

  -- `now` is what the clock gives.
  unfoldable pub register_worker : ℤ → WorkerRecord F → M F (Unit {0})
  register_worker now worker c = on_workers (WorkerRepository.insert now worker c.workers) c
