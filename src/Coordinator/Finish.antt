-- ===== src/Coordinator/Finish.antt =====
-- `mark_running`, `finish_job`, `mark_succeeded` and `mark_failed`.
pub mod Running
pub mod Finished
use radahn.Common.{ℤ, ◌+ℤ◌, Option, none, some, Bool, true, false}
use radahn.Domain.Double.{Double}
use radahn.Domain.Id.{JobId}
use radahn.Domain.JobState.{JobState, running, succeeded, failed, validate_transition}
use radahn.Domain.Job.{transition_to}
use radahn.Domain.WorkerRecord
use radahn.Domain.WorkerRecord.{WorkerRecord}
use radahn.Domain.Error.{
  start_unknown_job, start_unassigned_job, finish_unknown_job, finish_unassigned_job,
  assigned_worker_unknown,
}
use radahn.Persistence.JobRepository
use radahn.Persistence.JobRepository.{JobRecord}
use radahn.Persistence.WorkerRepository
use radahn.Coordinator.State.{M, ◌>>=◌, ◌>>◌, lift, on_error, or_throw, update_job, update_worker}

module _ {F : Type 0} where
  -- `now` is what the clock gives.
  unfoldable pub mark_running : ℤ → JobId → M F (Unit {0})
  mark_running now job_id c =
      (do
        r ← or_throw (JobRepository.get job_id c.jobs) start_unknown_job
        assigned ← or_throw r.assigned_worker_id start_unassigned_job
        job ← lift (transition_to running r.job)
        update_job (record r { job = job; lease_expires_at = some (now +ℤ c.lease_duration) }))
        c

module _ {F : Type 0} ⦃d : Double F⦄ where
  unfoldable pub finish_job : JobId → JobState → M F (Unit {0})
  finish_job job_id terminal_state c =
      (do
        r ← or_throw (JobRepository.get job_id c.jobs) finish_unknown_job
        worker_id ← or_throw r.assigned_worker_id finish_unassigned_job
        lift (validate_transition r.job.state terminal_state)
        worker ← or_throw (WorkerRepository.get worker_id c.workers) assigned_worker_unknown
        released ← lift (WorkerRecord.release r.job.requirements worker)
        job ← lift (transition_to terminal_state r.job)
        update_worker released
        on_error (update_job (record r { job = job; lease_expires_at = none }))
            (update_worker worker))
        c

  unfoldable pub mark_succeeded : JobId → M F (Unit {0})
  unfolding finish_job
  mark_succeeded job_id = finish_job job_id succeeded

  unfoldable pub mark_failed : JobId → M F (Unit {0})
  unfolding finish_job
  mark_failed job_id = finish_job job_id failed
