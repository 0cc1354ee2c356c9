-- ===== src/Coordinator/Expiry.antt =====
-- `mark_expired_job_leases` and `requeue_retry_wait_jobs`.
pub mod Requeued
pub mod Again
pub mod Expired
pub mod Ended
use radahn.Common.{
  ℕ, ℤ, ltb_ℤ, ◌==◌, Bool, true, false, ◌||◌, not, is_some, Option, none, some, if◌then◌else◌,
}
use radahn.Domain.Double.{Double}
use radahn.Domain.JobState.{
  JobState, queued, failed, retry_wait, cancelled, cancellation_requested, state_eq,
}
use radahn.Domain.Job.{can_attempt}
use radahn.Domain.WorkerRecord.{WorkerRecord, snapshot, release}
use radahn.Domain.Error.{retry_wait_assigned}
use radahn.Persistence.JobRepository
use radahn.Persistence.JobRepository.{JobRecord}
use radahn.Persistence.WorkerRepository
use radahn.Coordinator.State.{
  M, ◌>>=◌, ◌>>◌, pure, throw, lift, read, on_error, update_job, update_worker, enqueue_job,
  count_each, is_active_state, restore_as,
}

abbrev pub expired_state : JobState → JobState
expired_state current_state =
    if state_eq current_state cancellation_requested then cancelled else retry_wait

module _ {F : Type 0} ⦃d : Double F⦄ where
  unfoldable pub release_busy : Bool → JobRecord F → WorkerRecord F → M F (Option (WorkerRecord F))
  release_busy true r worker = pure none
  release_busy false r worker = do
    released ← lift (release r.job.requirements worker)
    update_worker released
    pure (some worker)

  -- Gives the job's resources back; the result is the worker before, if it was updated.
  unfoldable pub release_worker : JobRecord F → WorkerRecord F → M F (Option (WorkerRecord F))
  unfolding release_busy
  release_worker r worker = do
    s ← lift (snapshot worker)
    release_busy (s.running_jobs == 0) r worker

  unfoldable pub release_assigned : JobRecord F → M F (Option (WorkerRecord F))
  unfolding release_worker
  release_assigned r = elim r.assigned_worker_id [
    | none ↦ pure none
    | some worker_id ↦ do
      found ← read (λ c. WorkerRepository.get worker_id c.workers)
      elim found [ none ↦ pure none | some worker ↦ release_worker r worker ]
  ]

  abbrev pub roll_back : Option (WorkerRecord F) → M F (Unit {0})
  roll_back none = pure tt
  roll_back (some original_worker) = update_worker original_worker

  -- Ends the lease of an active job.
  unfoldable pub expire : JobRecord F → M F Bool
  unfolding release_assigned
  expire r = do
    original_worker ← release_assigned r
    on_error
        (do
          expired_job ← lift (restore_as (expired_state r.job.state) r.job)
          update_job
              (record { job = expired_job; assigned_worker_id = none; lease_expires_at = none }))
        (roll_back original_worker)
    pure true

  -- The body of the loop over the records.
  unfoldable pub expire_lease : ℤ → JobRecord F → M F Bool
  unfolding expire
  expire_lease now r = elim r.lease_expires_at [
    | none ↦ pure false
    | some deadline ↦
        if ltb_ℤ now deadline
        then pure false
        else if not (is_active_state r.job.state)
        then update_job (record r { lease_expires_at = none }) >> pure false
        else expire r
  ]

  unfoldable pub mark_expired_job_leases : ℤ → M F ℕ
  mark_expired_job_leases now = do
    records ← read (λ c. JobRepository.list c.jobs)
    count_each (expire_lease now) records 0

module _ {F : Type 0} where
  -- A job with no attempt left.
  unfoldable pub give_up : JobRecord F → M F Bool
  give_up r = do
    failed_job ← lift (restore_as failed r.job)
    update_job (record r { job = failed_job })
    pure false

  unfoldable pub queue_again : JobRecord F → M F Bool
  queue_again r = do
    queued_job ← lift (restore_as queued r.job)
    update_job (record r { job = queued_job })
    on_error (enqueue_job queued_job) (update_job r)
    pure true

  -- The body of the loop over the records.
  unfoldable pub requeue : JobRecord F → M F Bool
  unfolding give_up queue_again
  requeue r =
      if not (state_eq r.job.state retry_wait)
      then pure false
      else if is_some r.assigned_worker_id || is_some r.lease_expires_at
      then throw retry_wait_assigned
      else if not (can_attempt r.job)
      then give_up r
      else queue_again r

  unfoldable pub requeue_retry_wait_jobs : M F ℕ
  requeue_retry_wait_jobs = do
    records ← read (λ c. JobRepository.list c.jobs)
    count_each requeue records 0
