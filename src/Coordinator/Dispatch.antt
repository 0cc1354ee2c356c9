-- ===== src/Coordinator/Dispatch.antt =====
-- `dispatch_once`, `dispatch_once_for_worker` and `apply_dispatch_decision`.
pub mod Prepare
pub mod Applied
pub mod Kept
pub mod Once
use radahn.Common.{
  ℤ, ◌+ℤ◌, Bool, true, false, not, Option, none, some, List, [], ◌∷◌, if◌then◌else◌, ok, err,
  Result,
}
use radahn.Common
use radahn.Domain.Double.{Double}
use radahn.Domain.Id.{WorkerId}
use radahn.Domain.JobState.{leased}
use radahn.Domain.Worker.{WorkerSnapshot}
use radahn.Domain.Job.{Job, can_attempt, record_attempt, transition_to}
use radahn.Domain.WorkerRecord.{WorkerRecord, snapshot, reserve}
use radahn.Domain.Error.{
  Outcome, dispatch_unknown_worker, planner_unknown_worker, planner_unknown_job,
  queued_job_not_stored, selected_job_exhausted,
}
use radahn.Scheduler.JobQueue
use radahn.Scheduler.Planner.{DispatchDecision, plan}
use radahn.Persistence.JobRepository
use radahn.Persistence.JobRepository.{JobRecord}
use radahn.Persistence.WorkerRepository
use radahn.Coordinator.State.{
  M, ◌>>=◌, ◌>>◌, pure, throw, lift, read, attempt, on_error, or_throw, update_job, update_worker,
  enqueue_job,
}

module _ {F : Type 0} where
  -- `queue_.take(job_id)`.
  unfoldable pub take_job : DispatchDecision F → M F (Option (Job F))
  take_job decision c =
      let (selected, rest) = JobQueue.take decision.job_id c.queue in
      (ok selected, record c { queue = rest })

  -- What the handler does last: the stored job goes back to the queue.
  unfoldable pub restore_queue : JobRecord F → M F (Unit {0})
  restore_queue original c =
      if JobQueue.contains original.job.id c.queue
      then pure tt c
      else attempt (enqueue_job original.job) c

module _ {F : Type 0} ⦃d : Double F⦄ where
  -- The first half of the `try` block changes local copies only: the job that is leased, and the
  -- worker that holds it.
  unfoldable pub prepare : Job F → WorkerRecord F → Outcome (Job F × WorkerRecord F)
  prepare selected worker =
      Common.◌>>=◌ (Common.throw_if (not (can_attempt selected)) selected_job_exhausted) (λ _.
        Common.◌>>=◌ (record_attempt selected) (λ attempted.
          Common.◌>>=◌ (reserve attempted.requirements worker) (λ reserved.
            Common.◌>>=◌ (transition_to leased attempted) (λ job. ok (job, reserved)))))

  -- The `try` block and its handler. `now` is what the clock gives.
  unfoldable pub lease_job :
      ℤ → DispatchDecision F → WorkerRecord F → Job F → JobRecord F → M F (Unit {0})
  unfolding prepare
  lease_job now decision worker selected original = do
    prepared ← on_error (lift (prepare selected worker)) (restore_queue original)
    on_error (update_worker prepared.1) (restore_queue original)
    lease_duration ← read (λ c. c.lease_duration)
    on_error
        (update_job (record {
          job = prepared.0;
          assigned_worker_id = some decision.worker_id;
          lease_expires_at = some (now +ℤ lease_duration);
        }))
        (attempt (update_worker worker) >> restore_queue original)

  unfoldable pub apply_dispatch_decision : ℤ → DispatchDecision F → M F (Unit {0})
  unfolding take_job
  apply_dispatch_decision now decision = do
    found_worker ← read (λ c. WorkerRepository.get decision.worker_id c.workers)
    worker ← or_throw found_worker planner_unknown_worker
    taken ← take_job decision
    selected_job ← or_throw taken planner_unknown_job
    stored ← read (λ c. JobRepository.get decision.job_id c.jobs)
    elim stored [
      | none ↦ enqueue_job selected_job >> throw queued_job_not_stored
      | some original ↦ lease_job now decision worker selected_job original
    ]

  -- The snapshots of all workers.
  unfoldable pub snapshots : List (WorkerRecord F) → Outcome (List (WorkerSnapshot F))
  snapshots [] = ok []
  snapshots (worker ∷ workers) =
      Common.◌>>=◌ (snapshot worker) (λ s. Common.◌>>=◌ (snapshots workers) (λ rest. ok (s ∷ rest)))

  -- The planner's answer; its policy may have moved on.
  unfoldable pub ask_planner : List (WorkerSnapshot F) → M F (Option (DispatchDecision F))
  ask_planner workers c =
      let (decision, policy) = plan c.policy c.queue workers in
      (ok decision, record c { policy = policy })

  unfoldable pub dispatch_among : ℤ → List (WorkerSnapshot F) → M F (Option (DispatchDecision F))
  unfolding ask_planner
  dispatch_among now workers = do
    decision ← ask_planner workers
    elim decision [
      | none ↦ pure none
      | some chosen ↦ apply_dispatch_decision now chosen >> pure (some chosen)
    ]

  unfoldable pub dispatch_once : ℤ → M F (Option (DispatchDecision F))
  unfolding dispatch_among
  dispatch_once now = do
    workers ← read (λ c. WorkerRepository.list c.workers)
    views ← lift (snapshots workers)
    dispatch_among now views

  unfoldable pub dispatch_once_for_worker : ℤ → WorkerId → M F (Option (DispatchDecision F))
  unfolding dispatch_among
  dispatch_once_for_worker now worker_id = do
    found ← read (λ c. WorkerRepository.get worker_id c.workers)
    worker ← or_throw found dispatch_unknown_worker
    view ← lift (snapshot worker)
    dispatch_among now (view ∷ [])
