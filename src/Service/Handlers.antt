-- ===== src/Service/Handlers.antt =====
-- The handlers. A call answers with a response or with the code of a status that is not OK; its
-- changes are made under the lock, one call at a time.
use mathlib.Core.Option
use radahn.Common.{
  ℕ, ℤ, pos, Bool, true, false, not, Option, none, some, is_some, List, [], ◌∷◌, ◌++◌, map, Str,
  is_empty, ok, err, if◌then◌else◌,
}
use radahn.Domain.Double.{Double}
use radahn.Domain.Error.{Error, Outcome, is_invalid_argument}
use radahn.Domain.Id.{Tag, JobId, WorkerId, make_id}
use radahn.Domain.Id
use radahn.Domain.Job.{Job, new_job}
use radahn.Domain.JobState.{JobState, leased, running, state_eq}
use radahn.Domain.Resource.{ResourceRequirements, WorkerResources, make_requirements}
use radahn.Domain.WorkerRecord.{WorkerRecord}
use radahn.Persistence.WorkerRepository
use radahn.Service.Stored.{check_insertion, stored_info}
use radahn.Persistence.Sqlite.Values.{to_ms}
use radahn.Coordinator.State.{Coordinator, M, ◌>>=◌, ◌>>◌, pure, lift, read, update_worker}
use radahn.Coordinator.Submit.{submit_job, register_worker}
use radahn.Coordinator.Heartbeat.{record_worker_heartbeat, mark_stale_workers_offline}
use radahn.Coordinator.Expiry.{mark_expired_job_leases, requeue_retry_wait_jobs}
use radahn.Coordinator.Dispatch.{dispatch_once_for_worker}
use radahn.Coordinator.Finish.{mark_running, mark_succeeded, mark_failed}
use radahn.Coordinator.Queries.{
  get_job, list_jobs, job_state, leased_job_for_worker, is_job_assigned_to_worker, worker_snapshot,
}
use radahn.Service.Messages.{
  JobInfo, RpcWorkload, SubmitJobRequest, RegisterWorkerRequest, RegisterWorkerResponse, RpcOutcome,
  outcome_succeeded, outcome_failed, outcome_unspecified, outcome_other, job_info, copy_workload,
  requested_attempts, requested_worker,
}

pub data StatusCode : Type 0 where
  invalid_argument not_found already_exists failed_precondition internal : StatusCode

pub data Reply (A : Type 0) : Type 0 where
  answer : A → Reply A
  refuse : StatusCode → Reply A

-- The `catch` clauses of a handler.
abbrev pub status_of : Error → StatusCode
status_of e = if is_invalid_argument e then invalid_argument else internal

abbrev pub caught : {A : Type 0} → Outcome (Reply A) → Reply A
caught (ok reply) = reply
caught (err e) = refuse (status_of e)

abbrev pub respond : {F A : Type 0} → M F (Reply A) → Coordinator F → Reply A × Coordinator F
respond m c = (caught (m c).0, (m c).1)

-- `version()`.
abbrev pub version : Str
version = b'0' ∷ b'.' ∷ b'1' ∷ b'.' ∷ b'0' ∷ []

abbrev pub pong : Str
pong = b'p' ∷ b'o' ∷ b'n' ∷ b'g' ∷ b':' ∷ b' ' ∷ []

unfoldable pub ping : Str → Str × Str
ping message = (pong ++ message, version)

-- Six seconds.
abbrev pub heartbeat_timeout : ℤ
heartbeat_timeout = pos 6000000000

abbrev pub is_running : Option JobState → Bool
is_running none = false
is_running (some state) = state_eq state running

module _ {F : Type 0} where
  abbrev pub found_job : StatusCode → Option (Job F) → Reply (JobInfo F)
  found_job missing none = refuse missing
  found_job missing (some job) = answer (stored_info job)

  unfoldable pub get_job_handler : Str → Coordinator F → Reply (JobInfo F) × Coordinator F
  get_job_handler id = respond (do
    job_id ← lift (make_id Id.job id)
    job ← read (get_job job_id)
    pure (found_job not_found job))

  unfoldable pub list_jobs_handler : Coordinator F → Reply (List (JobInfo F)) × Coordinator F
  list_jobs_handler = respond (do jobs ← read list_jobs; pure (answer (map stored_info jobs)))

  -- What a leased job needs to be started, and what a running one answers.
  unfoldable pub start_from : ℤ → JobId → Option JobState → M F (Reply (JobInfo F))
  start_from now job_id none = pure (refuse failed_precondition)
  start_from now job_id (some state) =
      if state_eq state leased
      then (do mark_running now job_id; job ← read (get_job job_id); pure (found_job internal job))
      else if state_eq state running
      then (do job ← read (get_job job_id); pure (found_job internal job))
      else pure (refuse failed_precondition)

  -- What follows once both identifiers are made.
  unfoldable pub start_assigned : ℤ → WorkerId → JobId → M F (Reply (JobInfo F))
  unfolding start_from
  start_assigned now worker_id job_id c =
      if not (is_job_assigned_to_worker job_id worker_id c)
      then pure (refuse failed_precondition) c
      else start_from now job_id (job_state job_id c) c

  unfoldable pub start_job_handler :
      ℤ → Str → Str → Coordinator F → Reply (JobInfo F) × Coordinator F
  unfolding start_assigned
  start_job_handler now worker id = respond (do
    worker_id ← lift (make_id Id.worker worker)
    job_id ← lift (make_id Id.job id)
    start_assigned now worker_id job_id)

module _ {F : Type 0} ⦃d : Double F⦄ where
  -- The part of the handler that holds the lock, and the answer. The repository's checks come
  -- before the coordinator changes.
  unfoldable pub submit_new : JobId → Job F → M F (Reply (JobInfo F))
  submit_new job_id job c =
      if is_some (get_job job_id c)
      then pure (refuse already_exists) c
      else (do checked ← lift (check_insertion job); submit_job job; pure (answer (job_info job))) c

  unfoldable pub submit_parts :
      ℤ
      → SubmitJobRequest F
      → Option (ResourceRequirements F)
      → Option RpcWorkload
      → M F (Reply (JobInfo F))
  unfolding submit_new
  submit_parts now request none workload = pure (refuse invalid_argument)
  submit_parts now request (some requirements) none = pure (refuse invalid_argument)
  submit_parts now request (some requirements) (some workload) = do
    job_id ← lift (make_id Id.job request.id)
    required ← lift (make_requirements requirements)
    work ← lift (copy_workload workload)
    max_attempts ← lift (requested_attempts request.max_attempts)
    job ← lift (new_job job_id request.name request.priority required work max_attempts now)
    submit_new job_id job

  -- `now` is what the clock gives to the job's constructor.
  unfoldable pub submit_job_handler :
      ℤ → SubmitJobRequest F → Coordinator F → Reply (JobInfo F) × Coordinator F
  unfolding submit_parts
  submit_job_handler now request =
      respond (submit_parts now request request.requirements request.workload)

  -- A worker that is stored already is replaced in the repository. `now` and `later` are what the
  -- clock gives to the repository and for the heartbeat.
  unfoldable pub store_worker : ℤ → WorkerRecord F → M F (Unit {0})
  store_worker now worker c =
      if WorkerRepository.contains worker.id c.workers
      then update_worker worker c
      else register_worker now worker c

  unfoldable pub register_with :
      ℤ
      → ℤ
      → RegisterWorkerRequest F
      → Option (WorkerResources F)
      → M F (Reply RegisterWorkerResponse)
  unfolding store_worker
  register_with now later request none = pure (refuse invalid_argument)
  register_with now later request (some resources) = do
    worker ← lift (requested_worker request resources)
    already_registered ← read (λ c. WorkerRepository.contains worker.id c.workers)
    store_worker now worker
    record_worker_heartbeat worker.id later
    pure (answer (record { worker_id = worker.id.value; already_registered = already_registered }))

  unfoldable pub register_worker_handler :
      ℤ → ℤ → RegisterWorkerRequest F → Coordinator F → Reply RegisterWorkerResponse × Coordinator F
  unfolding register_with
  register_worker_handler now later request =
      respond (register_with now later request request.resources)

  -- The answer is the coordinator's time in milliseconds.
  unfoldable pub beat_known : ℤ → WorkerId → M F (Reply ℤ)
  beat_known heartbeat_time worker_id c =
      if not (WorkerRepository.contains worker_id c.workers)
      then pure (refuse not_found) c
      else (record_worker_heartbeat worker_id heartbeat_time
            >> pure (answer (to_ms heartbeat_time)))
          c

  unfoldable pub heartbeat_handler : ℤ → Str → Coordinator F → Reply ℤ × Coordinator F
  unfolding beat_known
  heartbeat_handler heartbeat_time id c =
      if is_empty id
      then (refuse invalid_argument, c)
      else respond (do worker_id ← lift (make_id Id.worker id); beat_known heartbeat_time worker_id)
          c

  -- The job that is leased to the worker, after a dispatch if there was none.
  unfoldable pub acquire_from : ℤ → WorkerId → Option (Job F) → M F (Reply (Option (JobInfo F)))
  acquire_from now worker_id (some job) = pure (answer (some (stored_info job)))
  acquire_from now worker_id none = do
    dispatched ← dispatch_once_for_worker now worker_id
    assigned ← read (leased_job_for_worker worker_id)
    pure (answer (Option.map stored_info assigned))

  unfoldable pub acquire_by :
      {B : Type 0} → ℤ → WorkerId → Option B → M F (Reply (Option (JobInfo F)))
  unfolding acquire_from
  acquire_by now worker_id none c = pure (refuse not_found) c
  acquire_by now worker_id (some registered) c =
      acquire_from now worker_id (leased_job_for_worker worker_id c) c

  unfoldable pub acquire_job_handler :
      ℤ → Str → Coordinator F → Reply (Option (JobInfo F)) × Coordinator F
  unfolding acquire_by
  acquire_job_handler now id = respond (do
    worker_id ← lift (make_id Id.worker id)
    registered ← (λ c. (worker_snapshot worker_id c, c))
    acquire_by now worker_id registered)

  abbrev pub finish_by : RpcOutcome → JobId → M F (Unit {0}) → M F (Unit {0}) → M F Bool
  finish_by outcome_succeeded job_id succeed fail = succeed >> pure true
  finish_by outcome_failed job_id succeed fail = fail >> pure true
  finish_by outcome_unspecified job_id succeed fail = pure false
  finish_by (outcome_other n) job_id succeed fail = pure false

  -- The `switch` on the outcome of a running job.
  unfoldable pub finish_with : JobId → RpcOutcome → M F (Reply (JobInfo F))
  finish_with job_id outcome = do
    valid ← finish_by outcome job_id (mark_succeeded job_id) (mark_failed job_id)
    job ← read (get_job job_id)
    pure (if valid then found_job internal job else refuse invalid_argument)

  unfoldable pub finish_assigned : WorkerId → JobId → RpcOutcome → M F (Reply (JobInfo F))
  unfolding finish_with
  finish_assigned worker_id job_id outcome c =
      if not (is_job_assigned_to_worker job_id worker_id c)
      then pure (refuse failed_precondition) c
      else if is_running (job_state job_id c)
      then finish_with job_id outcome c
      else pure (refuse failed_precondition) c

  unfoldable pub finish_job_handler :
      Str → Str → RpcOutcome → Coordinator F → Reply (JobInfo F) × Coordinator F
  unfolding finish_assigned
  finish_job_handler worker id outcome = respond (do
    worker_id ← lift (make_id Id.worker worker)
    job_id ← lift (make_id Id.job id)
    finish_assigned worker_id job_id outcome)

  -- One round of the liveness monitor; an exception ends the round.
  unfoldable pub scan : ℤ → M F (ℕ × ℕ × ℕ)
  scan now = do
    marked_offline ← mark_stale_workers_offline now heartbeat_timeout
    expired_leases ← mark_expired_job_leases now
    requeued_jobs ← requeue_retry_wait_jobs
    pure (marked_offline, expired_leases, requeued_jobs)
