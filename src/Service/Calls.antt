-- ===== src/Service/Calls.antt =====
-- Each other call of the service, as a sequence of the coordinator's calls.
use radahn.Common.{◌<◌, ℤ, sym, ap, ◌∙◌, Option, none, some, is_some, Str, word_mod, is_empty, not}
use mathlib.Core.Path.{subst}
use radahn.Domain.Double.{Double}
use radahn.Domain.Id.{JobId, WorkerId, make_id}
use radahn.Domain.Id
use radahn.Domain.Job.{Job, new_job}
use radahn.Domain.JobState.{JobState, leased, running, state_eq}
use radahn.Domain.Resource.{ResourceRequirements, make_requirements}
use radahn.Domain.Resource.Validity.{IsValidRequirements}
use radahn.Domain.Job.Attempts.{IsValidJob}
use radahn.Persistence.WorkerRepository
use radahn.Coordinator.State.{Coordinator}
use radahn.Coordinator.Submit.{submit_job}
use radahn.Coordinator.Heartbeat.{record_worker_heartbeat, mark_stale_workers_offline}
use radahn.Coordinator.Expiry.{mark_expired_job_leases, requeue_retry_wait_jobs}
use radahn.Coordinator.Dispatch.{dispatch_once_for_worker}
use radahn.Coordinator.Finish.{mark_running, mark_succeeded, mark_failed}
use radahn.Coordinator.Reachable.{
  submits, dispatches_to, runs, beats, finds_stale, expires, requeues, succeeds, fails,
}
use radahn.Coordinator.Lifecycle.History.{Calls, no_more}
use radahn.Coordinator.Queries.{
  get_job, job_state, leased_job_for_worker, is_job_assigned_to_worker, worker_snapshot,
}
use radahn.Service.Messages.{
  RpcWorkload, SubmitJobRequest, RpcOutcome, outcome_succeeded, outcome_failed, outcome_unspecified,
  outcome_other, copy_workload, requested_attempts,
}
use radahn.Service.Stored.{check_insertion}
use radahn.Service.Handlers.{
  get_job_handler, start_from, start_assigned, start_job_handler, submit_new, submit_parts,
  beat_known, finish_assigned, acquire_by, submit_job_handler, heartbeat_handler, acquire_from,
  acquire_job_handler, finish_by, finish_with, finish_job_handler, scan, is_running,
  heartbeat_timeout,
}
use radahn.Service.Built.{made_requirements, made_job, made_job-IsValidJob, requested_attempts_word}
use radahn.Service.Chains.{one-Call, chain-Calls, step-Calls, pick-Calls, branch-Calls}

module _ {F : Type 0} ⦃d : Double F⦄ where
  start_from-Calls :
      (now : ℤ) (id : JobId) (state : Option JobState) (c : Coordinator F)
      → Calls c (start_from now id state c).1
  unfolding start_from
  start_from-Calls now id none c = no_more
  start_from-Calls now id (some state) c =
      branch-Calls (state_eq state leased) _ _ c
        (chain-Calls (mark_running now id) _ c (one-Call (runs now id)) (λ u e. no_more))
        (branch-Calls (state_eq state running) _ _ c no_more no_more)

  pub start_job_handler-Calls :
      (now : ℤ) (worker id : Str) (c : Coordinator F)
      → Calls c (start_job_handler now worker id c).1
  unfolding start_job_handler start_assigned
  start_job_handler-Calls now worker id c = step-Calls (make_id Id.worker worker) _ c (λ w made.
      step-Calls (make_id Id.job id) _ c (λ job_id made.
        pick-Calls (not (is_job_assigned_to_worker job_id w c)) _ _ c (λ foreign. no_more)
          (λ own. start_from-Calls now job_id (job_state job_id c) c)))

  submit_new-Calls :
      (id : JobId) (job : Job F) (c : Coordinator F)
      → IsValidJob job
      → IsValidRequirements job.requirements
      → Calls c (submit_new id job c).1
  unfolding submit_new
  submit_new-Calls id job c valid sound =
      pick-Calls (is_some (get_job id c)) _ _ c (λ stored. no_more)
        (λ new. step-Calls (check_insertion job) _ c (λ checked fits.
          chain-Calls (submit_job job) _ c (one-Call (submits job valid sound)) (λ u e. no_more)))

  submit_parts-Calls :
      (now : ℤ) (request : SubmitJobRequest F) (requirements : Option (ResourceRequirements F))
      (workload : Option RpcWorkload) (c : Coordinator F)
      → request.max_attempts < word_mod
      → Calls c (submit_parts now request requirements workload c).1
  unfolding submit_parts
  submit_parts-Calls now request none workload c fits = no_more
  submit_parts-Calls now request (some requirements) none c fits = no_more
  submit_parts-Calls now request (some requirements) (some workload) c fits =
      step-Calls (make_id Id.job request.id) _ c (λ id made.
        step-Calls (make_requirements requirements) _ c (λ required r_is.
          step-Calls (copy_workload workload) _ c (λ work w_is.
            step-Calls (requested_attempts request.max_attempts) _ c (λ attempts a_is.
              step-Calls (new_job id request.name request.priority required work attempts now) _ c
                (λ job j_is.
                  let (same, sound) = made_requirements requirements required r_is in
                  let word = requested_attempts_word request.max_attempts attempts fits a_is in
                  let is =
                    made_job id request.name request.priority required work attempts now job j_is in
                  submit_new-Calls id job c
                    (made_job-IsValidJob id request.name request.priority required work attempts now
                      job word j_is)
                    (subst IsValidRequirements (sym (ap (λ j. j.requirements) is ∙ same))
                      sound))))))

  pub submit_job_handler-Calls :
      (now : ℤ) (request : SubmitJobRequest F) (c : Coordinator F)
      → request.max_attempts < word_mod
      → Calls c (submit_job_handler now request c).1
  unfolding submit_job_handler
  submit_job_handler-Calls now request c fits =
      submit_parts-Calls now request request.requirements request.workload c fits

  pub heartbeat_handler-Calls :
      (time : ℤ) (id : Str) (c : Coordinator F) → Calls c (heartbeat_handler time id c).1
  unfolding heartbeat_handler beat_known
  heartbeat_handler-Calls time id c =
      pick-Calls (is_empty id) _ _ c (λ blank. no_more)
        (λ given. step-Calls (make_id Id.worker id) _ c (λ w made.
          pick-Calls (not (WorkerRepository.contains w c.workers)) _ _ c (λ unknown. no_more)
            (λ known.
              chain-Calls (record_worker_heartbeat w time) _ c (one-Call (beats w time))
                (λ u e. no_more))))

  acquire_from-Calls :
      (now : ℤ) (w : WorkerId) (leased : Option (Job F)) (c : Coordinator F)
      → Calls c (acquire_from now w leased c).1
  unfolding acquire_from
  acquire_from-Calls now w (some job) c = no_more
  acquire_from-Calls now w none c =
      chain-Calls (dispatch_once_for_worker now w) _ c (one-Call (dispatches_to now w))
        (λ chosen e. no_more)

  acquire_by-Calls :
      {B : Type 0} (now : ℤ) (w : WorkerId) (registered : Option B) (c : Coordinator F)
      → Calls c (acquire_by now w registered c).1
  unfolding acquire_by
  acquire_by-Calls now w none c = no_more
  acquire_by-Calls now w (some registered) c =
      acquire_from-Calls now w (leased_job_for_worker w c) c

  pub acquire_job_handler-Calls :
      (now : ℤ) (id : Str) (c : Coordinator F) → Calls c (acquire_job_handler now id c).1
  unfolding acquire_job_handler
  acquire_job_handler-Calls now id c = step-Calls (make_id Id.worker id) _ c (λ w made.
      step-Calls (worker_snapshot w c) _ c (λ registered e. acquire_by-Calls now w registered c))

  finish_by-Calls :
      (id : JobId) (outcome : RpcOutcome) (c : Coordinator F)
      → Calls c (finish_by outcome id (mark_succeeded id) (mark_failed id) c).1
  finish_by-Calls id outcome_succeeded c =
      chain-Calls (mark_succeeded id) _ c (one-Call (succeeds id)) (λ u e. no_more)
  finish_by-Calls id outcome_failed c =
      chain-Calls (mark_failed id) _ c (one-Call (fails id)) (λ u e. no_more)
  finish_by-Calls id outcome_unspecified c = no_more
  finish_by-Calls id (outcome_other n) c = no_more

  pub finish_job_handler-Calls :
      (worker id : Str) (outcome : RpcOutcome) (c : Coordinator F)
      → Calls c (finish_job_handler worker id outcome c).1
  unfolding finish_job_handler finish_assigned finish_with
  finish_job_handler-Calls worker id outcome c =
      step-Calls (make_id Id.worker worker) _ c (λ w made.
        step-Calls (make_id Id.job id) _ c (λ job_id made.
          pick-Calls (not (is_job_assigned_to_worker job_id w c)) _ _ c (λ foreign. no_more)
            (λ own.
              pick-Calls (is_running (job_state job_id c)) _ _ c
                (λ is.
                  chain-Calls
                    (finish_by outcome job_id (mark_succeeded job_id) (mark_failed job_id)) _ c
                    (finish_by-Calls job_id outcome c) (λ b e. no_more))
                (λ is_not. no_more))))

  pub scan-Calls : (now : ℤ) (c : Coordinator F) → Calls c (scan now c).1
  unfolding scan
  scan-Calls now c =
      chain-Calls (mark_stale_workers_offline now heartbeat_timeout) _ c
        (one-Call (finds_stale now heartbeat_timeout))
        (λ offline e.
          chain-Calls (mark_expired_job_leases now) _ _ (one-Call (expires now)) (λ expired e.
            chain-Calls requeue_retry_wait_jobs _ _ (one-Call requeues) (λ requeued e. no_more)))

  pub get_job_handler-Calls : (id : Str) (c : Coordinator F) → Calls c (get_job_handler id c).1
  unfolding get_job_handler
  get_job_handler-Calls id c = step-Calls (make_id Id.job id) _ c (λ job_id made. no_more)
