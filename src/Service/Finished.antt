-- ===== src/Service/Finished.antt =====
-- What FinishJob answers.
use radahn.Common.{
  ◌≡◌, refl, ◌⊎◌, inl, inr, true, some, Str, arith, str_eq_refl, Bool-cases, Option-cases,
  Result-cases, ok, err,
}
use radahn.Common.Keyed
use radahn.Domain.Double.{Double}
use radahn.Domain.Error.{Error}
use radahn.Domain.Id.{JobId, WorkerId, make_id}
use radahn.Domain.Id
use radahn.Domain.JobState.{JobState, running, succeeded, failed, state_eq}
use radahn.Persistence.JobRepository
use radahn.Persistence.JobRepository.{JobRecord, record_key}
use radahn.Coordinator.State.{Coordinator}
use radahn.Coordinator.Heartbeat.{is_assigned}
use radahn.Coordinator.Queries.{get_job, job_state, is_job_assigned_to_worker}
use radahn.Coordinator.Finish.{finish_job, mark_succeeded, mark_failed}
use radahn.Coordinator.Finish.Finished.{IsTerminal, finished, finish_job_cases}
use radahn.Service.Messages.{
  JobInfo, RpcOutcome, outcome_succeeded, outcome_failed, outcome_unspecified, outcome_other,
}
use radahn.Service.Stored.{stored_info}
use radahn.Service.Handlers.{
  StatusCode, answer, refuse, finish_with, finish_assigned, finish_job_handler, status_of,
  failed_precondition, invalid_argument,
}
use radahn.Service.Built.{made_id}

-- The state that an outcome reports.
abbrev pub reported_state : RpcOutcome → JobState
reported_state outcome_succeeded = succeeded
reported_state outcome_failed = failed
reported_state outcome_unspecified = running
reported_state (outcome_other n) = running

module _ {F : Type 0} ⦃d : Double F⦄ where
  -- A running job of the worker becomes the job that is answered.
  pub record Ends (worker id : Str) (outcome : RpcOutcome) (c next : Coordinator F)
      (info : JobInfo F) : Type 0 where
    pub stored : JobRecord F
    pub found : Keyed.find record_key id c.jobs ≡ some stored
    pub assigned : is_assigned stored.assigned_worker_id (record { value = worker }) ≡ true
    pub ran : stored.job.state ≡ running
    pub final : IsTerminal (reported_state outcome)
    pub found_after :
        Keyed.find record_key id next.jobs ≡ some (finished (reported_state outcome) stored)
    pub reported : info ≡ stored_info (record stored.job { state = reported_state outcome })

  -- What `finish_with` has done if it answers.
  record Ended (id : JobId) (outcome : RpcOutcome) (c : Coordinator F) : Type 0 where
    stored : JobRecord F
    next : Coordinator F
    found : Keyed.find record_key id.value c.jobs ≡ some stored
    final : IsTerminal (reported_state outcome)
    found_after :
        Keyed.find record_key id.value next.jobs ≡ some (finished (reported_state outcome) stored)
    answered :
        finish_with id outcome c
        ≡ (ok (answer (stored_info (finished (reported_state outcome) stored).job)), next)

  find-finished :
      (state : JobState) (id : JobId) (c : Coordinator F) (r : JobRecord F)
      → Keyed.find record_key id.value c.jobs ≡ some r
      → Keyed.find record_key id.value (Keyed.replace record_key (finished state r) c.jobs)
        ≡ some (finished state r)
  find-finished state id c r found = ground (
    arith,
    Keyed.find-replace record_key id.value (finished state r) c.jobs,
    Keyed.key-find record_key id.value c.jobs found,
    Keyed.has-find record_key id.value c.jobs,
    str_eq_refl id.value,
  )

  finish_with_cases :
      (id : JobId) (outcome : RpcOutcome) (c : Coordinator F)
      → ((code : StatusCode) × (finish_with id outcome c ≡ (ok (refuse code), c)))
        ⊎ (((e : Error) × (finish_with id outcome c ≡ (err e, c))) ⊎ Ended id outcome c)
  unfolding finish_with mark_succeeded mark_failed get_job JobRepository.get
  finish_with_cases id outcome_succeeded c = elim (finish_job_cases id succeeded c) [
    | inl (e, p) ↦ inr (inl (e, ground arith))
    | inr f ↦
        let found = find-finished succeeded id c f.stored_job f.job_found in
        inr (
          inr (record {
            stored = f.stored_job;
            next = (finish_job id succeeded c).1;
            found = f.job_found;
            final = inl refl;
            found_after = rw f.result found;
            answered = ground (arith, f.result, found);
          }))
  ]
  finish_with_cases id outcome_failed c = elim (finish_job_cases id failed c) [
    | inl (e, p) ↦ inr (inl (e, ground arith))
    | inr f ↦
        let found = find-finished failed id c f.stored_job f.job_found in
        inr (
          inr (record {
            stored = f.stored_job;
            next = (finish_job id failed c).1;
            found = f.job_found;
            final = inr refl;
            found_after = rw f.result found;
            answered = ground (arith, f.result, found);
          }))
  ]
  finish_with_cases id outcome_unspecified c = inl (invalid_argument, refl)
  finish_with_cases id (outcome_other n) c = inl (invalid_argument, refl)

  finish_assigned_cases :
      (w : WorkerId) (id : JobId) (outcome : RpcOutcome) (c : Coordinator F)
      → ((code : StatusCode) × (finish_assigned w id outcome c ≡ (ok (refuse code), c)))
        ⊎ (((e : Error) × (finish_assigned w id outcome c ≡ (err e, c)))
            ⊎ ((info : JobInfo F) × (next : Coordinator F) × (finish_assigned w id outcome c
                  ≡ (ok (answer info), next))
                × Ends w.value id.value outcome c next info))
  unfolding finish_assigned job_state is_job_assigned_to_worker JobRepository.get
  finish_assigned_cases w id outcome c =
      elim (Option-cases (Keyed.find record_key id.value c.jobs)) [
        | inl missing ↦ inl (failed_precondition, ground arith)
        | inr (r, found) ↦ elim (Bool-cases (is_assigned r.assigned_worker_id w)) [
          | inr foreign ↦ inl (failed_precondition, ground arith)
          | inl own ↦ elim (Bool-cases (state_eq r.job.state running)) [
            | inr other ↦ inl (failed_precondition, ground arith)
            | inl is ↦ elim (finish_with_cases id outcome c) [
              | inl (code, p) ↦ inl (code, ground arith)
              | inr (inl (e, p)) ↦ inr (inl (e, ground arith))
              | inr (inr f) ↦ inr (
                  inr (
                    stored_info (finished (reported_state outcome) f.stored).job,
                    f.next,
                    ground (arith, f.answered),
                    record {
                      stored = f.stored;
                      found = f.found;
                      assigned = ground (arith, f.found);
                      ran = ground (arith, f.found);
                      final = f.final;
                      found_after = f.found_after;
                      reported = refl;
                    },
                  ))
            ]
          ]
        ]
      ]

  finish_assigned-Ends :
      (w : WorkerId) (id : JobId) (outcome later : RpcOutcome) (c next : Coordinator F)
      (info : JobInfo F)
      → Ends w.value id.value outcome c next info
      → finish_assigned w id later next ≡ (ok (refuse failed_precondition), next)
  unfolding finish_assigned job_state is_job_assigned_to_worker JobRepository.get
  finish_assigned-Ends w id outcome later c next info ended =
      ground (arith, ended.found_after, ended.assigned, ended.final)

  -- FinishJob is either refused and changes nothing, or answers what was a running job of this
  -- worker, now in the state that the outcome reports and with no lease; a second FinishJob, with
  -- any outcome, is then refused as a failed precondition and changes nothing.
  pub finish_job_handler_cases :
      (worker id : Str) (outcome : RpcOutcome) (c : Coordinator F)
      → ((code : StatusCode) × (finish_job_handler worker id outcome c ≡ (refuse code, c)))
        ⊎ ((info : JobInfo F) × (next : Coordinator F) × (finish_job_handler worker id outcome c
              ≡ (answer info, next))
            × Ends worker id outcome c next info
            × ((later : RpcOutcome)
                → finish_job_handler worker id later next ≡ (refuse failed_precondition, next)))
  unfolding finish_job_handler
  finish_job_handler_cases worker id outcome c = elim (Result-cases (make_id Id.worker worker)) [
    | inr (e, bad) ↦ inl (status_of e, ground arith)
    | inl (w, w_made) ↦ elim (Result-cases (make_id Id.job id)) [
      | inr (e, bad) ↦ inl (status_of e, ground arith)
      | inl (j, j_made) ↦ elim (finish_assigned_cases w j outcome c) [
        | inl (out, p) ↦ inl (out, ground arith)
        | inr (inl (e, p)) ↦ inl (status_of e, ground arith)
        | inr (inr (info, next, p, r)) ↦ inr (
          info,
          next,
          ground arith,
          ground (arith, made_id worker w w_made, made_id id j j_made, r),
          λ later. ground (arith, finish_assigned-Ends w j outcome later c next info r),
        )
      ]
    ]
  ]
