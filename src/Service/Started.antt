-- ===== src/Service/Started.antt =====
-- What StartJob answers.
use radahn.Common.{
  ℤ, ◌+ℤ◌, ◌≡◌, refl, ◌⊎◌, inl, inr, true, some, Str, arith, str_eq_refl, Bool-cases, Option-cases,
  Result-cases, ok, err,
}
use radahn.Common.Keyed
use radahn.Domain.Error.{Error}
use radahn.Domain.Id.{JobId, WorkerId, make_id}
use radahn.Domain.Id
use radahn.Domain.JobState.{running, leased, state_eq}
use radahn.Persistence.JobRepository
use radahn.Persistence.JobRepository.{JobRecord, record_key}
use radahn.Coordinator.State.{Coordinator}
use radahn.Coordinator.Heartbeat.{is_assigned}
use radahn.Coordinator.Queries.{get_job, job_state, is_job_assigned_to_worker}
use radahn.Coordinator.Finish.Running.{started, mark_running_cases}
use radahn.Service.Messages.{JobInfo}
use radahn.Service.Stored.{stored_info}
use radahn.Service.Handlers.{
  StatusCode, answer, refuse, start_from, start_assigned, start_job_handler, status_of,
  failed_precondition,
}
use radahn.Service.Built.{made_id}

module _ {F : Type 0} where
  -- The worker holds the stored job, which runs.
  pub record Runs (worker id : Str) (c : Coordinator F) (info : JobInfo F) : Type 0 where
    pub stored : JobRecord F
    pub found : Keyed.find record_key id c.jobs ≡ some stored
    pub assigned : is_assigned stored.assigned_worker_id (record { value = worker }) ≡ true
    pub runs : stored.job.state ≡ running
    pub reported : info ≡ stored_info stored.job

  pub find-started :
      (now : ℤ) (id : JobId) (c : Coordinator F) (r : JobRecord F)
      → Keyed.find record_key id.value c.jobs ≡ some r
      → Keyed.find record_key id.value
          (Keyed.replace record_key (started (now +ℤ c.lease_duration) r) c.jobs)
        ≡ some (started (now +ℤ c.lease_duration) r)
  find-started now id c r found = ground (
    arith,
    Keyed.find-replace record_key id.value (started (now +ℤ c.lease_duration) r) c.jobs,
    Keyed.key-find record_key id.value c.jobs found,
    Keyed.has-find record_key id.value c.jobs,
    str_eq_refl id.value,
  )

  -- A job that runs already is answered as it is.
  start_assigned-Runs :
      (later : ℤ) (w : WorkerId) (id : JobId) (c : Coordinator F) (info : JobInfo F)
      → Runs w.value id.value c info
      → start_assigned later w id c ≡ (ok (answer info), c)
  unfolding start_assigned start_from job_state get_job is_job_assigned_to_worker JobRepository.get
  start_assigned-Runs later w id c info r = ground (arith, r.found, r.assigned, r.runs, r.reported)

  start_assigned_cases :
      (now : ℤ) (w : WorkerId) (id : JobId) (c : Coordinator F)
      → ((out : StatusCode) × (start_assigned now w id c ≡ (ok (refuse out), c)))
        ⊎ (((e : Error) × (start_assigned now w id c ≡ (err e, c)))
            ⊎ ((info : JobInfo F) × (next : Coordinator F) × (start_assigned now w id c
                  ≡ (ok (answer info), next))
                × Runs w.value id.value next info))
  unfolding start_assigned start_from job_state get_job is_job_assigned_to_worker JobRepository.get
  start_assigned_cases now w id c = elim (Option-cases (Keyed.find record_key id.value c.jobs)) [
    | inl missing ↦ inl (failed_precondition, ground arith)
    | inr (r, found) ↦ elim (Bool-cases (is_assigned r.assigned_worker_id w)) [
      | inr foreign ↦ inl (failed_precondition, ground arith)
      | inl own ↦ elim (Bool-cases (state_eq r.job.state leased)) [
        | inl is_leased ↦ elim (mark_running_cases now id c) [
          | inl (e, p) ↦ inr (inl (e, ground arith))
          | inr (s, same, taken, was, p) ↦
              let made = started (now +ℤ c.lease_duration) s in
              let next : Coordinator F = record c { jobs = Keyed.replace record_key made c.jobs } in
              let found_next : Keyed.find record_key id.value next.jobs ≡ some made =
                find-started now id c s same in
              inr (
                inr (
                  stored_info made.job,
                  next,
                  ground (arith, found_next),
                  record {
                    stored = made;
                    found = found_next;
                    assigned = ground arith;
                    runs = refl;
                    reported = refl;
                  },
                ))
        ]
        | inr not_leased ↦ elim (Bool-cases (state_eq r.job.state running)) [
          | inr other ↦ inl (failed_precondition, ground arith)
          | inl is ↦ inr (
              inr (
                stored_info r.job,
                c,
                ground arith,
                record {
                  stored = r;
                  found = found;
                  assigned = own;
                  runs = ground arith;
                  reported = refl;
                },
              ))
        ]
      ]
    ]
  ]

  -- StartJob is either refused and changes nothing, or answers a stored job of this worker, which
  -- runs, and then answers the same however often and whenever it is called next.
  pub start_job_handler_cases :
      (now : ℤ) (worker id : Str) (c : Coordinator F)
      → ((code : StatusCode) × (start_job_handler now worker id c ≡ (refuse code, c)))
        ⊎ ((info : JobInfo F) × (next : Coordinator F) × (start_job_handler now worker id c
              ≡ (answer info, next))
            × Runs worker id next info
            × ((later : ℤ) → start_job_handler later worker id next ≡ (answer info, next)))
  unfolding start_job_handler
  start_job_handler_cases now worker id c = elim (Result-cases (make_id Id.worker worker)) [
    | inr (e, bad) ↦ inl (status_of e, ground arith)
    | inl (w, w_made) ↦ elim (Result-cases (make_id Id.job id)) [
      | inr (e, bad) ↦ inl (status_of e, ground arith)
      | inl (j, j_made) ↦ elim (start_assigned_cases now w j c) [
        | inl (out, p) ↦ inl (out, ground arith)
        | inr (inl (e, p)) ↦ inl (status_of e, ground arith)
        | inr (inr (info, next, p, r)) ↦ inr (
          info,
          next,
          ground arith,
          ground (arith, made_id worker w w_made, made_id id j j_made, r),
          λ later. ground (arith, start_assigned-Runs later w j next info r),
        )
      ]
    ]
  ]
