-- ===== src/Service/Submitted.antt =====
-- What SubmitJob answers.
use radahn.Common.{
  ℕ, ℤ, ◌≡◌, refl, ap, ◌⊎◌, inl, inr, Option, some, none, Str, arith, Result-cases, ok, err,
}
use radahn.Common.Keyed
use radahn.Domain.Double.{Double}
use radahn.Domain.Error.{Error}
use radahn.Domain.Id.{JobId, make_id}
use radahn.Domain.Id
use radahn.Domain.Job.{Job, new_job}
use radahn.Domain.JobState.{queued}
use radahn.Domain.Resource.{ResourceRequirements, make_requirements}
use radahn.Domain.Workload.{WorkloadSpec}
use radahn.Persistence.JobRepository
use radahn.Persistence.JobRepository.{JobRecord, record_key}
use radahn.Coordinator.State.{Coordinator, M, lift, ◌>>=◌}
use radahn.Coordinator.Queries.{get_job}
use radahn.Coordinator.Invariant.{Inv}
use radahn.Coordinator.Submit.{unassigned}
use radahn.Coordinator.Submit.Added.{submit_job_cases, with_job}
use radahn.Service.Messages.{
  JobInfo, RpcWorkload, SubmitJobRequest, rpc_queued, to_rpc_job_state, job_info, copy_workload,
  requested_attempts,
}
use radahn.Service.Handlers.{
  Reply, StatusCode, answer, refuse, status_of, invalid_argument, not_found, already_exists,
  submit_new, submit_parts, submit_job_handler, get_job_handler,
}
use radahn.Service.Stored.{check_insertion, as_read, stored_info}
use radahn.Service.Built.{made_id, made_job}

module _ {F : Type 0} ⦃d : Double F⦄ where
  -- The job was not stored before, and is stored now, queued and not yet tried; GetJob answers it as
  -- the repository reads it.
  pub record Accepts (id : Str) (c next : Coordinator F) (info : JobInfo F) : Type 0 where
    pub unknown_before : get_job_handler id c ≡ (refuse not_found, c)
    pub known_after : get_job_handler id next ≡ (answer (as_read info), next)
    pub is_queued : info.state ≡ rpc_queued
    pub not_tried : info.attempt_count ≡ 0
    pub named : info.id ≡ id

  submit_new_cases :
      (id : JobId) (job : Job F) (c : Coordinator F)
      → Inv c
      → make_id Id.job id.value ≡ ok id
      → job.id ≡ id
      → job.state ≡ queued
      → job.attempt_count ≡ 0
      → ((code : StatusCode) × (submit_new id job c ≡ (ok (refuse code), c)))
        ⊎ (((e : Error) × (submit_new id job c ≡ (err e, c)))
            ⊎ ((info : JobInfo F) × (next : Coordinator F) × (submit_new id job c
                  ≡ (ok (answer info), next))
                × Accepts id.value c next info))
  unfolding submit_new get_job JobRepository.get get_job_handler stored_info job_info
      to_rpc_job_state
  submit_new_cases id job c v made same q fresh = elim (submit_job_cases job c v) [
    | inl (old, p) ↦
        inl (already_exists, ground (arith, old, Keyed.has-find record_key id.value c.jobs))
    | inr (inl (new, other, p)) ↦ ground (arith, other)
    | inr (inr (new, is, p)) ↦
        let missing : Keyed.find record_key id.value c.jobs ≡ none =
          ground (arith, new, Keyed.find-none record_key id.value c.jobs) in
        let found : Keyed.find record_key id.value (with_job job c).jobs ≡ some (unassigned job) =
          ground (arith, new, Keyed.find-append_self record_key (unassigned job) c.jobs) in
        elim (Result-cases (check_insertion job)) [
          | inr (e, thrown) ↦ inr (inl (e, ground (arith, missing, thrown)))
          | inl (checked, fits) ↦ inr (
              inr (
                job_info job,
                with_job job c,
                ground (arith, missing, fits, p),
                record {
                  unknown_before = ground (arith, missing, made);
                  known_after = ground (arith, found, made);
                  is_queued = ground arith;
                  not_tried = fresh;
                  named = ground arith;
                },
              ))
        ]
  ]

  -- The last steps, on values that are made already.
  abbrev submit_made :
      ℤ
      → SubmitJobRequest F
      → JobId
      → ResourceRequirements F
      → WorkloadSpec
      → ℕ
      → M F (Reply (JobInfo F))
  submit_made now request id required work attempts = do
    job ← lift (new_job id request.name request.priority required work attempts now)
    submit_new id job

  submit_made_cases :
      (now : ℤ) (request : SubmitJobRequest F) (id : JobId) (required : ResourceRequirements F)
      (work : WorkloadSpec) (attempts : ℕ) (c : Coordinator F)
      → Inv c
      → make_id Id.job request.id ≡ ok id
      → ((code : StatusCode) × (submit_made now request id required work attempts c
            ≡ (ok (refuse code), c)))
        ⊎ (((e : Error) × (submit_made now request id required work attempts c ≡ (err e, c)))
            ⊎ ((info : JobInfo F) × (next : Coordinator F) × (submit_made now request id required
                    work attempts c
                  ≡ (ok (answer info), next))
                × Accepts request.id c next info))
  submit_made_cases now request id required work attempts c v made =
      elim (Result-cases (new_job id request.name request.priority required work attempts now)) [
        | inr (e, bad) ↦ inr (inl (e, ground arith))
        | inl (job, j_is) ↦
            let is =
              made_job id request.name request.priority required work attempts now job j_is in
            let id_is = made_id request.id id made in
            elim (submit_new_cases id job c v (rw id_is (rw id_is at made)) (ap (λ j. j.id) is)
              (ap (λ j. j.state) is) (ap (λ j. j.attempt_count) is)) [
                | inl (code, p) ↦ inl (code, ground arith)
                | inr (inl (e, p)) ↦ inr (inl (e, ground arith))
                | inr (inr (info, next, p, a)) ↦
                    inr (inr (info, next, ground arith, ground (arith, id_is, a)))
              ]
      ]

  submit_parts_cases :
      (now : ℤ) (request : SubmitJobRequest F) (requirements : Option (ResourceRequirements F))
      (workload : Option RpcWorkload) (c : Coordinator F)
      → Inv c
      → ((code : StatusCode) × (submit_parts now request requirements workload c
            ≡ (ok (refuse code), c)))
        ⊎ (((e : Error) × (submit_parts now request requirements workload c ≡ (err e, c)))
            ⊎ ((info : JobInfo F) × (next : Coordinator F) × (submit_parts now request requirements
                    workload c
                  ≡ (ok (answer info), next))
                × Accepts request.id c next info))
  unfolding submit_parts
  submit_parts_cases now request none workload c v = inl (invalid_argument, refl)
  submit_parts_cases now request (some requirements) none c v = inl (invalid_argument, refl)
  submit_parts_cases now request (some requirements) (some workload) c v =
      elim (Result-cases (make_id Id.job request.id)) [
        | inr (e, bad) ↦ inr (inl (e, ground arith))
        | inl (id, made) ↦ elim (Result-cases (make_requirements requirements)) [
          | inr (e, bad) ↦ inr (inl (e, ground arith))
          | inl (required, r_is) ↦ elim (Result-cases (copy_workload workload)) [
            | inr (e, bad) ↦ inr (inl (e, ground arith))
            | inl (work, w_is) ↦ elim (Result-cases (requested_attempts request.max_attempts)) [
              | inr (e, bad) ↦ inr (inl (e, ground arith))
              | inl (attempts, a_is) ↦
                  elim (submit_made_cases now request id required work attempts c v made) [
                    | inl (code, p) ↦ inl (code, ground arith)
                    | inr (inl (e, p)) ↦ inr (inl (e, ground arith))
                    | inr (inr (info, next, p, a)) ↦ inr (inr (info, next, ground arith, a))
                  ]
            ]
          ]
        ]
      ]

  pub submit_job_handler_cases :
      (now : ℤ) (request : SubmitJobRequest F) (c : Coordinator F)
      → Inv c
      → ((code : StatusCode) × (submit_job_handler now request c ≡ (refuse code, c)))
        ⊎ ((info : JobInfo F) × (next : Coordinator F) × (submit_job_handler now request c
              ≡ (answer info, next))
            × Accepts request.id c next info)
  unfolding submit_job_handler
  submit_job_handler_cases now request c v =
      elim (submit_parts_cases now request request.requirements request.workload c v) [
        | inl (code, p) ↦ inl (code, ground arith)
        | inr (inl (e, p)) ↦ inl (status_of e, ground arith)
        | inr (inr (info, next, p, a)) ↦ inr (info, next, ground arith, a)
      ]
