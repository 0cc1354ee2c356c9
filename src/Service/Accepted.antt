-- ===== src/Service/Accepted.antt =====
-- The requests that SubmitJob accepts.
use radahn.Common.{refl, ◌≤◌, length, ℕ, ◌<◌, is_empty, ℤ, ◌≡◌, inl, inr, false, some, arith, ok}
use radahn.Common.Keyed
use radahn.Domain.Double.{Double}
use radahn.Domain.Id.{make_id}
use radahn.Domain.Job.{Job, new_job, restore, make_job}
use radahn.Domain.Resource.Validity.{IsValidRequirements, make_requirements_iff}
use radahn.Domain.JobState.{queued}
use radahn.Domain.Resource.{ResourceRequirements}
use radahn.Domain.Workload.{WorkloadSpec}
use radahn.Persistence.JobRepository
use radahn.Persistence.JobRepository.{JobRecord, record_key}
use radahn.Coordinator.State.{Coordinator}
use radahn.Coordinator.Queries.{get_job}
use radahn.Coordinator.Invariant.{Inv}
use radahn.Coordinator.Submit.Added.{submit_job_cases, with_job}
use radahn.Persistence.Sqlite.Values.{
  max_int, max_int64, cast_uint64, bind_text, checked_sql_integer, bind_optional_worker_id,
  bind_optional_lease,
}
use radahn.Persistence.Sqlite.JobRow.{insert_row, bind_columns}
use radahn.Service.Stored.{check_insertion, has_too_long, has_twice}
use radahn.Service.Messages.{
  JobInfo, RpcWorkload, SubmitJobRequest, job_info, copy_workload, requested_attempts,
}
use radahn.Service.Handlers.{answer, submit_new, submit_parts, submit_job_handler}
use radahn.Service.Submitted.{Accepts, submit_job_handler_cases}

module _ {F : Type 0} ⦃d : Double F⦄ where
  -- What a request needs to be accepted.
  pub record IsAcceptable (request : SubmitJobRequest F) (c : Coordinator F) : Type 0 where
    pub required : ResourceRequirements F
    pub requirements_given : request.requirements ≡ some required
    pub requirements_valid : IsValidRequirements required
    pub workload : RpcWorkload
    pub workload_given : request.workload ≡ some workload
    pub work : WorkloadSpec
    pub workload_valid : copy_workload workload ≡ ok work
    pub attempts : ℕ
    pub attempts_valid : requested_attempts request.max_attempts ≡ ok attempts
    pub attempts_positive : 0 < attempts
    pub named : is_empty request.name ≡ false
    pub identified : is_empty request.id ≡ false
    pub unknown : Keyed.has record_key request.id c.jobs ≡ false
    pub id_fits : length request.id ≤ max_int
    pub name_fits : length request.name ≤ max_int
    pub memory_fits : required.memory_bytes ≤ max_int64
    pub disk_fits : required.disk_bytes ≤ max_int64
    pub sleep_fits : cast_uint64 work.sleep_duration ≤ max_int64
    pub attempts_fit : attempts ≤ max_int64
    pub tags_fit : has_too_long required.required_tags ≡ false
    pub tags_differ : has_twice required.required_tags ≡ false

  -- What the repository checks holds.
  insertable :
      (request : SubmitJobRequest F) (c : Coordinator F) (a : IsAcceptable request c) (job : Job F)
      → job.id.value ≡ request.id
      → job.name ≡ request.name
      → job.requirements ≡ a.required
      → job.workload ≡ a.work
      → job.attempt_count ≡ 0
      → job.max_attempts ≡ a.attempts
      → check_insertion job ≡ ok tt
  unfolding check_insertion insert_row bind_columns bind_text checked_sql_integer
      bind_optional_worker_id bind_optional_lease
  insertable request c a job i n r w t m = ground (
    arith, a.id_fits, a.name_fits, a.memory_fits, a.disk_fits, a.sleep_fits, a.attempts_fit,
    a.tags_fit, a.tags_differ,
  )

  submit_parts-Accepts :
      (now : ℤ) (request : SubmitJobRequest F) (c : Coordinator F)
      → Inv c
      → (a : IsAcceptable request c)
      → (info : JobInfo F) × (next : Coordinator F) × (submit_parts now request
            (some a.required)
            (some a.workload)
            c
          ≡ (ok (answer info), next))
  unfolding submit_parts submit_new get_job JobRepository.get make_id new_job restore make_job
  submit_parts-Accepts now request c v a =
      let job : Job F = record {
        id = record { value = request.id };
        name = request.name;
        priority = request.priority;
        requirements = a.required;
        workload = a.work;
        state = queued;
        created_at = now;
        attempt_count = 0;
        max_attempts = a.attempts;
      } in
      elim (submit_job_cases job c v) [
        | inl (old, p) ↦ ground (arith, old, a.unknown)
        | inr (inl (new, other, p)) ↦ ground (arith, other)
        | inr (inr (new, is, p)) ↦ (
          job_info job,
          with_job job c,
          ground (
            arith,
            p,
            insertable request c a job refl refl refl refl refl refl,
            a.identified,
            a.named,
            a.workload_valid,
            a.attempts_valid,
            a.attempts_positive,
            (make_requirements_iff a.required).1 a.requirements_valid,
            Keyed.find-none record_key request.id c.jobs,
            a.unknown,
          ),
        )
      ]

  -- Over a coordinator with the invariant, a request that is acceptable is answered with the
  -- information of the job, which is then stored, in the queued state.
  pub submit_job_handler-Accepts :
      (now : ℤ) (request : SubmitJobRequest F) (c : Coordinator F)
      → Inv c
      → IsAcceptable request c
      → (info : JobInfo F) × (next : Coordinator F) × (submit_job_handler now request c
          ≡ (answer info, next))
        × Accepts request.id c next info
  unfolding submit_job_handler
  submit_job_handler-Accepts now request c v a =
      let (info, next, p) = submit_parts-Accepts now request c v a in
      let q : submit_job_handler now request c ≡ (answer info, next) =
        ground (arith, p, a.requirements_given, a.workload_given) in
      elim (submit_job_handler_cases now request c v) [
        | inl (code, refused) ↦ ground (arith, q, refused)
        | inr accepted ↦ accepted
      ]
