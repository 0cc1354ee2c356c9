-- ===== src/Service/Handover.antt =====
-- A worker acquires a job and starts it.
use radahn.Common.{
  ℤ, ◌+ℤ◌, ◌≡◌, inl, inr, ◌&&◌, true, false, some, List, [], ◌∷◌, Str, is_empty, arith, str_eq_refl,
  str_eq_sound, Bool-cases, ok,
}
use radahn.Common.Keyed
use radahn.Domain.Double.{Double, IsIeee}
use radahn.Domain.Id.{WorkerId, JobId, make_id}
use radahn.Domain.Job.{Job}
use radahn.Domain.JobState.{leased, state_eq}
use radahn.Persistence.JobRepository
use radahn.Persistence.JobRepository.{JobRecord, record_key}
use radahn.Coordinator.State.{Coordinator}
use radahn.Coordinator.Heartbeat.{is_assigned}
use radahn.Coordinator.Queries.{
  get_job, job_state, is_job_assigned_to_worker, find_leased, leased_job_for_worker,
}
use radahn.Persistence.JobRepository.Laws.{update_found}
use radahn.Domain.Job.{transition_to}
use radahn.Domain.JobState.{can_transition, validate_transition}
use radahn.Coordinator.Finish.{mark_running}
use radahn.Coordinator.Finish.Running.{started}
use radahn.Coordinator.Invariant.{Inv}
use radahn.Service.Messages.{JobInfo, job_info, rpc_leased, rpc_running, to_rpc_job_state}
use radahn.Service.Stored.{stored_info, as_read}
use radahn.Service.Handlers.{
  answer, start_assigned, start_from, start_job_handler, acquire_job_handler,
}
use radahn.Service.Started.{find-started}
use radahn.Service.Acquired.{acquire_job_handler-Acquires}

module _ {F : Type 0} where
  -- The job that `find_leased` returns is stored under its identifier.
  find_leased-found :
      (w : WorkerId) (records : List (JobRecord F)) (job : Job F)
      → Keyed.Unique record_key records
      → find_leased w records ≡ some job
      → (r : JobRecord F) × (Keyed.find record_key job.id.value records ≡ some r)
        × (r.job ≡ job)
        × (is_assigned r.assigned_worker_id w ≡ true)
        × (state_eq r.job.state leased ≡ true)
  unfolding find_leased Keyed.find
  find_leased-found w [] job u h = ground arith
  find_leased-found w (r ∷ records) job u h =
      elim (Bool-cases (is_assigned r.assigned_worker_id w && state_eq r.job.state leased)) [
        | inl here ↦
            (r, ground (arith, str_eq_refl job.id.value), ground arith, ground arith, ground arith)
        | inr later ↦
            let (q, found, same, own, is) = find_leased-found w records job u.1 (ground arith) in
            let skipped = Keyed.has-find record_key job.id.value records in
            (
              q,
              ground (arith, skipped, found, str_eq_sound (record_key r) job.id.value),
              same,
              own,
              is,
            )
      ]

  -- An assigned and leased job can be started.
  start_assigned-leased :
      (now : ℤ) (w : WorkerId) (id : JobId) (c : Coordinator F) {r : JobRecord F}
      → Keyed.find record_key id.value c.jobs ≡ some r
      → is_assigned r.assigned_worker_id w ≡ true
      → state_eq r.job.state leased ≡ true
      → (next : Coordinator F) × (info : JobInfo F) × (start_assigned now w id c
          ≡ (ok (answer info), next))
        × (info.state ≡ rpc_running)
        × (info.id ≡ r.job.id.value)
  unfolding start_assigned start_from job_state get_job is_job_assigned_to_worker JobRepository.get
      mark_running transition_to validate_transition can_transition stored_info as_read job_info
      to_rpc_job_state
  start_assigned-leased now w id c {r} found own is =
      let made = started (now +ℤ c.lease_duration) r in
      let next : Coordinator F = record c { jobs = Keyed.replace record_key made c.jobs } in
      (
        next,
        stored_info made.job,
        ground (
          arith,
          find-started now id c r found,
          update_found made c.jobs (Keyed.find-key record_key id.value c.jobs found),
        ),
        ground arith,
        ground arith,
      )

module _ {F : Type 0} ⦃d : Double F⦄ where
  -- For doubles that behave like IEEE ones, in a coordinator that satisfies the invariant, if
  -- AcquireJob answers a job, whose identifier is not empty, then the job is leased, and StartJob
  -- by the same worker, called next, answers the same job, running.
  pub acquire_then_start :
      (ieee : IsIeee d) (now later : ℤ) (id : Str) (c next : Coordinator F) (info : JobInfo F)
      → Inv c
      → acquire_job_handler now id c ≡ (answer (some info), next)
      → is_empty info.id ≡ false
      → (info.state ≡ rpc_leased)
        × ((after : Coordinator F) × (started_info : JobInfo F) × (start_job_handler later id
                info.id next
              ≡ (answer started_info, after))
            × (started_info.state ≡ rpc_running)
            × (started_info.id ≡ info.id))
  unfolding leased_job_for_worker JobRepository.list start_job_handler stored_info as_read job_info
      to_rpc_job_state make_id
  acquire_then_start ieee now later id c next info v h nonempty =
      let a = acquire_job_handler-Acquires ieee now id c next info v h in
      let (r, found, same, own, is) =
        find_leased-found a.worker_id next.jobs a.job a.invariant.jobs_unique a.leased_here in
      let (after, started_info, p, runs, named) =
        start_assigned-leased later a.worker_id a.job.id next found own is in
      (
        ground (arith, a.reported, same, is),
        (
          after,
          started_info,
          ground (arith, a.reported, a.made, p, nonempty, same),
          runs,
          ground (arith, named, same, a.reported),
        ),
      )
