-- ===== src/Coordinator/Queries.antt =====
-- The coordinator's queries, which change nothing.
use mathlib.Core.Option
use radahn.Common.{
  ℕ, ltb_ℤ, eqb_ℤ, Bool, true, false, ◌&&◌, not, Option, none, some, List, [], ◌∷◌, map, count_if,
  str_lt, if◌then◌else◌,
}
use radahn.Common.Sorting
use radahn.Domain.Double.{Double}
use radahn.Domain.Id.{JobId, WorkerId}
use radahn.Domain.JobState.{JobState, queued, leased, state_eq}
use radahn.Domain.Job.{Job}
use radahn.Domain.Worker.{WorkerSnapshot}
use radahn.Domain.WorkerRecord.{snapshot}
use radahn.Domain.Error.{Outcome}
use radahn.Persistence.JobRepository
use radahn.Persistence.JobRepository.{JobRecord}
use radahn.Persistence.WorkerRepository
use radahn.Coordinator.Heartbeat.{is_assigned}
use radahn.Coordinator.State.{Coordinator, is_active_state, is_finished_state}
use radahn.Common

module _ {F : Type 0} where
  unfoldable pub queued_job_count : Coordinator F → ℕ
  queued_job_count c = count_if (λ r. state_eq r.job.state queued) (JobRepository.list c.jobs)

  unfoldable pub active_job_count : Coordinator F → ℕ
  active_job_count c = count_if (λ r. is_active_state r.job.state) (JobRepository.list c.jobs)

  unfoldable pub finished_job_count : Coordinator F → ℕ
  finished_job_count c = count_if (λ r. is_finished_state r.job.state) (JobRepository.list c.jobs)

  unfoldable pub get_job : JobId → Coordinator F → Option (Job F)
  get_job job_id c = Option.map (λ r. r.job) (JobRepository.get job_id c.jobs)

  unfoldable pub job_state : JobId → Coordinator F → Option JobState
  job_state job_id c = Option.map (λ r. r.job.state) (JobRepository.get job_id c.jobs)

  -- The oldest first, then by identifier.
  unfoldable pub created_before : Job F → Job F → Bool
  created_before left right =
      if not (eqb_ℤ left.created_at right.created_at)
      then ltb_ℤ left.created_at right.created_at
      else str_lt left.id.value right.id.value

  unfoldable pub list_jobs : Coordinator F → List (Job F)
  list_jobs c = Sorting.sort created_before (map (λ r. r.job) (JobRepository.list c.jobs))

  unfoldable pub find_leased : WorkerId → List (JobRecord F) → Option (Job F)
  find_leased worker_id [] = none
  find_leased worker_id (r ∷ records) =
      if is_assigned r.assigned_worker_id worker_id && state_eq r.job.state leased
      then some r.job
      else find_leased worker_id records

  unfoldable pub leased_job_for_worker : WorkerId → Coordinator F → Option (Job F)
  unfolding find_leased
  leased_job_for_worker worker_id c = find_leased worker_id (JobRepository.list c.jobs)

  unfoldable pub is_job_assigned_to_worker : JobId → WorkerId → Coordinator F → Bool
  is_job_assigned_to_worker job_id worker_id c = elim (JobRepository.get job_id c.jobs) [
    | none ↦ false
    | some r ↦ is_assigned r.assigned_worker_id worker_id
  ]

module _ {F : Type 0} ⦃d : Double F⦄ where
  unfoldable pub worker_snapshot : WorkerId → Coordinator F → Outcome (Option (WorkerSnapshot F))
  worker_snapshot worker_id c = elim (WorkerRepository.get worker_id c.workers) [
    | none ↦ Common.ok none
    | some worker ↦ Common.◌>>=◌ (snapshot worker) (λ s. Common.ok (some s))
  ]
