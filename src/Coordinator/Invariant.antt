-- ===== src/Coordinator/Invariant.antt =====
-- What holds of a coordinator between two calls: the queue mirrors the stored jobs, and every
-- worker's account covers the jobs that it holds.
pub mod Bounds
pub mod Changes
pub mod Current
pub mod Workers
pub mod Release
use radahn.Common.{
  ℕ, ◌+◌, ◌≤◌, ◌≡◌, Bool, true, false, ◌&&◌, ◌||◌, Option, none, some, is_some, List, Str, str_eq,
  sum_of, All, if◌then◌else◌,
}
use radahn.Common.Keyed
use radahn.Domain.Double.{Double}
use radahn.Domain.Id.{WorkerId}
use radahn.Domain.Resource.Validity.{IsValidRequirements}
use radahn.Domain.JobState.{JobState, queued, retry_wait, state_eq}
use radahn.Domain.Job.{Job}
use radahn.Domain.Job.Attempts.{IsValidJob}
use radahn.Domain.WorkerRecord.Accounts.{IsValidWorker}
use radahn.Scheduler.JobQueue.{job_key}
use radahn.Persistence.JobRepository.{JobRecord, JobRepository, record_key}
use radahn.Persistence.WorkerRepository.{StoredWorker, stored_key}
use radahn.Coordinator.State.{Coordinator, is_active_state}

abbrev pub assigned_to : Option WorkerId → Str → Bool
assigned_to none w = false
assigned_to (some assigned) w = str_eq assigned.value w

module _ {F : Type 0} where
  -- The worker holds the job: it is assigned to it, and active.
  abbrev pub held : Str → JobRecord F → Bool
  held w r = assigned_to r.assigned_worker_id w && is_active_state r.job.state

  abbrev pub weight : (JobRecord F → ℕ) → Str → JobRecord F → ℕ
  weight amount w r = if held w r then amount r else 0

  abbrev pub slot : JobRecord F → ℕ
  slot r = 1

  abbrev pub memory : JobRecord F → ℕ
  memory r = r.job.requirements.memory_bytes

  abbrev pub disk : JobRecord F → ℕ
  disk r = r.job.requirements.disk_bytes

  -- What the jobs that the worker holds take together.
  abbrev pub total_held : (JobRecord F → ℕ) → Str → JobRepository F → ℕ
  total_held amount w jobs = sum_of (weight amount w) jobs

  -- The account of a worker covers what it holds; a worker that is not stored holds nothing.
  abbrev pub Account : Str → Option (StoredWorker F) → JobRepository F → Type 0
  Account w none jobs =
      (total_held slot w jobs ≡ 0) × (total_held memory w jobs ≡ 0) × (total_held disk w jobs ≡ 0)
  Account w (some s) jobs =
      (total_held slot w jobs ≤ s.worker.running_jobs)
      × (total_held memory w jobs + s.worker.available_memory_bytes ≤ s.worker.total_memory_bytes)
      × (total_held disk w jobs + s.worker.available_disk_bytes ≤ s.worker.total_disk_bytes)

  -- What the queue holds for a stored record.
  abbrev pub queued_job : Option (JobRecord F) → Option (Job F)
  queued_job none = none
  queued_job (some r) = if state_eq r.job.state queued then some r.job else none

module _ {F : Type 0} ⦃d : Double F⦄ where
  pub record IsSoundRecord (r : JobRecord F) : Type 0 where
    pub job_valid : IsValidJob r.job
    pub requirements_valid : IsValidRequirements r.job.requirements
    pub active_leased :
        is_active_state r.job.state ≡ true
        → (is_some r.assigned_worker_id ≡ true) × (is_some r.lease_expires_at ≡ true)
    pub waiting_free :
        (state_eq r.job.state queued || state_eq r.job.state retry_wait) ≡ true
        → (r.assigned_worker_id ≡ none) × (r.lease_expires_at ≡ none)

  abbrev pub IsSoundWorker : StoredWorker F → Type 0
  IsSoundWorker s = IsValidWorker s.worker

  pub record Inv (c : Coordinator F) : Type 0 where
    pub jobs_unique : Keyed.Unique record_key c.jobs
    pub workers_unique : Keyed.Unique stored_key c.workers
    pub queue_unique : Keyed.Unique job_key c.queue
    pub records_sound : All IsSoundRecord c.jobs
    pub workers_sound : All IsSoundWorker c.workers
    pub queue_view :
        (id : Str) → Keyed.find job_key id c.queue ≡ queued_job (Keyed.find record_key id c.jobs)
    pub accounts : (w : Str) → Account w (Keyed.find stored_key w c.workers) c.jobs
