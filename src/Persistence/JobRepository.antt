-- ===== src/Persistence/JobRepository.antt =====
-- libs/persistence/src/in_memory_job_repository.cpp: the stored jobs, their assignments and leases.
pub mod Laws
use radahn.Common.{
  ℕ, ℤ, Bool, not, Option, none, some, List, [], ◌∷◌, ◌++◌, Str, length, ok, err, throw_if, ◌>>=◌,
  ◌>>◌,
}
use radahn.Common.Keyed
use radahn.Domain.Id.{JobId, WorkerId}
use radahn.Domain.Job.{Job}
use radahn.Domain.Error.{Outcome, job_exists_already, update_unknown_job, erase_unknown_job}

-- job_record.hpp.
pub record JobRecord (F : Type 0) : Type 0 where
  pub job : Job F
  pub assigned_worker_id : Option WorkerId
  pub lease_expires_at : Option ℤ  -- ticks of the system clock

-- The vector `records_`.
abbrev pub JobRepository : Type 0 → Type 0
JobRepository F = List (JobRecord F)

module _ {F : Type 0} where
  abbrev pub record_key : JobRecord F → Str
  record_key r = r.job.id.value

  unfoldable pub contains : JobId → JobRepository F → Bool
  contains job_id records = Keyed.has record_key job_id.value records

  unfoldable pub insert : JobRecord F → JobRepository F → Outcome (JobRepository F)
  unfolding contains
  insert r records = do
    throw_if (contains r.job.id records) job_exists_already
    ok (records ++ r ∷ [])

  unfoldable pub update : JobRecord F → JobRepository F → Outcome (JobRepository F)
  update r records = elim (Keyed.find record_key r.job.id.value records) [
    | none ↦ err update_unknown_job
    | some stored ↦ ok (Keyed.replace record_key r records)
  ]

  unfoldable pub get : JobId → JobRepository F → Option (JobRecord F)
  get job_id records = Keyed.find record_key job_id.value records

  unfoldable pub list : JobRepository F → List (JobRecord F)
  list records = records

  unfoldable pub erase : JobId → JobRepository F → Outcome (JobRepository F)
  erase job_id records = elim (Keyed.find record_key job_id.value records) [
    | none ↦ err erase_unknown_job
    | some stored ↦ ok (Keyed.erase record_key job_id.value records)
  ]

  unfoldable pub size : JobRepository F → ℕ
  size records = length records
