-- ===== src/Examples/Persistence.antt =====
-- The theorems about the repositories at concrete values.
use radahn.Common.{ℕ, pos, ◌≡◌, refl, true, none, [], ◌∷◌, ok, str_eq}
use radahn.Common.Keyed
use radahn.Domain.JobState.{JobState, queued, failed}
use radahn.Persistence.JobRepository
use radahn.Persistence.JobRepository.{JobRecord, JobRepository, record_key}
use radahn.Persistence.WorkerRepository
use radahn.Persistence.WorkerRepository.{
  StoredWorker, WorkerRepository, record_heartbeat, last_heartbeat, stored_key,
}
use radahn.Examples.Values.{nat_double, job_id, worker_id, job_in, idle_worker}

abbrev waiting : JobState → ℕ → JobRecord ℕ
waiting state n = record {
  job = job_in state n 5;
  assigned_worker_id = none;
  lease_expires_at = none;
}

abbrev one_job : JobRepository ℕ
one_job = waiting queued 1 ∷ []

abbrev one_stored : WorkerRepository ℕ
one_stored = record { worker = idle_worker 1; last_heartbeat = pos 10 } ∷ []

insert_two :
    JobRepository.insert (waiting queued 2) one_job ≡ ok (waiting queued 1 ∷ waiting queued 2 ∷ [])
unfolding JobRepository.insert JobRepository.contains Keyed.has str_eq
insert_two = refl

update_one : JobRepository.update (waiting failed 1) one_job ≡ ok (waiting failed 1 ∷ [])
unfolding JobRepository.update Keyed.find Keyed.replace str_eq
update_one = refl

erase_one : JobRepository.erase (job_id 1) one_job ≡ ok []
unfolding JobRepository.erase Keyed.find Keyed.erase str_eq
erase_one = refl

abbrev with_gpu : WorkerRepository ℕ
with_gpu =
    record { worker = record (idle_worker 1) { gpu_available = true }; last_heartbeat = pos 10 }
    ∷ []

update_worker_one :
    WorkerRepository.update (record (idle_worker 1) { gpu_available = true }) one_stored
    ≡ ok with_gpu
unfolding WorkerRepository.update Keyed.find Keyed.replace str_eq
update_worker_one = refl

abbrev beaten : WorkerRepository ℕ
beaten = record { worker = idle_worker 1; last_heartbeat = pos 20 } ∷ []

beat_one : record_heartbeat (worker_id 1) (pos 20) one_stored ≡ ok beaten
unfolding record_heartbeat Keyed.find Keyed.replace str_eq
beat_one = refl
