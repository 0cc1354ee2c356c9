-- ===== src/Persistence/WorkerRepository.antt =====
-- libs/persistence/src/in_memory_worker_repository.cpp: the stored workers and their heartbeats.
pub mod Laws
use radahn.Common.{
  ℕ, ℤ, Bool, not, Option, none, some, List, [], ◌∷◌, ◌++◌, Str, length, map, ok, err, throw_if,
  ◌>>=◌, ◌>>◌,
}
use mathlib.Core.Option
use radahn.Common.Keyed
use radahn.Domain.Id.{WorkerId}
use radahn.Domain.WorkerRecord.{WorkerRecord}
use radahn.Domain.Error.{
  Outcome, worker_exists_already, update_unknown_worker, heartbeat_unknown_worker,
  erase_unknown_worker,
}

pub record StoredWorker (F : Type 0) : Type 0 where
  pub worker : WorkerRecord F
  pub last_heartbeat : ℤ  -- ticks of the system clock

-- The vector `records_`.
abbrev pub WorkerRepository : Type 0 → Type 0
WorkerRepository F = List (StoredWorker F)

module _ {F : Type 0} where
  abbrev pub stored_key : StoredWorker F → Str
  stored_key s = s.worker.id.value

  unfoldable pub contains : WorkerId → WorkerRepository F → Bool
  contains worker_id records = Keyed.has stored_key worker_id.value records

  -- `now` is what the clock gives.
  unfoldable pub insert : ℤ → WorkerRecord F → WorkerRepository F → Outcome (WorkerRepository F)
  unfolding contains
  insert now worker records = do
    throw_if (contains worker.id records) worker_exists_already
    ok (records ++ record { worker = worker; last_heartbeat = now } ∷ [])

  -- Only the worker is replaced; the time of its heartbeat stays.
  unfoldable pub update : WorkerRecord F → WorkerRepository F → Outcome (WorkerRepository F)
  update worker records = elim (Keyed.find stored_key worker.id.value records) [
    | none ↦ err update_unknown_worker
    | some stored ↦ ok (Keyed.replace stored_key (record stored { worker = worker }) records)
  ]

  unfoldable pub get : WorkerId → WorkerRepository F → Option (WorkerRecord F)
  get worker_id records =
      Option.map (λ stored. stored.worker) (Keyed.find stored_key worker_id.value records)

  unfoldable pub list : WorkerRepository F → List (WorkerRecord F)
  list records = map (λ stored. stored.worker) records

  unfoldable pub record_heartbeat : WorkerId → ℤ → WorkerRepository F → Outcome (WorkerRepository F)
  record_heartbeat worker_id heartbeat_time records =
      elim (Keyed.find stored_key worker_id.value records) [
        | none ↦ err heartbeat_unknown_worker
        | some stored ↦
            ok
              (Keyed.replace stored_key (record stored { last_heartbeat = heartbeat_time }) records)
      ]

  unfoldable pub last_heartbeat : WorkerId → WorkerRepository F → Option ℤ
  last_heartbeat worker_id records =
      Option.map (λ stored. stored.last_heartbeat) (Keyed.find stored_key worker_id.value records)

  unfoldable pub erase : WorkerId → WorkerRepository F → Outcome (WorkerRepository F)
  erase worker_id records = elim (Keyed.find stored_key worker_id.value records) [
    | none ↦ err erase_unknown_worker
    | some stored ↦ ok (Keyed.erase stored_key worker_id.value records)
  ]

  unfoldable pub size : WorkerRepository F → ℕ
  size records = length records
