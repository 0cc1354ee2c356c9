-- ===== src/Coordinator/Heartbeat/Restated.antt =====
-- A worker that goes online or offline.
use radahn.Common.{◌≡◌, refl, some, arith, ok}
use radahn.Common.Keyed
use radahn.Domain.Double.{Double}
use radahn.Domain.Worker.{WorkerState, make_snapshot}
use radahn.Domain.Worker.Validity.{make_snapshot_iff}
use radahn.Domain.WorkerRecord.{WorkerRecord, of_snapshot}
use radahn.Domain.WorkerRecord.Accounts.{view}
use radahn.Persistence.WorkerRepository.{StoredWorker, stored_key}
use radahn.Persistence.WorkerRepository.Laws.{update_found}
use radahn.Coordinator.State.{Coordinator}
use radahn.Coordinator.Invariant.{Inv, IsSoundWorker}
use radahn.Coordinator.Invariant.Workers.{SameAccount-Inv}
use radahn.Coordinator.Heartbeat.{store_as}

module _ {F : Type 0} where
  abbrev pub in_state : WorkerState → StoredWorker F → StoredWorker F
  in_state state s = record s { worker = record s.worker { state = state } }

  abbrev pub restated : WorkerState → StoredWorker F → Coordinator F → Coordinator F
  restated state s c = record c { workers = Keyed.replace stored_key (in_state state s) c.workers }

  of_snapshot-view :
      (state : WorkerState) (w : WorkerRecord F)
      → of_snapshot (record (view w) { state = state }) ≡ record w { state = state }
  unfolding of_snapshot
  of_snapshot-view state w = refl

module _ {F : Type 0} ⦃d : Double F⦄ where
  pub in_state-IsSoundWorker :
      (state : WorkerState) (s : StoredWorker F)
      → IsSoundWorker s
      → IsSoundWorker (in_state state s)
  in_state-IsSoundWorker state s v = ground (arith, v)

  restated_snapshot :
      (state : WorkerState) (s : StoredWorker F)
      → IsSoundWorker s
      → make_snapshot (record (view s.worker) { state = state })
        ≡ ok (record (view s.worker) { state = state })
  restated_snapshot state s v =
      (make_snapshot_iff (record (view s.worker) { state = state })).1
        ((in_state-IsSoundWorker state s v).snapshot_valid)

  pub store_as-eq :
      (state : WorkerState) (s : StoredWorker F) (c : Coordinator F)
      → IsSoundWorker s
      → Keyed.find stored_key (stored_key s) c.workers ≡ some s
      → store_as state (view s.worker) c ≡ (ok tt, restated state s c)
  unfolding store_as
  store_as-eq state s c v found = ground (
    arith,
    restated_snapshot state s v,
    of_snapshot-view state s.worker,
    update_found (record s.worker { state = state }) c.workers found,
  )

  pub restated-Inv :
      (state : WorkerState) (s : StoredWorker F) (c : Coordinator F)
      → Inv c
      → Keyed.find stored_key (stored_key s) c.workers ≡ some s
      → Inv (restated state s c)
  restated-Inv state s c v found =
      SameAccount-Inv c (in_state state s) s v
        (in_state-IsSoundWorker state s
          (Keyed.All-find stored_key IsSoundWorker _ c.workers v.workers_sound found))
        (record {
          same_running = refl;
          same_memory = refl;
          same_total_memory = refl;
          same_disk = refl;
          same_total_disk = refl;
        })
        found
