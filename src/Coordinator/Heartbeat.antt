-- ===== src/Coordinator/Heartbeat.antt =====
-- `record_worker_heartbeat` and `mark_stale_workers_offline`.
pub mod Renewed
pub mod Restated
pub mod Stale
pub mod Offline
pub mod Beat
pub mod Leases
use radahn.Common.{
  ℕ, ℤ, pos, ◌+ℤ◌, ◌-ℤ◌, ltb_ℤ, leb_ℤ, Bool, true, false, not, Option, none, some, List,
  if◌then◌else◌, ok,
}
use radahn.Common
use radahn.Domain.Double.{Double}
use radahn.Domain.Id.{WorkerId, id_eq}
use radahn.Domain.Worker.{
  WorkerState, WorkerSnapshot, online, offline, worker_state_eq, make_snapshot,
}
use radahn.Domain.WorkerRecord.{WorkerRecord, snapshot, of_snapshot}
use radahn.Domain.Error.{heartbeat_unknown_worker, timeout_not_positive, no_heartbeat_timestamp}
use radahn.Persistence.JobRepository
use radahn.Persistence.JobRepository.{JobRecord}
use radahn.Persistence.WorkerRepository
use radahn.Coordinator.State.{
  M, ◌>>=◌, ◌>>◌, pure, lift, read, or_throw, on_workers, update_job, update_worker, for_each,
  count_each, is_active_state,
}

-- `assigned_worker_id.has_value() && *assigned_worker_id == worker_id`.
abbrev pub is_assigned : Option WorkerId → WorkerId → Bool
is_assigned none worker_id = false
is_assigned (some assigned) worker_id = id_eq assigned worker_id

module _ {F : Type 0} where
  -- A worker's snapshot in another state, stored.
  unfoldable pub store_as : WorkerState → WorkerSnapshot F → M F (Unit {0})
  store_as state s = do
    other ← lift (make_snapshot (record s { state = state }))
    update_worker (of_snapshot other)

  -- The body of the loop that renews the leases.
  unfoldable pub renew_lease : WorkerId → ℤ → JobRecord F → M F (Unit {0})
  renew_lease worker_id heartbeat_time r c =
      if not (is_assigned r.assigned_worker_id worker_id)
      then pure tt c
      else if not (is_active_state r.job.state)
      then pure tt c
      else update_job (record r { lease_expires_at = some (heartbeat_time +ℤ c.lease_duration) }) c

module _ {F : Type 0} ⦃d : Double F⦄ where
  unfoldable pub record_worker_heartbeat : WorkerId → ℤ → M F (Unit {0})
  record_worker_heartbeat worker_id heartbeat_time = do
    found ← read (λ c. WorkerRepository.get worker_id c.workers)
    worker ← or_throw found heartbeat_unknown_worker
    s ← lift (snapshot worker)
    if worker_state_eq s.state offline then store_as online s else pure tt
    (λ c. on_workers (WorkerRepository.record_heartbeat worker_id heartbeat_time c.workers) c)
    job_records ← read (λ c. JobRepository.list c.jobs)
    for_each (renew_lease worker_id heartbeat_time) job_records

  -- An online worker goes offline when its last heartbeat is `timeout` ago or more.
  unfoldable pub check_heartbeat : ℤ → ℤ → WorkerSnapshot F → ℤ → M F Bool
  check_heartbeat now timeout s last_heartbeat =
      if ltb_ℤ now last_heartbeat
      then pure false
      else if ltb_ℤ (now -ℤ last_heartbeat) timeout
      then pure false
      else (store_as offline s >> pure true)

  unfoldable pub check_online : ℤ → ℤ → WorkerSnapshot F → M F Bool
  unfolding check_heartbeat
  check_online now timeout s = if not (worker_state_eq s.state online) then pure false else (do
    found ← read (λ c. WorkerRepository.last_heartbeat s.id c.workers)
    last_heartbeat ← or_throw found no_heartbeat_timestamp
    check_heartbeat now timeout s last_heartbeat)

  -- The body of the loop over the workers.
  unfoldable pub mark_stale : ℤ → ℤ → WorkerRecord F → M F Bool
  unfolding check_online
  mark_stale now timeout worker = do s ← lift (snapshot worker); check_online now timeout s

  unfoldable pub mark_stale_workers_offline : ℤ → ℤ → M F ℕ
  mark_stale_workers_offline now timeout = do
    lift (Common.throw_if (leb_ℤ timeout (pos 0)) timeout_not_positive)
    workers ← read (λ c. WorkerRepository.list c.workers)
    count_each (mark_stale now timeout) workers 0
