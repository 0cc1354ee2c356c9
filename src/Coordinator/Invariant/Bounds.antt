-- ===== src/Coordinator/Invariant/Bounds.antt =====
-- What the invariant promises to the outside: no worker is ever given more than it has, and the
-- dispatcher's queue holds exactly the queued jobs.
use mathlib.Core.Path.{subst}
use radahn.Common.{◌≤◌, ◌≡◌, some, Str, arith, is_some}
use radahn.Common.Keyed
use radahn.Domain.Double.{Double}
use radahn.Scheduler.JobQueue.{job_key}
use radahn.Persistence.JobRepository.{record_key}
use radahn.Persistence.WorkerRepository.{StoredWorker, stored_key}
use radahn.Coordinator.State.{Coordinator}
use radahn.Coordinator.Invariant.{
  Inv, IsSoundWorker, Account, slot, memory, disk, total_held, queued_job,
}

module _ {F : Type 0} ⦃d : Double F⦄ where
  -- In a coordinator that satisfies the invariant, the active jobs assigned to a stored worker
  -- number at most its slots, and need together at most its total memory and disk.
  pub no_overcommit :
      (c : Coordinator F) (w : Str) {s : StoredWorker F}
      → Inv c
      → Keyed.find stored_key w c.workers ≡ some s
      → (total_held slot w c.jobs ≤ s.worker.max_concurrent_jobs)
        × (total_held memory w c.jobs ≤ s.worker.total_memory_bytes)
        × (total_held disk w c.jobs ≤ s.worker.total_disk_bytes)
  no_overcommit c w {s} v found =
      let sound = Keyed.All-find stored_key IsSoundWorker w c.workers v.workers_sound found in
      let running_fits = sound.snapshot_valid.running_le_max in
      let account = subst (λ o. Account w o c.jobs) found (v.accounts w) in omega arith

  -- In a coordinator that satisfies the invariant, a job is in the dispatcher's queue exactly if
  -- a stored record holds it in the state `queued`.
  pub in_queue_iff :
      (c : Coordinator F) (id : Str)
      → Inv c
      → Keyed.has job_key id c.queue ≡ (is_some (queued_job (Keyed.find record_key id c.jobs)))
  in_queue_iff c id v = ground (arith, v.queue_view id, Keyed.has-find job_key id c.queue)
