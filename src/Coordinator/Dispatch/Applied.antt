-- ===== src/Coordinator/Dispatch/Applied.antt =====
-- `apply_dispatch_decision` for a queued job and a worker that are stored.
use radahn.Common.{ℤ, ◌+ℤ◌, ◌≡◌, false, some, [], ◌∷◌, ◌++◌, ok, err, arith, str_eq_refl}
use radahn.Common.Keyed
use radahn.Domain.Double.{Double}
use radahn.Domain.JobState.{queued}
use radahn.Domain.WorkerRecord.Accounts.{reserved}
use radahn.Domain.Error.{Error}
use radahn.Scheduler.JobQueue
use radahn.Scheduler.JobQueue.{JobQueue, job_key}
use radahn.Scheduler.Planner.{DispatchDecision}
use radahn.Persistence.JobRepository
use radahn.Persistence.JobRepository.{JobRecord, record_key}
use radahn.Persistence.JobRepository.Laws.{update_found}
use radahn.Persistence.WorkerRepository
use radahn.Persistence.WorkerRepository.{StoredWorker, stored_key}
use radahn.Persistence.WorkerRepository.Laws.{update_found as update_worker_found}
use radahn.Coordinator.State.{Coordinator}
use radahn.Coordinator.Invariant.{Inv}
use radahn.Coordinator.Dispatch.{
  take_job, restore_queue, prepare, lease_job, apply_dispatch_decision,
}
use radahn.Coordinator.Dispatch.Prepare.{leased_job}

module _ {F : Type 0} where
  -- The decision names a queued job and a worker that are stored.
  pub record Names (decision : DispatchDecision F) (r : JobRecord F) (s : StoredWorker F)
      (c : Coordinator F) : Type 0 where
    pub job_named : decision.job_id ≡ r.job.id
    pub worker_named : decision.worker_id ≡ s.worker.id
    pub job_stored : Keyed.find record_key (record_key r) c.jobs ≡ some r
    pub worker_stored : Keyed.find stored_key (stored_key s) c.workers ≡ some s
    pub job_queued : Keyed.find job_key (record_key r) c.queue ≡ some r.job
    pub is_queued : r.job.state ≡ queued

  -- The job went back to the end of the queue.
  abbrev pub returned : JobRecord F → Coordinator F → Coordinator F
  returned r c = record c { queue = Keyed.erase job_key (record_key r) c.queue ++ r.job ∷ [] }

  abbrev pub lease_to : ℤ → StoredWorker F → JobRecord F → JobRecord F
  lease_to deadline s r = record {
    job = leased_job r.job;
    assigned_worker_id = some s.worker.id;
    lease_expires_at = some deadline;
  }

module _ {F : Type 0} ⦃d : Double F⦄ where
  abbrev pub occupied : JobRecord F → StoredWorker F → StoredWorker F
  occupied r s = record s { worker = reserved r.job.requirements s.worker }

  -- The worker holds the job.
  abbrev pub dispatched : ℤ → JobRecord F → StoredWorker F → Coordinator F → Coordinator F
  dispatched now r s c = record c {
    jobs = Keyed.replace record_key (lease_to (now +ℤ c.lease_duration) s r) c.jobs;
    workers = Keyed.replace stored_key (occupied r s) c.workers;
    queue = Keyed.erase job_key (record_key r) c.queue;
  }

  pub not_queued_twice :
      (r : JobRecord F) (c : Coordinator F)
      → Inv c
      → Keyed.has job_key (record_key r) (Keyed.erase job_key (record_key r) c.queue) ≡ false
  not_queued_twice r c v = ground (
    arith,
    Keyed.has-erase job_key (record_key r) (record_key r) c.queue v.queue_unique,
    str_eq_refl (record_key r),
  )

  pub apply-refused :
      (now : ℤ) (decision : DispatchDecision F) (r : JobRecord F) (s : StoredWorker F)
      (c : Coordinator F) (e : Error)
      → Inv c
      → Names decision r s c
      → prepare r.job s.worker ≡ err e
      → apply_dispatch_decision now decision c ≡ (err e, returned r c)
  unfolding apply_dispatch_decision take_job lease_job restore_queue JobQueue.take JobQueue.contains
      JobQueue.enqueue JobRepository.get WorkerRepository.get
  apply-refused now decision r s c e v n h = ground (arith, n, not_queued_twice r c v)

  pub apply-leased :
      (now : ℤ) (decision : DispatchDecision F) (r : JobRecord F) (s : StoredWorker F)
      (c : Coordinator F)
      → Names decision r s c
      → prepare r.job s.worker ≡ ok (leased_job r.job, reserved r.job.requirements s.worker)
      → apply_dispatch_decision now decision c ≡ (ok tt, dispatched now r s c)
  unfolding apply_dispatch_decision take_job lease_job JobQueue.take JobRepository.get
      WorkerRepository.get
  apply-leased now decision r s c n h = ground (
    arith,
    n,
    update_worker_found (reserved r.job.requirements s.worker) c.workers n.worker_stored,
    update_found (lease_to (now +ℤ c.lease_duration) s r) c.jobs n.job_stored,
  )
