-- ===== src/Coordinator/Invariant/Release.antt =====
-- An active job ends, and its worker's resources are released with it.
use radahn.Common.{◌≡◌, true, false, some, arith, Str, str_eq_refl}
use radahn.Common.Keyed
use radahn.Domain.Double.{Double, IsIeee}
use radahn.Domain.Id.{WorkerId}
use radahn.Domain.WorkerRecord.{WorkerRecord}
use radahn.Domain.WorkerRecord.Accounts.{Holds, released}
use radahn.Domain.WorkerRecord.Preserved.{released-IsValidWorker}
use radahn.Persistence.JobRepository.{JobRecord, record_key}
use radahn.Persistence.WorkerRepository.{StoredWorker, stored_key}
use radahn.Coordinator.State.{Coordinator, is_active_state}
use radahn.Coordinator.Invariant.{Inv, IsSoundRecord, IsSoundWorker, held, queued_job}
use radahn.Coordinator.Invariant.Changes.{
  replace_job-Inv, queue_stays, Account-change, Account-release,
}

module _ {F : Type 0} where
  -- A worker that keeps its identifier is found where the old one was.
  pub freed_found :
      (w : WorkerId) (s : StoredWorker F) (freed : WorkerRecord F) (c : Coordinator F)
      → Keyed.find stored_key w.value c.workers ≡ some s
      → freed.id ≡ s.worker.id
      → Keyed.find stored_key freed.id.value c.workers ≡ some s
  freed_found w s freed c found same = rw same (Keyed.find-key stored_key w.value c.workers found)

module _ {F : Type 0} ⦃d : Double F⦄ where
  -- A stored job, and the stored worker that it is assigned to.
  pub record HeldBy (c : Coordinator F) (old : JobRecord F) (s : StoredWorker F) : Type 0 where
    pub job_found : Keyed.find record_key (record_key old) c.jobs ≡ some old
    pub worker_found : Keyed.find stored_key (stored_key s) c.workers ≡ some s
    pub is_held : held (stored_key s) old ≡ true
    pub is_active : is_active_state old.job.state ≡ true

  pub HeldBy-assigned :
      (c : Coordinator F) (old : JobRecord F) (s : StoredWorker F) (w : WorkerId) (job : Str)
      → Keyed.find record_key job c.jobs ≡ some old
      → Keyed.find stored_key w.value c.workers ≡ some s
      → old.assigned_worker_id ≡ some w
      → is_active_state old.job.state ≡ true
      → HeldBy c old s
  HeldBy-assigned c old s w job found found_w assigned active = record {
    job_found = Keyed.find-key record_key job c.jobs found;
    worker_found = Keyed.find-key stored_key w.value c.workers found_w;
    is_held =
        ground (arith, Keyed.key-find stored_key w.value c.workers found_w, str_eq_refl w.value);
    is_active = active;
  }

  -- The job's record becomes `r`, which no worker holds, and the worker gets its resources back.
  pub release_job-Inv :
      (ieee : IsIeee d) (c : Coordinator F) (r old : JobRecord F) (s : StoredWorker F)
      → Inv c
      → HeldBy c old s
      → record_key r ≡ record_key old
      → IsSoundRecord r
      → is_active_state r.job.state ≡ false
      → queued_job (some r) ≡ queued_job (some old)
      → Holds old.job.requirements s.worker
      → Inv (record c {
        jobs = Keyed.replace record_key r c.jobs;
        workers =
            Keyed.replace stored_key
              (record s { worker = released old.job.requirements s.worker })
              c.workers;
      })
  release_job-Inv ieee c r old s v h same sound idle queue holds =
      let found : Keyed.find record_key (record_key r) c.jobs ≡ some old = rw same h.job_found in
      let freed : StoredWorker F = record s { worker = released old.job.requirements s.worker } in
      let old_sound =
        Keyed.All-find record_key IsSoundRecord _ c.jobs v.records_sound h.job_found in
      let w_sound =
        Keyed.All-find stored_key IsSoundWorker _ c.workers v.workers_sound h.worker_found in
      replace_job-Inv c r old (Keyed.replace stored_key freed c.workers) c.queue v found sound
        (Keyed.replace-Unique stored_key freed c.workers v.workers_unique)
        (Keyed.All-replace stored_key IsSoundWorker freed c.workers v.workers_sound (
          released-IsValidWorker ieee old.job.requirements s.worker old_sound.requirements_valid
            w_sound holds))
        v.queue_unique (queue_stays c r old v found queue)
        (Account-change c r old freed s v found h.worker_found (λ id other. ground arith)
          (Account-release c r old s v found h.is_held idle holds))
