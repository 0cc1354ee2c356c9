-- ===== src/Coordinator/Expiry/Expired.antt =====
-- `mark_expired_job_leases`.
use radahn.Common.{
  ◌≡◌, ◌⊎◌, inl, inr, true, none, some, arith, Bool-cases, Option-cases, Result-cases, ok, err,
  ◌==◌,
}
use radahn.Common.Keyed
use radahn.Domain.Double.{Double}
use radahn.Domain.Id.{WorkerId}
use radahn.Domain.Error.{Error}
use radahn.Domain.WorkerRecord.{WorkerRecord, release}
use radahn.Domain.WorkerRecord.Accounts.{snapshot-eq, id-release}
use radahn.Persistence.JobRepository.{JobRecord, record_key}
use radahn.Persistence.JobRepository.Laws.{update_found}
use radahn.Persistence.WorkerRepository
use radahn.Persistence.WorkerRepository.{StoredWorker, stored_key}
use radahn.Persistence.WorkerRepository.Laws.{update_found as update_worker_found}
use radahn.Coordinator.State.{Coordinator}
use radahn.Coordinator.Invariant.{Inv, IsSoundRecord, IsSoundWorker}
use radahn.Coordinator.Invariant.Release.{freed_found}
use radahn.Coordinator.Invariant.Current.{JobCurrent}
use radahn.Coordinator.Expiry.{expired_state, expire}
use radahn.Coordinator.Expiry.Requeued.{restore_as-eq}

module _ {F : Type 0} where
  -- The record of a job whose lease ended.
  abbrev pub ended : JobRecord F → JobRecord F
  ended r = record {
    job = record r.job { state = expired_state r.job.state };
    assigned_worker_id = none;
    lease_expires_at = none;
  }

  abbrev pub dropped : JobRecord F → Coordinator F → Coordinator F
  dropped r c = record c { jobs = Keyed.replace record_key (ended r) c.jobs }

  -- The worker gets its resources back too.
  abbrev pub handed_back :
      WorkerRecord F → StoredWorker F → JobRecord F → Coordinator F → Coordinator F
  handed_back freed s r c = record c {
    jobs = Keyed.replace record_key (ended r) c.jobs;
    workers = Keyed.replace stored_key (record s { worker = freed }) c.workers;
  }

  abbrev pub unleased : JobRecord F → Coordinator F → Coordinator F
  unleased r c = record c {
    jobs = Keyed.replace record_key (record r { lease_expires_at = none }) c.jobs;
  }

module _ {F : Type 0} ⦃d : Double F⦄ where
  -- What a release in the course of an expiry has found.
  pub record Frees (c : Coordinator F) (r : JobRecord F) : Type 0 where
    pub worker_id : WorkerId
    pub stored_worker : StoredWorker F
    pub freed : WorkerRecord F
    pub job_assigned : r.assigned_worker_id ≡ some worker_id
    pub worker_found : Keyed.find stored_key worker_id.value c.workers ≡ some stored_worker
    pub release_ok : release r.job.requirements stored_worker.worker ≡ ok freed
    pub result : expire r c ≡ (ok true, handed_back freed stored_worker r c)

  -- The lease of an active job ends: the call throws with no change if the worker cannot release
  -- the resources, releases them if some job runs there, and leaves the workers alone if the job's
  -- worker is unknown or runs nothing.
  pub expire_cases :
      (r : JobRecord F) (c : Coordinator F)
      → Inv c
      → JobCurrent c r
      → ((e : Error) × (expire r c ≡ (err e, c)))
        ⊎ ((expire r c ≡ (ok true, dropped r c)) ⊎ Frees c r)
  unfolding expire WorkerRepository.get
  expire_cases r c v held =
      let sound = Keyed.All-find record_key IsSoundRecord _ c.jobs v.records_sound held in
      let restored = restore_as-eq (expired_state r.job.state) r.job sound.job_valid in
      let stored = update_found (ended r) c.jobs held in
      elim (Option-cases r.assigned_worker_id) [
        | inl free ↦ inr (inl (ground (arith, restored, stored)))
        | inr (w, taken) ↦ elim (Option-cases (Keyed.find stored_key w.value c.workers)) [
          | inl lost ↦ inr (inl (ground (arith, restored, stored)))
          | inr (s, found) ↦
              let sound_w =
                Keyed.All-find stored_key IsSoundWorker _ c.workers v.workers_sound found in
              elim (Bool-cases (s.worker.running_jobs == 0)) [
                | inl idle ↦
                    inr (inl (ground (arith, restored, stored, snapshot-eq s.worker sound_w)))
                | inr busy ↦ elim (Result-cases (release r.job.requirements s.worker)) [
                  | inr (e, refused) ↦ inl (e, ground (arith, snapshot-eq s.worker sound_w))
                  | inl (freed, done) ↦ inr (
                      inr (record {
                        worker_id = w;
                        stored_worker = s;
                        freed = freed;
                        job_assigned = taken;
                        worker_found = found;
                        release_ok = done;
                        result = ground (
                          arith,
                          restored,
                          stored,
                          snapshot-eq s.worker sound_w,
                          update_worker_found freed c.workers (
                              freed_found w s freed c found
                                (id-release r.job.requirements s.worker freed done)),
                        );
                      }))
                ]
              ]
        ]
      ]
