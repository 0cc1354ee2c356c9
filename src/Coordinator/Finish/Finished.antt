-- ===== src/Coordinator/Finish/Finished.antt =====
-- `finish_job` on every branch.
use mathlib.Core.Path.{subst}
use radahn.Common.{
  ◌≡◌, refl, sym, ap, ◌⊎◌, inl, inr, true, false, none, some, ok, err, arith, Option-cases,
  Bool-cases, Result-cases,
}
use radahn.Common.Keyed
use radahn.Domain.Double.{Double, IsIeee}
use radahn.Domain.Id.{JobId, WorkerId}
use radahn.Domain.JobState.{JobState, succeeded, failed, can_transition, validate_transition}
use radahn.Domain.Job.{transition_to}
use radahn.Domain.WorkerRecord.{release, WorkerRecord}
use radahn.Domain.WorkerRecord.Accounts.{release_iff, id-release}
use radahn.Domain.Error.{
  Error, finish_unknown_job, finish_unassigned_job, illegal_transition, assigned_worker_unknown,
}
use radahn.Persistence.JobRepository
use radahn.Persistence.JobRepository.{JobRecord, record_key}
use radahn.Persistence.JobRepository.Laws.{update_found}
use radahn.Persistence.WorkerRepository
use radahn.Persistence.WorkerRepository.{StoredWorker, stored_key}
use radahn.Persistence.WorkerRepository.Laws.{update_found as update_worker_found}
use radahn.Coordinator.State.{Coordinator, is_active_state}
use radahn.Coordinator.Invariant.{Inv, IsSoundRecord, IsSoundWorker, queued_job}
use radahn.Coordinator.Invariant.Release.{freed_found, HeldBy-assigned, release_job-Inv}
use radahn.Coordinator.Finish.{finish_job}

-- The states in which the coordinator lets a job finish.
abbrev pub IsTerminal : JobState → Type 0
IsTerminal state = (state ≡ succeeded) ⊎ (state ≡ failed)

terminal_idle : (state : JobState) → IsTerminal state → is_active_state state ≡ false
unfolding is_active_state
terminal_idle state t = ground arith

module _ {F : Type 0} where
  -- The record of a job that has finished.
  abbrev pub finished : JobState → JobRecord F → JobRecord F
  finished state r = record r { job = record r.job { state = state }; lease_expires_at = none }

module _ {F : Type 0} ⦃d : Double F⦄ where
  -- What a successful `finish_job` has found and done.
  pub record Finishes (job_id : JobId) (state : JobState) (c : Coordinator F) : Type 0 where
    pub stored_job : JobRecord F
    pub worker_id : WorkerId
    pub stored_worker : StoredWorker F
    pub freed : WorkerRecord F
    pub job_found : Keyed.find record_key job_id.value c.jobs ≡ some stored_job
    pub job_assigned : stored_job.assigned_worker_id ≡ some worker_id
    pub worker_found : Keyed.find stored_key worker_id.value c.workers ≡ some stored_worker
    pub legal : can_transition stored_job.job.state state ≡ true
    pub release_ok : release stored_job.job.requirements stored_worker.worker ≡ ok freed
    pub result : finish_job job_id state c ≡ (
      ok tt,
      record c {
        jobs = Keyed.replace record_key (finished state stored_job) c.jobs;
        workers = Keyed.replace stored_key (record stored_worker { worker = freed }) c.workers;
      },
    )

  -- `finish_job` either throws and leaves the coordinator as it was, or finds the stored job, the
  -- worker that it is assigned to and a legal transition, releases the worker's resources, and
  -- stores the job in the new state with no lease.
  pub finish_job_cases :
      (job_id : JobId) (state : JobState) (c : Coordinator F)
      → ((e : Error) × (finish_job job_id state c ≡ (err e, c))) ⊎ Finishes job_id state c
  unfolding finish_job JobRepository.get WorkerRepository.get transition_to validate_transition
  finish_job_cases job_id state c =
      elim (Option-cases (Keyed.find record_key job_id.value c.jobs)) [
        | inl e ↦ inl (finish_unknown_job, ground arith)
        | inr (r, e) ↦ elim (Option-cases r.assigned_worker_id) [
          | inl free ↦ inl (finish_unassigned_job, ground arith)
          | inr (w, taken) ↦ elim (Bool-cases (can_transition r.job.state state)) [
            | inr illegal ↦ inl (illegal_transition, ground arith)
            | inl legal ↦ elim (Option-cases (Keyed.find stored_key w.value c.workers)) [
              | inl lost ↦ inl (assigned_worker_unknown, ground arith)
              | inr (s, e_w) ↦ elim (Result-cases (release r.job.requirements s.worker)) [
                | inr (x, refused) ↦ inl (x, ground arith)
                | inl (freed, done) ↦ inr (record {
                  stored_job = r;
                  worker_id = w;
                  stored_worker = s;
                  freed = freed;
                  job_found = e;
                  job_assigned = taken;
                  worker_found = e_w;
                  legal = legal;
                  release_ok = done;
                  result = ground (
                    arith,
                    update_found (finished state r) c.jobs
                        (Keyed.find-key record_key job_id.value c.jobs e),
                    update_worker_found freed c.workers (
                        freed_found w s freed c e_w
                          (id-release r.job.requirements s.worker freed done)),
                  );
                })
              ]
            ]
          ]
        ]
      ]

  finished-IsSoundRecord :
      (state : JobState) (r : JobRecord F)
      → IsTerminal state
      → IsSoundRecord r
      → IsSoundRecord (finished state r)
  unfolding is_active_state
  finished-IsSoundRecord state r t s = ground (arith, s)

  -- Only an active job that is assigned can finish.
  finishing_active :
      (state : JobState) (r : JobRecord F) (w : WorkerId)
      → IsTerminal state
      → IsSoundRecord r
      → r.assigned_worker_id ≡ some w
      → can_transition r.job.state state ≡ true
      → is_active_state r.job.state ≡ true
  unfolding is_active_state can_transition
  finishing_active state r w t s a h = ground (arith, s)

  neither_queued :
      (state : JobState) (r : JobRecord F)
      → IsTerminal state
      → is_active_state r.job.state ≡ true
      → queued_job (some (finished state r)) ≡ queued_job (some r)
  unfolding is_active_state
  neither_queued state r t h = ground arith

  module _ (ieee : IsIeee d) where
    Finishes-Inv :
        (job_id : JobId) (state : JobState) (c : Coordinator F)
        → IsTerminal state
        → Inv c
        → Finishes job_id state c
        → Inv (finish_job job_id state c).1
    Finishes-Inv job_id state c t v f =
        let r = f.stored_job in
        let s = f.stored_worker in
        let sound = Keyed.All-find record_key IsSoundRecord _ c.jobs v.records_sound f.job_found in
        let sound_w =
          Keyed.All-find stored_key IsSoundWorker _ c.workers v.workers_sound f.worker_found in
        let active = finishing_active state r f.worker_id t sound f.job_assigned f.legal in
        let (holds, freed) =
          (release_iff r.job.requirements s.worker f.freed sound_w).0 f.release_ok in
        subst Inv (ap (λ x. x.1) (sym f.result)) (
          subst
            (λ w. Inv (record c {
              jobs = Keyed.replace record_key (finished state r) c.jobs;
              workers = Keyed.replace stored_key (record s { worker = w }) c.workers;
            }))
            (sym freed)
            (release_job-Inv ieee c (finished state r) r s v
              (HeldBy-assigned c r s f.worker_id _ f.job_found f.worker_found f.job_assigned active)
              refl (finished-IsSoundRecord state r t sound) (terminal_idle state t)
              (neither_queued state r t active) holds))

    -- `finish_job` with `succeeded` or `failed` keeps the coordinator's invariant, whether it
    -- throws or not, for doubles that behave like IEEE ones.
    pub finish_job-Inv :
        (job_id : JobId) (state : JobState) (c : Coordinator F)
        → IsTerminal state
        → Inv c
        → Inv (finish_job job_id state c).1
    finish_job-Inv job_id state c t v = elim (finish_job_cases job_id state c) [
      | inl (e, p) ↦ subst Inv (ap (λ x. x.1) (sym p)) v
      | inr f ↦ Finishes-Inv job_id state c t v f
    ]
