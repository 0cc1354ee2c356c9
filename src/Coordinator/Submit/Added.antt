-- ===== src/Coordinator/Submit/Added.antt =====
-- `submit_job` and `register_worker` on every branch.
use mathlib.Core.Path.{subst}
use radahn.Common.{
  ℕ, ℤ, ◌≡◌, refl, sym, ap, ◌⊎◌, inl, inr, true, false, Option, none, some, [], ◌∷◌, ◌++◌, ok, err,
  arith, Bool-cases, str_eq, str_eq_iff, str_eq_sound, All-append, sum_of-append, Str,
  if◌then◌else◌,
}
use radahn.Common.Keyed
use radahn.Domain.Double.{Double}
use radahn.Domain.Resource.Validity.{IsValidRequirements}
use radahn.Domain.JobState.{queued, state_eq}
use radahn.Domain.Job.{Job}
use radahn.Domain.Job.Attempts.{IsValidJob}
use radahn.Domain.WorkerRecord.{WorkerRecord}
use radahn.Domain.WorkerRecord.Accounts.{IsValidWorker}
use radahn.Domain.Error.{job_exists_already, enqueue_not_queued, worker_exists_already}
use radahn.Scheduler.JobQueue
use radahn.Scheduler.JobQueue.{job_key}
use radahn.Persistence.JobRepository
use radahn.Persistence.JobRepository.{JobRecord, JobRepository, record_key}
use radahn.Persistence.WorkerRepository
use radahn.Persistence.WorkerRepository.{StoredWorker, WorkerRepository, stored_key}
use radahn.Coordinator.State.{Coordinator, is_active_state}
use radahn.Coordinator.Invariant.{
  Inv, IsSoundRecord, IsSoundWorker, Account, weight, slot, memory, disk, total_held,
}
use radahn.Coordinator.Submit.{unassigned, submit_job, register_worker}

module _ {F : Type 0} where
  -- The coordinator with one more queued job.
  abbrev pub with_job : Job F → Coordinator F → Coordinator F
  with_job job c = record c { jobs = c.jobs ++ unassigned job ∷ []; queue = c.queue ++ job ∷ [] }

  abbrev pub with_worker : ℤ → WorkerRecord F → Coordinator F → Coordinator F
  with_worker now w c = record c {
    workers = c.workers ++ record { worker = w; last_heartbeat = now } ∷ [];
  }

module _ {F : Type 0} ⦃d : Double F⦄ where
  not_in_queue :
      (c : Coordinator F) (job : Job F)
      → Inv c
      → Keyed.has record_key (job_key job) c.jobs ≡ false
      → Keyed.has job_key (job_key job) c.queue ≡ false
  not_in_queue c job v h = ground (
    arith,
    v.queue_view (job_key job),
    Keyed.has-find record_key (job_key job) c.jobs,
    Keyed.has-find job_key (job_key job) c.queue,
  )

  -- In a coordinator that satisfies the invariant, `submit_job` refuses a stored identifier and a
  -- job that is not queued, with no change (the insertion is undone), and otherwise stores the
  -- job unassigned and puts it in the queue.
  pub submit_job_cases :
      (job : Job F) (c : Coordinator F)
      → Inv c
      → (Keyed.has record_key (job_key job) c.jobs ≡ true)
          × (submit_job job c ≡ (err job_exists_already, c))
        ⊎ ((Keyed.has record_key (job_key job) c.jobs ≡ false)
              × (state_eq job.state queued ≡ false)
              × (submit_job job c ≡ (err enqueue_not_queued, c))
            ⊎ (Keyed.has record_key (job_key job) c.jobs ≡ false)
              × (state_eq job.state queued ≡ true)
              × (submit_job job c ≡ (ok tt, with_job job c)))
  unfolding submit_job JobRepository.insert JobRepository.erase JobRepository.contains
      JobQueue.enqueue JobQueue.contains
  submit_job_cases job c v = elim (Bool-cases (Keyed.has record_key (job_key job) c.jobs)) [
    | inl old ↦ inl (old, ground arith)
    | inr new ↦ elim (Bool-cases (state_eq job.state queued)) [
      | inr other ↦ inr (
          inl (
            new,
            other,
            ground (
              arith,
              Keyed.erase-append record_key (unassigned job) c.jobs,
              Keyed.find-append_self record_key (unassigned job) c.jobs,
            ),
          ))
      | inl is_queued ↦ inr (inr (new, is_queued, ground (arith, not_in_queue c job v new)))
    ]
  ]

  weight-append :
      (amount : JobRecord F → ℕ) (w : Str) (job : Job F) (jobs : JobRepository F)
      → total_held amount w (jobs ++ unassigned job ∷ []) ≡ total_held amount w jobs
  weight-append amount w job jobs =
      omega (arith, sum_of-append (weight amount w) jobs (unassigned job ∷ []))

  Account-append :
      (w : Str) (s : Option (StoredWorker F)) (job : Job F) (jobs : JobRepository F)
      → Account w s jobs
      → Account w s (jobs ++ unassigned job ∷ [])
  Account-append w none job jobs a = omega (
    arith,
    weight-append slot w job jobs,
    weight-append memory w job jobs,
    weight-append disk w job jobs,
  )
  Account-append w (some s) job jobs a = omega (
    arith,
    weight-append slot w job jobs,
    weight-append memory w job jobs,
    weight-append disk w job jobs,
  )

  unassigned-IsSoundRecord :
      (job : Job F)
      → IsValidJob job
      → IsValidRequirements job.requirements
      → state_eq job.state queued ≡ true
      → IsSoundRecord (unassigned job)
  unfolding is_active_state
  unassigned-IsSoundRecord job vj vr q = record {
    job_valid = vj;
    requirements_valid = vr;
    active_leased = λ h. ground arith;
    waiting_free = λ h. (refl, refl);
  }

  with_job-Inv :
      (job : Job F) (c : Coordinator F)
      → IsValidJob job
      → IsValidRequirements job.requirements
      → state_eq job.state queued ≡ true
      → Keyed.has record_key (job_key job) c.jobs ≡ false
      → Inv c
      → Inv (with_job job c)
  with_job-Inv job c vj vr q new v = record {
    jobs_unique = Keyed.append-Unique record_key (unassigned job) c.jobs v.jobs_unique new;
    workers_unique = v.workers_unique;
    queue_unique =
        Keyed.append-Unique job_key job c.queue v.queue_unique (not_in_queue c job v new);
    records_sound =
        All-append IsSoundRecord c.jobs (unassigned job ∷ []) v.records_sound
          (unassigned-IsSoundRecord job vj vr q, tt);
    workers_sound = v.workers_sound;
    queue_view = λ id. ground (
      arith,
      v.queue_view id,
      Keyed.find-append record_key id c.jobs (unassigned job),
      Keyed.find-append job_key id c.queue job,
      Keyed.has-find record_key id c.jobs,
      Keyed.has-find job_key id c.queue,
      str_eq_iff (job_key job) id,
    );
    accounts = λ w. Account-append w _ job c.jobs (v.accounts w);
  }

  -- `submit_job` of a job that the constructors accept keeps the coordinator's invariant, whether
  -- it throws or not.
  pub submit_job-Inv :
      (job : Job F) (c : Coordinator F)
      → IsValidJob job
      → IsValidRequirements job.requirements
      → Inv c
      → Inv (submit_job job c).1
  submit_job-Inv job c vj vr v = elim (submit_job_cases job c v) [
    | inl (old, p) ↦ subst Inv (ap (λ x. x.1) (sym p)) v
    | inr (inl (new, other, p)) ↦ subst Inv (ap (λ x. x.1) (sym p)) v
    | inr (inr (new, q, p)) ↦ subst Inv (ap (λ x. x.1) (sym p)) (with_job-Inv job c vj vr q new v)
  ]

  pub register_worker_cases :
      (now : ℤ) (w : WorkerRecord F) (c : Coordinator F)
      → (Keyed.has stored_key w.id.value c.workers ≡ true)
          × (register_worker now w c ≡ (err worker_exists_already, c))
        ⊎ (Keyed.has stored_key w.id.value c.workers ≡ false)
          × (register_worker now w c ≡ (ok tt, with_worker now w c))
  unfolding register_worker WorkerRepository.insert WorkerRepository.contains
  register_worker_cases now w c = elim (Bool-cases (Keyed.has stored_key w.id.value c.workers)) [
    | inl old ↦ inl (old, ground arith)
    | inr new ↦ inr (new, ground arith)
  ]

  find-new_worker :
      (id : Str) (s : StoredWorker F) (workers : WorkerRepository F)
      → Keyed.has stored_key (stored_key s) workers ≡ false
      → Keyed.find stored_key id (workers ++ s ∷ [])
        ≡ (if str_eq (stored_key s) id then some s else Keyed.find stored_key id workers)
  find-new_worker id s workers new = ground (
    arith,
    Keyed.find-append stored_key id workers s,
    Keyed.has-find stored_key id workers,
    str_eq_iff (stored_key s) id,
  )

  -- A worker that was not stored held nothing.
  Account-idle :
      (s : StoredWorker F) (jobs : JobRepository F)
      → IsSoundWorker s
      → Account (stored_key s) none jobs
      → Account (stored_key s) (some s) jobs
  Account-idle s jobs vw a =
      let memory_fits = vw.resources_valid.memory_le_total in
      let disk_fits = vw.resources_valid.disk_le_total in omega arith

  Account-new :
      (id : Str) (c : Coordinator F) (s : StoredWorker F)
      → Inv c
      → IsSoundWorker s
      → Keyed.has stored_key (stored_key s) c.workers ≡ false
      → Account id (Keyed.find stored_key id (c.workers ++ s ∷ [])) c.jobs
  Account-new id c s v vw new =
      subst (λ o. Account id o c.jobs) (sym (find-new_worker id s c.workers new))
        (elim (Bool-cases (str_eq (stored_key s) id)) [
          | inl same ↦ rw same (
              subst (λ k. Account k (some s) c.jobs) (str_eq_sound _ id same)
                (Account-idle s c.jobs vw (
                  subst (λ o. Account (stored_key s) o c.jobs)
                    (Keyed.find-none stored_key (stored_key s) c.workers new)
                    (v.accounts (stored_key s)))))
          | inr other ↦ rw other (v.accounts id)
        ])

  with_worker-Inv :
      (now : ℤ) (w : WorkerRecord F) (c : Coordinator F)
      → IsValidWorker w
      → Keyed.has stored_key w.id.value c.workers ≡ false
      → Inv c
      → Inv (with_worker now w c)
  with_worker-Inv now w c vw new v = record {
    jobs_unique = v.jobs_unique;
    workers_unique = Keyed.append-Unique stored_key _ c.workers v.workers_unique new;
    queue_unique = v.queue_unique;
    records_sound = v.records_sound;
    workers_sound = All-append IsSoundWorker c.workers _ v.workers_sound (vw, tt);
    queue_view = v.queue_view;
    accounts = λ id. Account-new id c _ v vw new;
  }

  -- `register_worker` of a valid worker keeps the coordinator's invariant, whether it throws or
  -- not.
  pub register_worker-Inv :
      (now : ℤ) (w : WorkerRecord F) (c : Coordinator F)
      → IsValidWorker w
      → Inv c
      → Inv (register_worker now w c).1
  register_worker-Inv now w c vw v = elim (register_worker_cases now w c) [
    | inl (old, p) ↦ subst Inv (ap (λ x. x.1) (sym p)) v
    | inr (new, p) ↦ subst Inv (ap (λ x. x.1) (sym p)) (with_worker-Inv now w c vw new v)
  ]
