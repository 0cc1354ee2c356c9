-- ===== src/Coordinator/Invariant/Changes.antt =====
-- The changes of the stores that keep the invariant.
use mathlib.Core.Path.{subst}
use radahn.Common.{
  ℕ, ◌≤◌, ◌≡◌, sym, inl, inr, true, false, Option, none, some, Str, str_eq, str_eq_iff,
  str_eq_sound, All, if◌then◌else◌, arith, Bool-cases,
}
use radahn.Common.Keyed
use radahn.Domain.Double.{Double}
use radahn.Domain.Id.{WorkerId}
use radahn.Domain.WorkerRecord.Accounts.{Holds, released, reserved, view}
use radahn.Domain.Eligibility.Sound.{Meets}
use radahn.Scheduler.JobQueue.{JobQueue, job_key}
use radahn.Persistence.JobRepository.{JobRecord, JobRepository, record_key}
use radahn.Persistence.WorkerRepository.{StoredWorker, WorkerRepository, stored_key}
use radahn.Coordinator.State.{Coordinator, is_active_state}
use radahn.Coordinator.Invariant.{
  Inv, IsSoundRecord, IsSoundWorker, Account, queued_job, held, weight, slot, memory, disk,
}

module _ {F : Type 0} where
  -- The new record weighs no more than the old one on the worker.
  abbrev pub NoHeavier : Str → JobRecord F → JobRecord F → Type 0
  NoHeavier w r old =
      (weight slot w r ≤ weight slot w old)
      × (weight memory w r ≤ weight memory w old)
      × (weight disk w r ≤ weight disk w old)

  weight-held :
      (amount : JobRecord F → ℕ) (w : Str) (r : JobRecord F)
      → held w r ≡ true
      → weight amount w r ≡ amount r
  weight-held amount w r h = rw h

  weight_idle :
      (amount : JobRecord F → ℕ) (w : Str) (r : JobRecord F)
      → held w r ≡ false
      → weight amount w r ≡ 0
  weight_idle amount w r h = rw h

  -- A record that the worker does not hold weighs nothing.
  free-NoHeavier : (w : Str) (r old : JobRecord F) → held w r ≡ false → NoHeavier w r old
  free-NoHeavier w r old h =
      omega (arith, weight_idle slot w r h, weight_idle memory w r h, weight_idle disk w r h)

  held_assigned :
      (w : Str) (r : JobRecord F) {id : WorkerId}
      → r.assigned_worker_id ≡ some id
      → is_active_state r.job.state ≡ true
      → held w r ≡ str_eq id.value w
  held_assigned w r a h = ground arith

  held_idle : (w : Str) (r : JobRecord F) → is_active_state r.job.state ≡ false → held w r ≡ false
  held_idle w r h = ground arith

  Account-NoHeavier :
      (w : Str) (s : Option (StoredWorker F)) (jobs : JobRepository F) (r old : JobRecord F)
      → Keyed.find record_key (record_key r) jobs ≡ some old
      → NoHeavier w r old
      → Account w s jobs
      → Account w s (Keyed.replace record_key r jobs)
  Account-NoHeavier w none jobs r old found light a = omega (
    arith,
    Keyed.sum_of-replace record_key (weight slot w) r jobs found,
    Keyed.sum_of-replace record_key (weight memory w) r jobs found,
    Keyed.sum_of-replace record_key (weight disk w) r jobs found,
  )
  Account-NoHeavier w (some s) jobs r old found light a = omega (
    arith,
    Keyed.sum_of-replace record_key (weight slot w) r jobs found,
    Keyed.sum_of-replace record_key (weight memory w) r jobs found,
    Keyed.sum_of-replace record_key (weight disk w) r jobs found,
  )

  -- The queue after the change, seen by identifier.
  abbrev pub QueueAfter : JobRecord F → JobQueue F → JobQueue F → Type 0
  QueueAfter r queue queue' =
      (id : Str)
      → Keyed.find job_key id queue'
        ≡ (if str_eq (record_key r) id then queued_job (some r) else Keyed.find job_key id queue)

module _ {F : Type 0} ⦃d : Double F⦄ where
  -- A stored job is replaced; the workers and the queue change with it.
  pub replace_job-Inv :
      (c : Coordinator F) (r old : JobRecord F) (workers' : WorkerRepository F)
      (queue' : JobQueue F)
      → Inv c
      → Keyed.find record_key (record_key r) c.jobs ≡ some old
      → IsSoundRecord r
      → Keyed.Unique stored_key workers'
      → All IsSoundWorker workers'
      → Keyed.Unique job_key queue'
      → QueueAfter r c.queue queue'
      → ((w : Str)
          → Account w (Keyed.find stored_key w workers') (Keyed.replace record_key r c.jobs))
      → Inv (record c {
        jobs = Keyed.replace record_key r c.jobs;
        workers = workers';
        queue = queue';
      })
  replace_job-Inv c r old workers' queue' v found sound wu ws qu qv acc = record {
    jobs_unique = Keyed.replace-Unique record_key r c.jobs v.jobs_unique;
    workers_unique = wu;
    queue_unique = qu;
    records_sound = Keyed.All-replace record_key IsSoundRecord r c.jobs v.records_sound sound;
    workers_sound = ws;
    queue_view = λ id. ground (
      arith,
      qv id,
      v.queue_view id,
      Keyed.find-replace record_key id r c.jobs,
      Keyed.has-find record_key id c.jobs,
      str_eq_iff (record_key r) id,
    );
    accounts = acc;
  }

  -- A stored job is replaced by one that weighs no more; the workers stay.
  pub relabel_job-Inv :
      (c : Coordinator F) (r old : JobRecord F) (queue' : JobQueue F)
      → Inv c
      → Keyed.find record_key (record_key r) c.jobs ≡ some old
      → IsSoundRecord r
      → ((w : Str) → NoHeavier w r old)
      → Keyed.Unique job_key queue'
      → QueueAfter r c.queue queue'
      → Inv (record c { jobs = Keyed.replace record_key r c.jobs; queue = queue' })
  relabel_job-Inv c r old queue' v found sound light qu qv =
      replace_job-Inv c r old c.workers queue' v found sound v.workers_unique v.workers_sound qu qv
        (λ w. Account-NoHeavier w _ c.jobs r old found (light w) (v.accounts w))

  -- The queue needs no change when the job is queued neither before nor after.
  pub queue_stays :
      (c : Coordinator F) (r old : JobRecord F)
      → Inv c
      → Keyed.find record_key (record_key r) c.jobs ≡ some old
      → queued_job (some r) ≡ queued_job (some old)
      → QueueAfter r c.queue c.queue
  queue_stays c r old v found same id =
      ground (arith, v.queue_view id, v.queue_view (record_key r), str_eq_iff (record_key r) id)

  -- What the lookups of workers give after a stored worker is replaced by one of its key.
  find-replace_worker :
      (id : Str) (s stored : StoredWorker F) (workers : WorkerRepository F)
      → Keyed.find stored_key (stored_key s) workers ≡ some stored
      → Keyed.find stored_key id (Keyed.replace stored_key s workers)
        ≡ (if str_eq (stored_key s) id then some s else Keyed.find stored_key id workers)
  find-replace_worker id s stored workers found = ground (
    arith,
    Keyed.find-replace stored_key id s workers,
    Keyed.has-find stored_key id workers,
    str_eq_iff (stored_key s) id,
  )

  -- One job and the account of the worker that holds it before or after change together. Other
  -- workers hold the job neither before nor after.
  pub Account-change :
      (c : Coordinator F) (r old : JobRecord F) (s stored : StoredWorker F)
      → Inv c
      → Keyed.find record_key (record_key r) c.jobs ≡ some old
      → Keyed.find stored_key (stored_key s) c.workers ≡ some stored
      → ((id : Str) → str_eq (stored_key s) id ≡ false → held id r ≡ false)
      → (Account (stored_key s) (some stored) c.jobs
          → Account (stored_key s) (some s) (Keyed.replace record_key r c.jobs))
      → (id : Str)
      → Account id
          (Keyed.find stored_key id (Keyed.replace stored_key s c.workers))
          (Keyed.replace record_key r c.jobs)
  Account-change c r old s stored v found found_w others own id =
      subst (λ o. Account id o (Keyed.replace record_key r c.jobs))
        (sym (find-replace_worker id s stored c.workers found_w))
        (elim (Bool-cases (str_eq (stored_key s) id)) [
          | inl same ↦ rw same (
              subst (λ k. Account k (some s) (Keyed.replace record_key r c.jobs))
                (str_eq_sound _ id same)
                (own (
                  subst (λ o. Account (stored_key s) o c.jobs) found_w
                    (v.accounts (stored_key s)))))
          | inr other ↦ rw other (
              Account-NoHeavier id _ c.jobs r old found (free-NoHeavier id r old (others id other))
                (v.accounts id))
        ])

  -- The job that a worker gives up, and the worker's account after it.
  pub Account-release :
      (c : Coordinator F) (r old : JobRecord F) (stored : StoredWorker F)
      → Inv c
      → Keyed.find record_key (record_key r) c.jobs ≡ some old
      → held (stored_key stored) old ≡ true
      → is_active_state r.job.state ≡ false
      → Holds old.job.requirements stored.worker
      → Account (stored_key stored) (some stored) c.jobs
      → Account
          (stored_key stored)
          (some (record stored { worker = released old.job.requirements stored.worker }))
          (Keyed.replace record_key r c.jobs)
  Account-release c r old stored v found held_old idle h a =
      let w = stored_key stored in
      let free = held_idle w r idle in
      omega (
        arith,
        Keyed.sum_of-replace record_key (weight slot w) r c.jobs found,
        Keyed.sum_of-replace record_key (weight memory w) r c.jobs found,
        Keyed.sum_of-replace record_key (weight disk w) r c.jobs found,
        weight-held slot w old held_old,
        weight-held memory w old held_old,
        weight-held disk w old held_old,
        weight_idle slot w r free,
        weight_idle memory w r free,
        weight_idle disk w r free,
      )

  -- The job that a worker takes, and the worker's account after it.
  pub Account-reserve :
      (c : Coordinator F) (r old : JobRecord F) (stored : StoredWorker F)
      → Inv c
      → Keyed.find record_key (record_key r) c.jobs ≡ some old
      → is_active_state old.job.state ≡ false
      → held (stored_key stored) r ≡ true
      → Meets r.job.requirements (view stored.worker)
      → Account (stored_key stored) (some stored) c.jobs
      → Account
          (stored_key stored)
          (some (record stored { worker = reserved r.job.requirements stored.worker }))
          (Keyed.replace record_key r c.jobs)
  Account-reserve c r old stored v found idle held_r m a =
      let w = stored_key stored in
      let free = held_idle w old idle in
      let memory_fits = m.memory_enough in
      let disk_fits = m.disk_enough in
      omega (
        arith,
        Keyed.sum_of-replace record_key (weight slot w) r c.jobs found,
        Keyed.sum_of-replace record_key (weight memory w) r c.jobs found,
        Keyed.sum_of-replace record_key (weight disk w) r c.jobs found,
        weight_idle slot w old free,
        weight_idle memory w old free,
        weight_idle disk w old free,
        weight-held slot w r held_r,
        weight-held memory w r held_r,
        weight-held disk w r held_r,
      )
