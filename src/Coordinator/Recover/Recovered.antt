-- ===== src/Coordinator/Recover/Recovered.antt =====
-- The constructor over given repositories: recovery as a whole.
use mathlib.Core.Path.{subst}
use radahn.Common.{
  ℕ, ℤ, pos, leb_ℤ, ◌≡◌, refl, sym, ap, ◌∙◌, false, Option, none, some, arith, ok, [], ◌∷◌, Str,
  All, All-map,
}
use radahn.Common.Keyed
use radahn.Domain.Double.{Double, IsIeee}
use radahn.Scheduler.Policy.{Policy}
use radahn.Persistence.JobRepository
use radahn.Persistence.JobRepository.{JobRecord, JobRepository, record_key}
use radahn.Persistence.WorkerRepository
use radahn.Persistence.WorkerRepository.{StoredWorker, WorkerRepository, stored_key}
use radahn.Coordinator.State.{Coordinator, is_active_state, for_each}
use radahn.Coordinator.Loops.{for_each_returns}
use radahn.Coordinator.Invariant.{Inv, IsSoundWorker, Account, total_held, slot, memory, disk}
use radahn.Coordinator.Invariant.Current.{All-list, Unique-list, has-list}
use radahn.Coordinator.Recover.{
  recover_worker, recover_job, recover_persisted_state, make_coordinator,
}
use radahn.Coordinator.Recover.Workers.{Recovering, recover_worker-step, IsIdle}
use radahn.Coordinator.Recover.Requeue.{
  IsStorable, IsSettled, IsSettledOption, Settling, recover_job-step,
}

module _ {F : Type 0} ⦃d : Double F⦄ where
  -- What the repositories of an earlier run hold: values that the constructors accept, under
  -- distinct identifiers.
  pub record Storable (jobs : JobRepository F) (workers : WorkerRepository F) : Type 0 where
    pub jobs_unique : Keyed.Unique record_key jobs
    pub workers_unique : Keyed.Unique stored_key workers
    pub jobs_storable : All IsStorable jobs
    pub workers_sound : All IsSoundWorker workers

  pub record IsRecovered (c : Coordinator F) : Type 0 where
    pub invariant : Inv c
    pub none_active : All (λ r. is_active_state r.job.state ≡ false) c.jobs
    pub all_idle : All (λ s. IsIdle s.worker) c.workers

  held_idle :
      (amount : JobRecord F → ℕ) (w : Str) (jobs : JobRepository F)
      → All (λ r. is_active_state r.job.state ≡ false) jobs
      → total_held amount w jobs ≡ 0
  held_idle amount w [] a = refl
  held_idle amount w (r ∷ jobs) a = ground (arith, held_idle amount w jobs a.1)

  Account-idle :
      (w : Str) (s : Option (StoredWorker F)) (jobs : JobRepository F)
      → ((t : StoredWorker F) → s ≡ some t → IsSoundWorker t)
      → All (λ r. is_active_state r.job.state ≡ false) jobs
      → Account w s jobs
  Account-idle w none jobs v a =
      (held_idle slot w jobs a, held_idle memory w jobs a, held_idle disk w jobs a)
  Account-idle w (some s) jobs v a =
      let sound = v s refl in
      let memory_fits = sound.resources_valid.memory_le_total in
      let disk_fits = sound.resources_valid.disk_le_total in
      omega (arith, held_idle slot w jobs a, held_idle memory w jobs a, held_idle disk w jobs a)

  All-IsSettled : (start c : Coordinator F) → Settling start [] c → All IsSettled c.jobs
  unfolding Keyed.has
  All-IsSettled start c p =
      All-map c.jobs
        (λ r found. subst IsSettledOption found (p.reached_settled (record_key r) refl))
        (Keyed.All-find_self record_key c.jobs p.jobs_unique)

  settled-Inv :
      (start c : Coordinator F)
      → Keyed.Unique stored_key c.workers
      → All IsSoundWorker c.workers
      → Settling start [] c
      → Inv c
  unfolding Keyed.has
  settled-Inv start c wu ws p =
      let settled = All-IsSettled start c p in
      record {
        jobs_unique = p.jobs_unique;
        workers_unique = wu;
        queue_unique = p.queue_unique;
        records_sound = All-map c.jobs (λ r s. s.0) settled;
        workers_sound = ws;
        queue_view = λ id. p.reached_view id refl;
        accounts = λ w.
            Account-idle w _ c.jobs
              (λ s found. Keyed.All-find stored_key IsSoundWorker w c.workers ws found)
              (All-map c.jobs (λ r s. s.1) settled);
      }

  -- The loop over the jobs starts with an empty queue.
  Settling-start :
      (c : Coordinator F)
      → c.queue ≡ []
      → Keyed.Unique record_key c.jobs
      → All IsStorable c.jobs
      → Settling c c.jobs c
  unfolding Keyed.find
  Settling-start c empty u v = record {
    rest = refl;
    jobs_unique = u;
    queue_unique = subst (Keyed.Unique _) (sym empty) tt;
    left_unique = u;
    left_stored = Keyed.All-find_self record_key c.jobs u;
    left_storable = v;
    left_waiting = λ id h. ground arith;
    reached_view = λ id h. ground (arith, Keyed.find-none record_key id c.jobs h);
    reached_settled =
        λ id h. subst IsSettledOption (sym (Keyed.find-none record_key id c.jobs h)) tt;
  }

  jobs_loop :
      (c : Coordinator F)
      → c.queue ≡ []
      → Keyed.Unique record_key c.jobs
      → All IsStorable c.jobs
      → ((for_each recover_job (JobRepository.list c.jobs) c).0 ≡ ok tt)
        × Settling c [] (for_each recover_job (JobRepository.list c.jobs) c).1
  unfolding JobRepository.list
  jobs_loop c empty u v =
      for_each_returns (Settling c) recover_job (recover_job-step c) c.jobs c
        (Settling-start c empty u v)

  module _ (ieee : IsIeee d) where
    Recovering-start :
        (c : Coordinator F)
        → Keyed.Unique stored_key c.workers
        → All IsSoundWorker c.workers
        → Recovering ieee c (WorkerRepository.list c.workers) c
    Recovering-start c u v = record {
      rest = refl;
      workers_unique = u;
      workers_sound = v;
      left_unique = Unique-list c.workers u;
      left_stored = All-list c c.workers (Keyed.All-find_self stored_key c.workers u);
      reached_idle = λ id s out found.
          ground (arith, has-list id c.workers, Keyed.has-find stored_key id c.workers);
    }

    workers_loop :
        (c : Coordinator F)
        → Keyed.Unique stored_key c.workers
        → All IsSoundWorker c.workers
        → ((for_each recover_worker (WorkerRepository.list c.workers) c).0 ≡ ok tt)
          × Recovering ieee c [] (for_each recover_worker (WorkerRepository.list c.workers) c).1
    workers_loop c u v =
        for_each_returns (Recovering ieee c) recover_worker (recover_worker-step ieee c)
          (WorkerRepository.list c.workers) c (Recovering-start c u v)

    -- The stores after the loop over the workers.
    abbrev freed : Coordinator F → Coordinator F
    freed c = (for_each recover_worker (WorkerRepository.list c.workers) c).1

    recover-eq :
        (c : Coordinator F)
        → (for_each recover_worker (WorkerRepository.list c.workers) c).0 ≡ ok tt
        → recover_persisted_state c
          ≡ for_each recover_job (JobRepository.list (freed c).jobs) (freed c)
    unfolding recover_persisted_state
    recover-eq c returned = rw returned refl

    recover_all :
        (c : Coordinator F)
        → c.queue ≡ []
        → Storable c.jobs c.workers
        → ((recover_persisted_state c).0 ≡ ok tt) × IsRecovered (recover_persisted_state c).1
    unfolding Keyed.has WorkerRepository.list
    recover_all c empty st =
        let (returned, p) = workers_loop c st.workers_unique st.workers_sound in
        let same_jobs : (freed c).jobs ≡ c.jobs = ap (λ (x : Coordinator F). x.jobs) p.rest in
        let still_empty : (freed c).queue ≡ [] =
          ap (λ (x : Coordinator F). x.queue) p.rest ∙ empty in
        let (done, q) =
          jobs_loop (freed c) still_empty
            (subst (Keyed.Unique record_key) (sym same_jobs) st.jobs_unique)
            (subst (All IsStorable) (sym same_jobs) st.jobs_storable) in
        let c2 : Coordinator F =
          (for_each recover_job (JobRepository.list (freed c).jobs) (freed c)).1 in
        let same_workers : c2.workers ≡ (freed c).workers =
          ap (λ (x : Coordinator F). x.workers) q.rest in
        let e = recover-eq c returned in
        (
          ap (λ x. x.0) e ∙ done,
          subst IsRecovered (ap (λ x. x.1) (sym e)) (record {
            invariant =
                settled-Inv (freed c) c2
                  (subst (Keyed.Unique stored_key) (sym same_workers) p.workers_unique)
                  (subst (All IsSoundWorker) (sym same_workers) p.workers_sound) q;
            none_active = All-map c2.jobs (λ r s. s.1) (All-IsSettled (freed c) c2 q);
            all_idle = subst (All (λ s. IsIdle s.worker)) (sym same_workers) (
                All-map (freed c).workers (λ s found. p.reached_idle (stored_key s) s refl found)
                  (Keyed.All-find_self stored_key (freed c).workers p.workers_unique));
          }),
        )

    -- For doubles that behave like IEEE ones, the constructor, with a positive lease duration and
    -- repositories of valid records and valid workers under distinct identifiers, whatever the
    -- states of the jobs, returns a coordinator that satisfies the invariant, in which no job is
    -- active and every worker is idle.
    pub make_coordinator-IsRecovered :
        (policy : Policy) (jobs : JobRepository F) (workers : WorkerRepository F) (lease : ℤ)
        → leb_ℤ lease (pos 0) ≡ false
        → Storable jobs workers
        → ((make_coordinator policy jobs workers lease).0 ≡ ok tt)
          × IsRecovered (make_coordinator policy jobs workers lease).1
    unfolding make_coordinator
    make_coordinator-IsRecovered policy jobs workers lease positive st = rw positive (
        recover_all
          (record {
            jobs = jobs;
            workers = workers;
            lease_duration = lease;
            queue = [];
            policy = policy;
          })
          refl st)
