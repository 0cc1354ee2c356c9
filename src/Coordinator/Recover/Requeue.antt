-- ===== src/Coordinator/Recover/Requeue.antt =====
-- Recovery's loop over the jobs: it settles one stored job after the other.
use mathlib.Core.Path.{subst}
use radahn.Common.{
  ◌≡◌, sym, ap, inl, inr, true, false, Option, none, some, arith, Bool-cases, ok, List, [], ◌∷◌,
  ◌++◌, if◌then◌else◌, Str, str_eq, str_eq_iff, str_eq_comm, str_eq_refl, All, All-map, All-zip,
}
use radahn.Common.Keyed
use radahn.Domain.Double.{Double}
use radahn.Domain.Resource.Validity.{IsValidRequirements}
use radahn.Domain.JobState.{queued, state_eq}
use radahn.Domain.Job.{can_attempt}
use radahn.Domain.Job.Attempts.{IsValidJob}
use radahn.Scheduler.JobQueue.{JobQueue, job_key}
use radahn.Persistence.JobRepository.{JobRecord, JobRepository, record_key}
use radahn.Coordinator.State.{Coordinator, is_active_state}
use radahn.Coordinator.Invariant.{IsSoundRecord, queued_job}
use radahn.Coordinator.Invariant.Current.{JobCurrent}
use radahn.Coordinator.Recover.{recover_job}
use radahn.Coordinator.Recover.Jobs.{
  recovered, after_recovery, recover_job-eq, recovered-IsSoundRecord, recovered_idle,
}

module _ {F : Type 0} ⦃d : Double F⦄ where
  -- What the constructors guarantee of a stored job.
  abbrev pub IsStorable : JobRecord F → Type 0
  IsStorable r = IsValidJob r.job × IsValidRequirements r.job.requirements

  abbrev pub IsSettled : JobRecord F → Type 0
  IsSettled r = IsSoundRecord r × (is_active_state r.job.state ≡ false)

  abbrev pub IsSettledOption : Option (JobRecord F) → Type 0
  IsSettledOption none = Unit
  IsSettledOption (some r) = IsSettled r

  -- How far the loop has come: `left` are the records that it has not reached.
  pub record Settling (start : Coordinator F) (left : List (JobRecord F)) (c : Coordinator F)
      : Type 0 where
    pub rest : c ≡ record start { jobs = c.jobs; queue = c.queue }
    pub jobs_unique : Keyed.Unique record_key c.jobs
    pub queue_unique : Keyed.Unique job_key c.queue
    pub left_unique : Keyed.Unique record_key left
    pub left_stored : All (JobCurrent c) left
    pub left_storable : All IsStorable left
    pub left_waiting :
        (id : Str) → Keyed.has record_key id left ≡ true → Keyed.find job_key id c.queue ≡ none
    pub reached_view :
        (id : Str)
        → Keyed.has record_key id left ≡ false
        → Keyed.find job_key id c.queue ≡ queued_job (Keyed.find record_key id c.jobs)
    pub reached_settled :
        (id : Str)
        → Keyed.has record_key id left ≡ false
        → IsSettledOption (Keyed.find record_key id c.jobs)

  queue_after : JobRecord F → JobQueue F → JobQueue F
  queue_after r queue =
      if state_eq (recovered r).job.state queued then queue ++ (recovered r).job ∷ [] else queue

  find-queue_after :
      (id : Str) (r : JobRecord F) (queue : JobQueue F)
      → Keyed.find job_key id (queue_after r queue) ≡ (
          if Keyed.has job_key id queue
          then Keyed.find job_key id queue
          else if str_eq (record_key r) id
          then queued_job (some (recovered r))
          else none)
  unfolding queue_after
  find-queue_after id r queue =
      ground (
        arith,
        Keyed.find-append job_key id queue (recovered r).job,
        Keyed.has-find job_key id queue,
      )

  queue_after-Unique :
      (r : JobRecord F) (queue : JobQueue F)
      → Keyed.has job_key (record_key r) queue ≡ false
      → Keyed.Unique job_key queue
      → Keyed.Unique job_key (queue_after r queue)
  unfolding queue_after
  queue_after-Unique r queue new u = elim (Bool-cases (state_eq (recovered r).job.state queued)) [
    | inl e ↦ rw e (Keyed.append-Unique job_key (recovered r).job queue u new)
    | inr e ↦ rw e u
  ]

  left_stored_after :
      (r : JobRecord F) (left : List (JobRecord F)) (jobs : JobRepository F)
      → Keyed.has record_key (record_key r) left ≡ false
      → All (λ y. Keyed.find record_key (record_key y) jobs ≡ some y) left
      → All
          (λ y.
            Keyed.find record_key (record_key y) (Keyed.replace record_key (recovered r) jobs)
            ≡ some y)
          left
  left_stored_after r left jobs new stored =
      All-map left
        (λ y q. ground (
          arith,
          q.0,
          q.1,
          str_eq_comm (record_key r) (record_key y),
          Keyed.find-replace record_key (record_key y) (recovered r) jobs,
        ))
        (All-zip _ (λ y. str_eq (record_key y) (record_key r) ≡ false) left stored
          (Keyed.All-other record_key (record_key r) left new))

  -- What the lookups give after a stored record is recovered.
  find-recovered :
      (id : Str) (r : JobRecord F) (jobs : JobRepository F)
      → Keyed.find record_key (record_key r) jobs ≡ some r
      → Keyed.find record_key id (Keyed.replace record_key (recovered r) jobs)
        ≡ (if str_eq (record_key r) id then some (recovered r) else Keyed.find record_key id jobs)
  find-recovered id r jobs held = ground (
    arith,
    Keyed.find-replace record_key id (recovered r) jobs,
    Keyed.has-find record_key id jobs,
    str_eq_iff (record_key r) id,
  )

  recovered-IsSettled : (r : JobRecord F) → IsStorable r → IsSettled (recovered r)
  recovered-IsSettled r v =
      (recovered-IsSoundRecord r v.0 v.1, recovered_idle (can_attempt r.job) r.job.state)

  settled_after :
      (id : Str) (r : JobRecord F) (jobs : JobRepository F)
      → Keyed.find record_key (record_key r) jobs ≡ some r
      → IsStorable r
      → (str_eq (record_key r) id ≡ false → IsSettledOption (Keyed.find record_key id jobs))
      → IsSettledOption (Keyed.find record_key id (Keyed.replace record_key (recovered r) jobs))
  settled_after id r jobs held v before =
      subst IsSettledOption (sym (find-recovered id r jobs held))
        (elim (Bool-cases (str_eq (record_key r) id)) [
          | inl same ↦ rw same (recovered-IsSettled r v)
          | inr other ↦ rw other (before other)
        ])

  pub recover_job-step :
      (start : Coordinator F) (r : JobRecord F) (left : List (JobRecord F)) (c : Coordinator F)
      → Settling start (r ∷ left) c
      → ((recover_job r c).0 ≡ ok tt) × Settling start left (recover_job r c).1
  unfolding Keyed.has queue_after
  recover_job-step start r left c p =
      let held = p.left_stored.0 in
      let storable = p.left_storable.0 in
      let free : Keyed.find job_key (record_key r) c.queue ≡ none =
        p.left_waiting (record_key r) (ground (arith, str_eq_refl (record_key r))) in
      let new : Keyed.has job_key (record_key r) c.queue ≡ false =
        ground (arith, free, Keyed.has-find job_key (record_key r) c.queue) in
      let e = recover_job-eq r c storable.0 held new in
      (
        ap (λ x. x.0) e,
        subst (Settling start left) (ap (λ x. x.1) (sym e)) (record {
          rest =
              ap
                (λ (x : Coordinator F). record x {
                  jobs = (after_recovery r c).jobs;
                  queue = (after_recovery r c).queue;
                })
                p.rest;
          jobs_unique = Keyed.replace-Unique record_key (recovered r) c.jobs p.jobs_unique;
          queue_unique = queue_after-Unique r c.queue new p.queue_unique;
          left_unique = p.left_unique.1;
          left_stored = left_stored_after r left c.jobs p.left_unique.0 p.left_stored.1;
          left_storable = p.left_storable.1;
          left_waiting = λ id h. ground (
            arith,
            find-queue_after id r c.queue,
            p.left_waiting id,
            Keyed.has-find job_key id c.queue,
            p.left_unique.0,
            str_eq_iff (record_key r) id,
          );
          reached_view = λ id h. ground (
            arith,
            find-queue_after id r c.queue,
            find-recovered id r c.jobs held,
            p.reached_view id,
            free,
            Keyed.has-find job_key id c.queue,
            str_eq_iff (record_key r) id,
          );
          reached_settled = λ id h.
              settled_after id r c.jobs held storable
                (λ other. p.reached_settled id (ground arith));
        }),
      )
