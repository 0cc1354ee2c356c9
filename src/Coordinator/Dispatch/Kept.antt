-- ===== src/Coordinator/Dispatch/Kept.antt =====
-- `apply_dispatch_decision` on every branch, and the invariant.
use mathlib.Core.Path.{subst}
use radahn.Common.{
  ℤ, ◌+ℤ◌, ◌<◌, ◌≡◌, refl, sym, ap, ◌∙◌, ◌⊎◌, inl, inr, ok, err, arith, Result-cases, str_eq_iff,
  str_eq_refl,
}
use radahn.Common.Keyed
use radahn.Domain.Double.{Double, IsIeee}
use radahn.Domain.Eligibility.Sound.{Meets}
use radahn.Domain.WorkerRecord.Accounts.{view}
use radahn.Domain.WorkerRecord.Preserved.{reserved-IsValidWorker}
use radahn.Domain.Error.{Error}
use radahn.Scheduler.JobQueue.{job_key}
use radahn.Scheduler.Planner.{DispatchDecision}
use radahn.Persistence.JobRepository.{JobRecord, record_key}
use radahn.Persistence.WorkerRepository.{StoredWorker, stored_key}
use radahn.Coordinator.State.{Coordinator, is_active_state}
use radahn.Coordinator.Invariant.{Inv, IsSoundRecord, IsSoundWorker}
use radahn.Coordinator.Invariant.Changes.{
  replace_job-Inv, QueueAfter, Account-change, Account-reserve,
}
use radahn.Coordinator.Dispatch.{prepare, apply_dispatch_decision}
use radahn.Coordinator.Dispatch.Prepare.{prepare_lem}
use radahn.Coordinator.Dispatch.Applied.{
  Names, returned, lease_to, occupied, dispatched, not_queued_twice, apply-refused, apply-leased,
}

module _ {F : Type 0} ⦃d : Double F⦄ where
  -- A job that leaves the queue and comes back at its end changes no lookup.
  returned-Inv :
      (decision : DispatchDecision F) (r : JobRecord F) (s : StoredWorker F) (c : Coordinator F)
      → Inv c
      → Names decision r s c
      → Inv (returned r c)
  returned-Inv decision r s c v n =
      let k = record_key r in
      let rest = Keyed.erase job_key k c.queue in
      record {
        jobs_unique = v.jobs_unique;
        workers_unique = v.workers_unique;
        queue_unique =
            Keyed.append-Unique job_key r.job rest
              (Keyed.erase-Unique job_key k c.queue v.queue_unique) (not_queued_twice r c v);
        records_sound = v.records_sound;
        workers_sound = v.workers_sound;
        queue_view = λ id. ground (
          arith,
          v.queue_view id,
          n.job_queued,
          Keyed.find-append job_key id rest r.job,
          Keyed.find-erase job_key k id c.queue v.queue_unique,
          Keyed.has-erase job_key k id c.queue v.queue_unique,
          Keyed.has-find job_key id c.queue,
          str_eq_iff k id,
        );
        accounts = v.accounts;
      }

  lease_to-IsSoundRecord :
      (deadline : ℤ) (s : StoredWorker F) (r : JobRecord F)
      → IsSoundRecord r
      → r.job.attempt_count < r.job.max_attempts
      → IsSoundRecord (lease_to deadline s r)
  unfolding is_active_state
  lease_to-IsSoundRecord deadline s r sound fits = record {
    job_valid = let valid = sound.job_valid in ground arith;
    requirements_valid = sound.requirements_valid;
    active_leased = λ h. (refl, refl);
    waiting_free = λ h. cc;
  }

  queue_without :
      (deadline : ℤ) (r : JobRecord F) (s : StoredWorker F) (c : Coordinator F)
      → Inv c
      → QueueAfter (lease_to deadline s r) c.queue (Keyed.erase job_key (record_key r) c.queue)
  queue_without deadline r s c v id =
      ground (arith, Keyed.find-erase job_key (record_key r) id c.queue v.queue_unique)

  module _ (ieee : IsIeee d) where
    dispatched-Inv :
        (now : ℤ) (decision : DispatchDecision F) (r : JobRecord F) (s : StoredWorker F)
        (c : Coordinator F)
        → Inv c
        → Names decision r s c
        → Meets r.job.requirements (view s.worker)
        → r.job.attempt_count < r.job.max_attempts
        → Inv (dispatched now r s c)
    unfolding is_active_state
    dispatched-Inv now decision r s c v n m fits =
        let r' = lease_to (now +ℤ c.lease_duration) s r in
        let sound = Keyed.All-find record_key IsSoundRecord _ c.jobs v.records_sound n.job_stored in
        let sound_w =
          Keyed.All-find stored_key IsSoundWorker _ c.workers v.workers_sound n.worker_stored in
        replace_job-Inv c r' r (Keyed.replace stored_key (occupied r s) c.workers)
          (Keyed.erase job_key (record_key r) c.queue) v n.job_stored
          (lease_to-IsSoundRecord (now +ℤ c.lease_duration) s r sound fits)
          (Keyed.replace-Unique stored_key (occupied r s) c.workers v.workers_unique)
          (Keyed.All-replace stored_key IsSoundWorker (occupied r s) c.workers v.workers_sound (
            reserved-IsValidWorker ieee r.job.requirements s.worker sound.requirements_valid sound_w
              m))
          (Keyed.erase-Unique job_key (record_key r) c.queue v.queue_unique)
          (queue_without (now +ℤ c.lease_duration) r s c v)
          (Account-change c r' r (occupied r s) s v n.job_stored n.worker_stored
            (λ id other. ground arith)
            (Account-reserve c r' r s v n.job_stored (let waiting = n.is_queued in ground arith)
              (ground (arith, str_eq_refl (stored_key s))) m))

  -- For a decision that names a queued job and a worker that are stored, in a coordinator that
  -- satisfies the invariant, `apply_dispatch_decision` either throws, with the job back at the
  -- end of the queue and nothing else changed, or finds that the worker meets the requirements
  -- and that attempts are left, takes the job out of the queue, counts the attempt, leases the
  -- job to the worker until `now` plus the lease duration, and reserves the resources.
  pub apply_dispatch_decision_cases :
      (now : ℤ) (decision : DispatchDecision F) (r : JobRecord F) (s : StoredWorker F)
      (c : Coordinator F)
      → Inv c
      → Names decision r s c
      → ((e : Error) × (apply_dispatch_decision now decision c ≡ (err e, returned r c)))
        ⊎ Meets r.job.requirements (view s.worker)
          × (r.job.attempt_count < r.job.max_attempts)
          × (apply_dispatch_decision now decision c ≡ (ok tt, dispatched now r s c))
  apply_dispatch_decision_cases now decision r s c v n =
      let sound = Keyed.All-find record_key IsSoundRecord _ c.jobs v.records_sound n.job_stored in
      let sound_w =
        Keyed.All-find stored_key IsSoundWorker _ c.workers v.workers_sound n.worker_stored in
      elim (Result-cases (prepare r.job s.worker)) [
        | inr (e, refused) ↦ inl (e, apply-refused now decision r s c e v n refused)
        | inl (p, done) ↦
            let (m, fits, same) = prepare_lem r.job s.worker p sound.job_valid sound_w done in
            inr (m, fits, apply-leased now decision r s c n (done ∙ ap ok same))
      ]

  -- The invariant holds after it, whether it throws or not.
  pub apply_dispatch_decision-Inv :
      (ieee : IsIeee d) (now : ℤ) (decision : DispatchDecision F) (r : JobRecord F)
      (s : StoredWorker F) (c : Coordinator F)
      → Inv c
      → Names decision r s c
      → Inv (apply_dispatch_decision now decision c).1
  apply_dispatch_decision-Inv ieee now decision r s c v n =
      elim (apply_dispatch_decision_cases now decision r s c v n) [
        | inl (e, p) ↦ subst Inv (ap (λ x. x.1) (sym p)) (returned-Inv decision r s c v n)
        | inr (m, fits, p) ↦
            subst Inv (ap (λ x. x.1) (sym p)) (dispatched-Inv ieee now decision r s c v n m fits)
      ]
