-- ===== src/Coordinator/Lifecycle/Calls.antt =====
-- Every call moves the stored jobs along their ways, and so does every sequence of calls.
use mathlib.Core.Path.{subst}
use radahn.Common.{ℤ, ◌+ℤ◌, ◌≡◌, refl, sym, ap, ◌∙◌, inl, inr, none, arith, Option-cases, [], ◌∷◌}
use radahn.Common.Keyed
use radahn.Domain.Double.{Double, IsIeee}
use radahn.Domain.Id.{JobId, WorkerId}
use radahn.Domain.JobState.{JobState, succeeded, failed, can_transition}
use radahn.Domain.JobState.Graph.{leases}
use radahn.Domain.Job.{Job}
use radahn.Domain.WorkerRecord.{WorkerRecord}
use radahn.Scheduler.Planner.{DispatchDecision}
use radahn.Persistence.JobRepository
use radahn.Persistence.JobRepository.{JobRecord, record_key}
use radahn.Persistence.WorkerRepository
use radahn.Persistence.WorkerRepository.{StoredWorker, stored_key}
use radahn.Coordinator.State.{Coordinator, for_each}
use radahn.Coordinator.Invariant.{Inv}
use radahn.Coordinator.Heartbeat.{renew_lease, record_worker_heartbeat}
use radahn.Coordinator.Heartbeat.Beat.{noted, noted-Inv, noted-jobs, record_worker_heartbeat-noted}
use radahn.Coordinator.Heartbeat.Stale.{mark_stale_workers_offline-jobs}
use radahn.Coordinator.Submit.{submit_job, register_worker}
use radahn.Coordinator.Submit.Added.{submit_job_cases, register_worker_cases}
use radahn.Coordinator.Dispatch.{apply_dispatch_decision}
use radahn.Coordinator.Dispatch.Applied.{Names, lease_to}
use radahn.Coordinator.Dispatch.Kept.{apply_dispatch_decision_cases}
use radahn.Coordinator.Dispatch.Once.{
  Dispatches, moved_on, moved_on-Inv, dispatch_once-Dispatches, dispatch_once_for_worker-Dispatches,
}
use radahn.Coordinator.Finish.{mark_running, finish_job, mark_succeeded, mark_failed}
use radahn.Coordinator.Finish.Running.{started, mark_running_cases}
use radahn.Coordinator.Finish.Finished.{finished, finish_job_cases}
use radahn.Coordinator.Reachable.{
  Call, submits, registers, dispatches, dispatches_to, runs, beats, finds_stale, expires, requeues,
  succeeds, fails,
}
use radahn.Coordinator.Lifecycle.{Evolves-refl, Follows, Follows-same, Goes-trans, Follows-replace}
use radahn.Coordinator.Lifecycle.Loops.{
  Evolves-step, renew_leases-Follows, requeue_retry_wait_jobs-Follows,
  mark_expired_job_leases-Follows,
}

module _ {F : Type 0} ⦃d : Double F⦄ where
  submit_job-Follows : (job : Job F) (c : Coordinator F) → Inv c → Follows c (submit_job job c).1
  submit_job-Follows job c v = elim (submit_job_cases job c v) [
    | inl (old, e) ↦ Follows-same c _ (ap (λ x. x.1.jobs) e)
    | inr (inl (new, other, e)) ↦ Follows-same c _ (ap (λ x. x.1.jobs) e)
    | inr (inr (new, is_queued, e)) ↦ λ id old h. (
      old,
      ap (λ x. Keyed.find record_key id x.1.jobs) e
          ∙ ground (
            arith,
            Keyed.find-append record_key id c.jobs
                (record { job = job; assigned_worker_id = none; lease_expires_at = none }),
            Keyed.has-find record_key id c.jobs,
          ),
      Evolves-refl old,
    )
  ]

  register_worker-Follows :
      (now : ℤ) (w : WorkerRecord F) (c : Coordinator F) → Follows c (register_worker now w c).1
  register_worker-Follows now w c = elim (register_worker_cases now w c) [
    | inl (old, e) ↦ Follows-same c _ (ap (λ x. x.1.jobs) e)
    | inr (new, e) ↦ Follows-same c _ (ap (λ x. x.1.jobs) e)
  ]

  apply-Follows :
      (now : ℤ) (decision : DispatchDecision F) (r : JobRecord F) (s : StoredWorker F)
      (c : Coordinator F)
      → Inv c
      → Names decision r s c
      → Follows c (apply_dispatch_decision now decision c).1
  unfolding can_transition leases
  apply-Follows now decision r s c v n =
      elim (apply_dispatch_decision_cases now decision r s c v n) [
        | inl (x, e) ↦ Follows-same c _ (ap (λ x. x.1.jobs) e)
        | inr (m, fits, e) ↦
            let r' = lease_to (now +ℤ c.lease_duration) s r in
            Follows-replace c _ r' r n.job_stored refl (ap (λ x. x.1.jobs) e)
              (Evolves-step r r' (rw n.is_queued) (omega arith) refl)
      ]

  Dispatches-Follows :
      (now : ℤ) (c next : Coordinator F) → Inv c → Dispatches now c next → Follows c next
  Dispatches-Follows now c next v (policy, inl e) = Follows-same c next.jobs (ap (λ x. x.jobs) e)
  Dispatches-Follows now c next v (policy, inr (decision, r, s, n, e)) =
      subst (Follows c) (sym e)
        (apply-Follows now decision r s (moved_on policy c) (moved_on-Inv policy c v) n)

  mark_running-Follows :
      (now : ℤ) (job_id : JobId) (c : Coordinator F) → Follows c (mark_running now job_id c).1
  unfolding can_transition leases
  mark_running-Follows now job_id c = elim (mark_running_cases now job_id c) [
    | inl (x, e) ↦ Follows-same c _ (ap (λ x. x.1.jobs) e)
    | inr (r, found, taken, was_leased, e) ↦
        let r' = started (now +ℤ c.lease_duration) r in
        Follows-replace c _ r' r (Keyed.find-key record_key job_id.value c.jobs found) refl
          (ap (λ x. x.1.jobs) e) (Evolves-step r r' (rw was_leased) (omega arith) refl)
  ]

  finish_job-Follows :
      (job_id : JobId) (state : JobState) (c : Coordinator F)
      → leases (state ∷ []) ≡ 0
      → Follows c (finish_job job_id state c).1
  finish_job-Follows job_id state c not_lease = elim (finish_job_cases job_id state c) [
    | inl (x, e) ↦ Follows-same c _ (ap (λ x. x.1.jobs) e)
    | inr f ↦
        Follows-replace c _ (finished state f.stored_job) f.stored_job
          (Keyed.find-key record_key job_id.value c.jobs f.job_found) refl
          (ap (λ x. x.1.jobs) f.result)
          (Evolves-step f.stored_job (finished state f.stored_job) f.legal
            (omega (arith, not_lease)) refl)
  ]

  record_worker_heartbeat-Follows :
      (worker_id : WorkerId) (time : ℤ) (c : Coordinator F)
      → Inv c
      → Follows c (record_worker_heartbeat worker_id time c).1
  unfolding record_worker_heartbeat WorkerRepository.get
  record_worker_heartbeat-Follows worker_id time c v =
      elim (Option-cases (Keyed.find stored_key worker_id.value c.workers)) [
        | inl e ↦ rw e (Follows-same c c.jobs refl)
        | inr (s, found) ↦
            let self = Keyed.find-key stored_key worker_id.value c.workers found in
            let loop =
              renew_leases-Follows worker_id time (noted time s c) (noted-Inv time s c v self) in
            subst (Follows c)
              (sym (ap (λ x. x.1) (record_worker_heartbeat-noted worker_id time s c v found)))
              (Goes-trans c.jobs (noted time s c).jobs _
                (Follows-same c (noted time s c).jobs (noted-jobs time s c))
                (subst
                  (λ js.
                    Follows (noted time s c)
                      (for_each (renew_lease worker_id time) (JobRepository.list js)
                        (noted time s c)).1)
                  (noted-jobs time s c) loop))
      ]

  module _ (ieee : IsIeee d) where
    -- Every call moves the stored jobs along their ways.
    pub Call-Follows : (c next : Coordinator F) → Call c next → Inv c → Follows c next
    unfolding mark_succeeded mark_failed leases
    Call-Follows c next (submits job vj vr) v = submit_job-Follows job c v
    Call-Follows c next (registers now w vw) v = register_worker-Follows now w c
    Call-Follows c next (dispatches now) v =
        Dispatches-Follows now c _ v (dispatch_once-Dispatches now c v)
    Call-Follows c next (dispatches_to now w) v =
        Dispatches-Follows now c _ v (dispatch_once_for_worker-Dispatches now w c v)
    Call-Follows c next (runs now job) v = mark_running-Follows now job c
    Call-Follows c next (beats w time) v = record_worker_heartbeat-Follows w time c v
    Call-Follows c next (finds_stale now timeout) v =
        Follows-same c _ (mark_stale_workers_offline-jobs now timeout c v)
    Call-Follows c next (expires now) v = mark_expired_job_leases-Follows ieee now c v
    Call-Follows c next requeues v = requeue_retry_wait_jobs-Follows c v
    Call-Follows c next (succeeds job) v = finish_job-Follows job succeeded c refl
    Call-Follows c next (fails job) v = finish_job-Follows job failed c refl
