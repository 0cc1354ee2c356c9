-- ===== src/Coordinator/Lifecycle/Loops.antt =====
-- The loops over the stored jobs move each job along its way.
use mathlib.Core.Path.{subst}
use radahn.Common.{ℤ, ◌+ℤ◌, ◌≡◌, refl, sym, ap, ◌∙◌, inl, inr, true, none, arith, [], ◌∷◌, ◌+◌}
use radahn.Common.Keyed
use radahn.Domain.Double.{Double, IsIeee}
use radahn.Domain.Id.{WorkerId}
use radahn.Domain.JobState.{JobState, queued, failed, can_transition}
use radahn.Domain.JobState.Graph.{Route, here, step, leases}
use radahn.Persistence.JobRepository
use radahn.Persistence.JobRepository.{JobRecord, record_key}
use radahn.Coordinator.State.{Coordinator, is_active_state, for_each}
use radahn.Coordinator.Loops.{Keeps, for_each_inv, count_each_inv}
use radahn.Coordinator.Invariant.{Inv}
use radahn.Coordinator.Invariant.Current.{JobCurrent}
use radahn.Coordinator.Heartbeat.{renew_lease}
use radahn.Coordinator.Heartbeat.Renewed.{renewed, renew_lease_cases, renew_lease-Keeps}
use radahn.Coordinator.Expiry.{
  expired_state, expire_lease, mark_expired_job_leases, requeue, requeue_retry_wait_jobs,
}
use radahn.Coordinator.Expiry.Requeued.{in_job_state, requeue_cases, requeue-Keeps}
use radahn.Coordinator.Expiry.Expired.{ended, expire_cases}
use radahn.Coordinator.Expiry.Ended.{expire_lease_cases, expire_lease-Keeps}
use radahn.Coordinator.Lifecycle.{Evolves, Follows, Follows-same, Goes-trans, Follows-replace}

module _ {F : Type 0} where
  -- One legal transition, or a new lease.
  pub Evolves-step :
      (old r : JobRecord F)
      → can_transition old.job.state r.job.state ≡ true
      → r.job.attempt_count ≡ old.job.attempt_count + leases (r.job.state ∷ [])
      → r.job ≡ record old.job { state = r.job.state; attempt_count = r.job.attempt_count }
      → Evolves old r
  Evolves-step old r legal attempts same = record {
    entered = r.job.state ∷ [];
    route = step legal here;
    attempts = attempts;
    same = same;
  }

  pub Evolves-stay : (old r : JobRecord F) → r.job ≡ old.job → Evolves old r
  unfolding leases
  Evolves-stay old r same = record {
    entered = [];
    route = subst (λ (j : JobState). Route old.job.state [] j) (ap (λ j. j.state) (sym same)) here;
    attempts = ap (λ j. j.attempt_count) same ∙ omega arith;
    same = ground arith;
  }

expired_legal :
    (s : JobState) → is_active_state s ≡ true → can_transition s (expired_state s) ≡ true
unfolding is_active_state can_transition
expired_legal s h = ground arith

expired_not_leased : (s : JobState) → leases (expired_state s ∷ []) ≡ 0
unfolding leases
expired_not_leased s = ground arith

module _ {F : Type 0} ⦃d : Double F⦄ where
  -- The invariant, and the way from where the loop began.
  abbrev OnTheWay : Coordinator F → Coordinator F → Type 0
  OnTheWay start c = Inv c × Follows start c

  on_the_way :
      (start : Coordinator F) (r : JobRecord F) (c next : Coordinator F)
      → Follows start c
      → Follows c next
      → Keeps record_key Inv JobCurrent r c next
      → Keeps record_key (OnTheWay start) JobCurrent r c next
  on_the_way start r c next so_far goes k =
      ((k.0, Goes-trans start.jobs c.jobs next.jobs so_far goes), k.1)

  renew_lease-Follows :
      (worker_id : WorkerId) (now : ℤ) (r : JobRecord F) (c : Coordinator F)
      → JobCurrent c r
      → Follows c (renew_lease worker_id now r c).1
  renew_lease-Follows worker_id now r c held = elim (renew_lease_cases worker_id now r c held) [
    | inl e ↦ Follows-same c _ (ap (λ x. x.jobs) e)
    | inr (active, mine, e) ↦
        Follows-replace c _ (renewed (now +ℤ c.lease_duration) r) r held refl (ap (λ x. x.jobs) e)
          (Evolves-stay r (renewed (now +ℤ c.lease_duration) r) refl)
  ]

  pub renew_leases-Follows :
      (worker_id : WorkerId) (now : ℤ) (c : Coordinator F)
      → Inv c
      → Follows c (for_each (renew_lease worker_id now) (JobRepository.list c.jobs) c).1
  unfolding JobRepository.list
  renew_leases-Follows worker_id now c v =
      (for_each_inv record_key (OnTheWay c) JobCurrent (renew_lease worker_id now)
        (λ r x p held.
          on_the_way c r x _ p.1 (renew_lease-Follows worker_id now r x held)
            (renew_lease-Keeps worker_id now r x p.0 held))
        c.jobs c (v, Follows-same c c.jobs refl) v.jobs_unique
        (Keyed.All-find_self record_key c.jobs v.jobs_unique)).1

  requeue-Follows :
      (r : JobRecord F) (c : Coordinator F) → Inv c → JobCurrent c r → Follows c (requeue r c).1
  unfolding can_transition leases
  requeue-Follows r c v held = elim (requeue_cases r c v held) [
    | inl (other, e) ↦ Follows-same c _ (ap (λ x. x.1.jobs) e)
    | inr (inl (waits, spent, e)) ↦
        Follows-replace c _ (in_job_state failed r) r held refl (ap (λ x. x.1.jobs) e)
          (Evolves-step r (in_job_state failed r) (rw waits) (omega arith) refl)
    | inr (inr (waits, may, e)) ↦
        Follows-replace c _ (in_job_state queued r) r held refl (ap (λ x. x.1.jobs) e)
          (Evolves-step r (in_job_state queued r) (rw waits) (omega arith) refl)
  ]

  pub requeue_retry_wait_jobs-Follows :
      (c : Coordinator F) → Inv c → Follows c (requeue_retry_wait_jobs c).1
  unfolding requeue_retry_wait_jobs JobRepository.list
  requeue_retry_wait_jobs-Follows c v =
      (count_each_inv record_key (OnTheWay c) JobCurrent requeue
        (λ r x p held.
          on_the_way c r x _ p.1 (requeue-Follows r x p.0 held) (requeue-Keeps r x p.0 held))
        c.jobs 0 c (v, Follows-same c c.jobs refl) v.jobs_unique
        (Keyed.All-find_self record_key c.jobs v.jobs_unique)).1

  ended-Evolves : (r : JobRecord F) → is_active_state r.job.state ≡ true → Evolves r (ended r)
  ended-Evolves r active =
      Evolves-step r (ended r) (expired_legal r.job.state active)
        (omega (arith, expired_not_leased r.job.state)) refl

  expire_lease-Follows :
      (now : ℤ) (r : JobRecord F) (c : Coordinator F)
      → Inv c
      → JobCurrent c r
      → Follows c (expire_lease now r c).1
  expire_lease-Follows now r c v held = elim (expire_lease_cases now r c held) [
    | inl e ↦ Follows-same c _ (ap (λ x. x.1.jobs) e)
    | inr (inl (idle, e)) ↦
        Follows-replace c _ (record r { lease_expires_at = none }) r held refl
          (ap (λ x. x.1.jobs) e) (Evolves-stay r (record r { lease_expires_at = none }) refl)
    | inr (inr (active, e)) ↦ elim (expire_cases r c v held) [
      | inl (x, t) ↦ Follows-same c _ (ap (λ x. x.1.jobs) (e ∙ t))
      | inr (inl t) ↦
          Follows-replace c _ (ended r) r held refl (ap (λ x. x.1.jobs) (e ∙ t))
            (ended-Evolves r active)
      | inr (inr f) ↦
          Follows-replace c _ (ended r) r held refl (ap (λ x. x.1.jobs) (e ∙ f.result))
            (ended-Evolves r active)
    ]
  ]

  pub mark_expired_job_leases-Follows :
      (ieee : IsIeee d) (now : ℤ) (c : Coordinator F)
      → Inv c
      → Follows c (mark_expired_job_leases now c).1
  unfolding mark_expired_job_leases JobRepository.list
  mark_expired_job_leases-Follows ieee now c v =
      (count_each_inv record_key (OnTheWay c) JobCurrent (expire_lease now)
        (λ r x p held.
          on_the_way c r x _ p.1 (expire_lease-Follows now r x p.0 held)
            (expire_lease-Keeps ieee now r x p.0 held))
        c.jobs 0 c (v, Follows-same c c.jobs refl) v.jobs_unique
        (Keyed.All-find_self record_key c.jobs v.jobs_unique)).1
