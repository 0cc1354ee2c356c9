-- ===== src/Coordinator/Expiry/Ended.antt =====
-- The loop that ends the leases keeps the invariant.
use mathlib.Core.Path.{subst}
use radahn.Common.{
  ℤ, ltb_ℤ, ◌≡◌, refl, sym, ap, ◌∙◌, ◌⊎◌, inl, inr, true, false, none, some, arith, Bool-cases,
  Option-cases, ok,
}
use radahn.Common.Keyed
use radahn.Domain.Double.{Double, IsIeee}
use radahn.Domain.JobState.{JobState}
use radahn.Domain.WorkerRecord.Accounts.{release_iff}
use radahn.Persistence.JobRepository
use radahn.Persistence.JobRepository.{JobRecord, record_key}
use radahn.Persistence.JobRepository.Laws.{update_found}
use radahn.Persistence.WorkerRepository.{stored_key}
use radahn.Coordinator.State.{Coordinator, is_active_state}
use radahn.Coordinator.Loops.{Keeps, count_each_inv}
use radahn.Coordinator.Invariant.{Inv, IsSoundRecord, IsSoundWorker, queued_job}
use radahn.Coordinator.Invariant.Changes.{relabel_job-Inv, queue_stays}
use radahn.Coordinator.Invariant.Release.{HeldBy-assigned, release_job-Inv}
use radahn.Coordinator.Invariant.Current.{JobCurrent, Keeps-same, Keeps-replace}
use radahn.Coordinator.Expiry.{expired_state, expire, expire_lease, mark_expired_job_leases}
use radahn.Coordinator.Expiry.Expired.{ended, dropped, handed_back, unleased, Frees, expire_cases}

expired_idle : (s : JobState) → is_active_state (expired_state s) ≡ false
unfolding is_active_state
expired_idle s = ground arith

module _ {F : Type 0} where
  -- The body of the loop.
  pub expire_lease_cases :
      (now : ℤ) (r : JobRecord F) (c : Coordinator F) ⦃d : Double F⦄
      → JobCurrent c r
      → (expire_lease now r c ≡ (ok false, c))
        ⊎ ((is_active_state r.job.state ≡ false) × (expire_lease now r c ≡ (ok false, unleased r c))
            ⊎ (is_active_state r.job.state ≡ true) × (expire_lease now r c ≡ expire r c))
  unfolding expire_lease
  expire_lease_cases now r c held = elim (Option-cases r.lease_expires_at) [
    | inl never ↦ inl (ground arith)
    | inr (deadline, e) ↦ elim (Bool-cases (ltb_ℤ now deadline)) [
      | inl early ↦ inl (ground arith)
      | inr late ↦ elim (Bool-cases (is_active_state r.job.state)) [
        | inl active ↦ inr (inr (active, ground arith))
        | inr idle ↦ inr (
            inl (
              idle,
              ground (arith, update_found (record r { lease_expires_at = none }) c.jobs held),
            ))
      ]
    ]
  ]

module _ {F : Type 0} ⦃d : Double F⦄ where
  ended-IsSoundRecord : (r : JobRecord F) → IsSoundRecord r → IsSoundRecord (ended r)
  unfolding is_active_state
  ended-IsSoundRecord r s = ground (arith, s)

  unleased-IsSoundRecord :
      (r : JobRecord F)
      → is_active_state r.job.state ≡ false
      → IsSoundRecord r
      → IsSoundRecord (record r { lease_expires_at = none })
  unleased-IsSoundRecord r idle s = ground (arith, s)

  not_queued :
      (r : JobRecord F)
      → is_active_state r.job.state ≡ true
      → queued_job (some (ended r)) ≡ queued_job (some r)
  unfolding is_active_state
  not_queued r active = ground arith

  dropped-Inv :
      (r : JobRecord F) (c : Coordinator F)
      → Inv c
      → JobCurrent c r
      → is_active_state r.job.state ≡ true
      → Inv (dropped r c)
  dropped-Inv r c v held active =
      let sound = Keyed.All-find record_key IsSoundRecord _ c.jobs v.records_sound held in
      relabel_job-Inv c (ended r) r c.queue v held (ended-IsSoundRecord r sound) (λ w. ground arith)
        v.queue_unique (queue_stays c (ended r) r v held (not_queued r active))

  unleased-Inv :
      (r : JobRecord F) (c : Coordinator F)
      → Inv c
      → JobCurrent c r
      → is_active_state r.job.state ≡ false
      → Inv (unleased r c)
  unleased-Inv r c v held idle =
      let sound = Keyed.All-find record_key IsSoundRecord _ c.jobs v.records_sound held in
      relabel_job-Inv c (record r { lease_expires_at = none }) r c.queue v held
        (unleased-IsSoundRecord r idle sound) (λ w. ground arith) v.queue_unique
        (queue_stays c (record r { lease_expires_at = none }) r v held refl)

  module _ (ieee : IsIeee d) where
    handed_back-Inv :
        (r : JobRecord F) (c : Coordinator F)
        → Inv c
        → JobCurrent c r
        → is_active_state r.job.state ≡ true
        → (f : Frees c r) → Inv (handed_back f.freed f.stored_worker r c)
    handed_back-Inv r c v held active f =
        let s = f.stored_worker in
        let sound = Keyed.All-find record_key IsSoundRecord _ c.jobs v.records_sound held in
        let sound_w =
          Keyed.All-find stored_key IsSoundWorker _ c.workers v.workers_sound f.worker_found in
        let (holds, freed) =
          (release_iff r.job.requirements s.worker f.freed sound_w).0 f.release_ok in
        subst (λ w. Inv (handed_back w s r c)) (sym freed)
          (release_job-Inv ieee c (ended r) r s v
            (HeldBy-assigned c r s f.worker_id _ held f.worker_found f.job_assigned active) refl
            (ended-IsSoundRecord r sound) (expired_idle r.job.state) (not_queued r active) holds)

    pub expire_lease-Keeps :
        (now : ℤ) (r : JobRecord F) (c : Coordinator F)
        → Inv c
        → JobCurrent c r
        → Keeps record_key Inv JobCurrent r c (expire_lease now r c).1
    expire_lease-Keeps now r c v held = elim (expire_lease_cases now r c held) [
      | inl e ↦ Keeps-same r c _ v (ap (λ x. x.1) e)
      | inr (inl (idle, e)) ↦
          Keeps-replace (record r { lease_expires_at = none }) r c _ _ (ap (λ x. x.1) e)
            (unleased-Inv r c v held idle) refl refl
      | inr (inr (active, e)) ↦ elim (expire_cases r c v held) [
        | inl (x, t) ↦ Keeps-same r c _ v (ap (λ x. x.1) (e ∙ t))
        | inr (inl t) ↦
            Keeps-replace (ended r) r c _ _ (ap (λ x. x.1) (e ∙ t)) (dropped-Inv r c v held active)
              refl refl
        | inr (inr f) ↦
            Keeps-replace (ended r) r c _ _ (ap (λ x. x.1) (e ∙ f.result))
              (handed_back-Inv r c v held active f) refl refl
      ]
    ]

    pub mark_expired_job_leases-Inv :
        (now : ℤ) (c : Coordinator F) → Inv c → Inv (mark_expired_job_leases now c).1
    unfolding mark_expired_job_leases JobRepository.list
    mark_expired_job_leases-Inv now c v =
        count_each_inv record_key Inv JobCurrent (expire_lease now) (expire_lease-Keeps now) c.jobs
          0 c v v.jobs_unique (Keyed.All-find_self record_key c.jobs v.jobs_unique)
