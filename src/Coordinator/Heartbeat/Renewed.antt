-- ===== src/Coordinator/Heartbeat/Renewed.antt =====
-- The loop that renews the leases of a worker's jobs.
use radahn.Common.{ℤ, ◌+ℤ◌, ◌≡◌, refl, ◌⊎◌, inl, inr, true, some, arith, Bool-cases}
use radahn.Common.Keyed
use radahn.Domain.Double.{Double}
use radahn.Domain.Id.{WorkerId}
use radahn.Persistence.JobRepository.{JobRecord, record_key}
use radahn.Persistence.JobRepository
use radahn.Persistence.JobRepository.Laws.{update_found}
use radahn.Coordinator.State.{Coordinator, is_active_state, for_each}
use radahn.Coordinator.Loops.{Keeps, for_each_inv}
use radahn.Coordinator.Invariant.{Inv, IsSoundRecord}
use radahn.Coordinator.Invariant.Changes.{relabel_job-Inv, queue_stays}
use radahn.Coordinator.Invariant.Current.{JobCurrent, Keeps-same, Keeps-replace}
use radahn.Coordinator.Heartbeat.{renew_lease, is_assigned}

module _ {F : Type 0} where
  abbrev pub renewed : ℤ → JobRecord F → JobRecord F
  renewed deadline r = record r { lease_expires_at = some deadline }

  -- The body changes nothing, or renews the lease of an active job of this worker.
  pub renew_lease_cases :
      (worker_id : WorkerId) (now : ℤ) (r : JobRecord F) (c : Coordinator F)
      → JobCurrent c r
      → ((renew_lease worker_id now r c).1 ≡ c)
        ⊎ (is_active_state r.job.state ≡ true)
          × (is_assigned r.assigned_worker_id worker_id ≡ true)
          × ((renew_lease worker_id now r c).1 ≡ record c {
            jobs = Keyed.replace record_key (renewed (now +ℤ c.lease_duration) r) c.jobs;
          })
  unfolding renew_lease
  renew_lease_cases worker_id now r c held =
      elim (Bool-cases (is_assigned r.assigned_worker_id worker_id)) [
        | inr other ↦ inl (ground arith)
        | inl mine ↦ elim (Bool-cases (is_active_state r.job.state)) [
          | inr idle ↦ inl (ground arith)
          | inl active ↦ inr (
            active,
            mine,
            ground (arith, update_found (renewed (now +ℤ c.lease_duration) r) c.jobs held),
          )
        ]
      ]

module _ {F : Type 0} ⦃d : Double F⦄ where
  renewed-IsSoundRecord :
      (deadline : ℤ) (r : JobRecord F)
      → is_active_state r.job.state ≡ true
      → IsSoundRecord r
      → IsSoundRecord (renewed deadline r)
  unfolding is_active_state
  renewed-IsSoundRecord deadline r active s = ground (arith, s)

  renewed-Inv :
      (deadline : ℤ) (r : JobRecord F) (c : Coordinator F)
      → Inv c
      → JobCurrent c r
      → is_active_state r.job.state ≡ true
      → Inv (record c { jobs = Keyed.replace record_key (renewed deadline r) c.jobs })
  renewed-Inv deadline r c v held active =
      let sound = Keyed.All-find record_key IsSoundRecord _ c.jobs v.records_sound held in
      relabel_job-Inv c (renewed deadline r) r c.queue v held
        (renewed-IsSoundRecord deadline r active sound) (λ w. ground arith) v.queue_unique
        (queue_stays c (renewed deadline r) r v held refl)

  pub renew_lease-Keeps :
      (worker_id : WorkerId) (now : ℤ) (r : JobRecord F) (c : Coordinator F)
      → Inv c
      → JobCurrent c r
      → Keeps record_key Inv JobCurrent r c (renew_lease worker_id now r c).1
  renew_lease-Keeps worker_id now r c v held = elim (renew_lease_cases worker_id now r c held) [
    | inl same ↦ Keeps-same r c _ v same
    | inr (active, mine, p) ↦
        let deadline = now +ℤ c.lease_duration in
        Keeps-replace (renewed deadline r) r c _ _ p (renewed-Inv deadline r c v held active) refl
          refl
  ]

  pub renew_leases-Inv :
      (worker_id : WorkerId) (now : ℤ) (c : Coordinator F)
      → Inv c
      → Inv (for_each (renew_lease worker_id now) (JobRepository.list c.jobs) c).1
  unfolding JobRepository.list
  renew_leases-Inv worker_id now c v =
      for_each_inv record_key Inv JobCurrent (renew_lease worker_id now)
        (renew_lease-Keeps worker_id now) c.jobs c v v.jobs_unique
        (Keyed.All-find_self record_key c.jobs v.jobs_unique)
