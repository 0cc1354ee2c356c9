-- ===== src/Coordinator/Heartbeat/Leases.antt =====
-- What `record_worker_heartbeat` makes of the stored jobs and workers.
use radahn.Common.{
  ℤ, ◌+ℤ◌, ◌≡◌, refl, ap, ◌∙◌, inl, inr, ◌&&◌, some, [], map, ok, arith, if◌then◌else◌, Bool-cases,
}
use radahn.Common.Keyed
use radahn.Domain.Double.{Double}
use radahn.Domain.Id.{WorkerId}
use radahn.Persistence.JobRepository
use radahn.Persistence.JobRepository.{JobRecord, record_key}
use radahn.Persistence.WorkerRepository.{StoredWorker, stored_key}
use radahn.Persistence.JobRepository.Laws.{update_found}
use radahn.Coordinator.State.{Coordinator, is_active_state}
use radahn.Coordinator.Loops.Mapped.{Turns, for_each-map}
use radahn.Coordinator.Invariant.{Inv}
use radahn.Coordinator.Heartbeat.{is_assigned, renew_lease, record_worker_heartbeat}
use radahn.Domain.Worker.{online, offline, worker_state_eq}
use radahn.Coordinator.Heartbeat.Restated.{in_state}
use radahn.Coordinator.Heartbeat.Renewed.{renewed, renew_lease-Keeps}
use radahn.Coordinator.Heartbeat.Beat.{
  awake, noted, noted-Inv, noted-jobs, record_worker_heartbeat-noted,
}

module _ {F : Type 0} where
  -- The lease of an active job of this worker runs until the deadline.
  abbrev pub renewed_of : WorkerId → ℤ → JobRecord F → JobRecord F
  renewed_of worker_id deadline r =
      if is_assigned r.assigned_worker_id worker_id && is_active_state r.job.state
      then renewed deadline r
      else r

  key-renewed_of :
      (worker_id : WorkerId) (deadline : ℤ) (r : JobRecord F)
      → record_key (renewed_of worker_id deadline r) ≡ record_key r
  key-renewed_of worker_id deadline r = ground arith

module _ {F : Type 0} ⦃d : Double F⦄ where
  noted-workers :
      (time : ℤ) (s : StoredWorker F) (c : Coordinator F)
      → (noted time s c).workers
        ≡ Keyed.replace stored_key (record (awake s) { last_heartbeat = time }) c.workers
  noted-workers time s c = elim (Bool-cases (worker_state_eq s.worker.state offline)) [
    | inl off ↦ rw off (
        Keyed.replace-replace stored_key (record (in_state online s) { last_heartbeat = time })
          (in_state online s) c.workers refl)
    | inr on ↦ rw on refl
  ]

  noted-duration :
      (time : ℤ) (s : StoredWorker F) (c : Coordinator F)
      → (noted time s c).lease_duration ≡ c.lease_duration
  noted-duration time s c = ground arith

  renew_lease-eq :
      (worker_id : WorkerId) (now : ℤ) (r : JobRecord F) (c : Coordinator F)
      → Keyed.find record_key (record_key r) c.jobs ≡ some r
      → renew_lease worker_id now r c ≡ (
        ok tt,
        record c {
          jobs = Keyed.replace record_key (renewed_of worker_id (now +ℤ c.lease_duration) r) c.jobs;
        },
      )
  unfolding renew_lease JobRepository.list
  renew_lease-eq worker_id now r c held = ground (
    arith,
    update_found (renewed (now +ℤ c.lease_duration) r) c.jobs held,
    Keyed.replace_self record_key r c.jobs held,
  )

  -- What the loop leaves alone.
  record Renewing (start c : Coordinator F) : Type 0 where
    invariant : Inv c
    same_workers : c.workers ≡ start.workers
    same_duration : c.lease_duration ≡ start.lease_duration

  renew_lease-Turns :
      (start : Coordinator F) (worker_id : WorkerId) (now : ℤ) (r : JobRecord F) (c : Coordinator F)
      → Renewing start c
      → Keyed.find record_key (record_key r) c.jobs ≡ some r
      → ((renew_lease worker_id now r c).0 ≡ ok tt)
        × Turns record_key
            (λ (x : Coordinator F). x.jobs)
            (Renewing start)
            (renewed_of worker_id (now +ℤ start.lease_duration))
            (key-renewed_of worker_id _)
            (renew_lease worker_id now r c).1
            c
            r
  renew_lease-Turns start worker_id now r c p held =
      let e = renew_lease-eq worker_id now r c held in
      (
        ap (λ x. x.0) e,
        record {
          kept = record {
            invariant = (renew_lease-Keeps worker_id now r c p.invariant held).0;
            same_workers = ap (λ x. x.1.workers) e ∙ p.same_workers;
            same_duration = ap (λ x. x.1.lease_duration) e ∙ p.same_duration;
          };
          stored =
              ap (λ x. x.1.jobs) e
              ∙ ap (λ t. Keyed.replace record_key (renewed_of worker_id (now +ℤ t) r) c.jobs)
                  p.same_duration;
        },
      )

  -- In a coordinator that satisfies the invariant, `record_worker_heartbeat` of a stored worker
  -- returns, it sets the worker online if it was offline and records the time, and it lets the
  -- leases of exactly the active jobs of this worker run until the time plus the lease duration.
  pub record_worker_heartbeat_lem :
      (worker_id : WorkerId) (time : ℤ) (c : Coordinator F) {s : StoredWorker F}
      → Inv c
      → Keyed.find stored_key worker_id.value c.workers ≡ some s
      → ((record_worker_heartbeat worker_id time c).0 ≡ ok tt)
        × ((record_worker_heartbeat worker_id time c).1.workers
            ≡ Keyed.replace stored_key (record (awake s) { last_heartbeat = time }) c.workers)
        × ((record_worker_heartbeat worker_id time c).1.jobs
            ≡ map (renewed_of worker_id (time +ℤ c.lease_duration)) c.jobs)
  unfolding JobRepository.list
  record_worker_heartbeat_lem worker_id time c {s} v found =
      let self = Keyed.find-key stored_key worker_id.value c.workers found in
      let start = noted time s c in
      let same = noted-jobs time s c in
      let v' = noted-Inv time s c v self in
      let (returned, kept, stored) =
        for_each-map record_key (λ (x : Coordinator F). x.jobs) (Renewing start)
          (renewed_of worker_id (time +ℤ start.lease_duration)) (key-renewed_of worker_id _)
          (renew_lease worker_id time) (renew_lease-Turns start worker_id time) [] c.jobs start
          (record { invariant = v'; same_workers = refl; same_duration = refl }) same
          v.jobs_unique in
      let e = record_worker_heartbeat-noted worker_id time s c v found in
      (
        ap (λ x. x.0) e ∙ returned,
        ap (λ x. x.1.workers) e ∙ kept.same_workers ∙ noted-workers time s c,
        ap (λ x. x.1.jobs) e
            ∙ stored
            ∙ ap (λ t. map (renewed_of worker_id (time +ℤ t)) c.jobs) (noted-duration time s c),
      )
