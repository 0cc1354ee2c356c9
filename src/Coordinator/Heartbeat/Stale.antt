-- ===== src/Coordinator/Heartbeat/Stale.antt =====
-- `mark_stale_workers_offline`.
use mathlib.Core.Path.{subst}
use radahn.Common.{
  ℤ, pos, ◌-ℤ◌, ltb_ℤ, leb_ℤ, ◌≡◌, refl, ap, ◌∙◌, inl, inr, Bool, true, false, ◌&&◌, not,
  if◌then◌else◌, some, arith, Bool-cases, ok,
}
use radahn.Common.Keyed
use radahn.Domain.Double.{Double}
use radahn.Domain.Worker.{online, offline, worker_state_eq}
use radahn.Domain.WorkerRecord.{WorkerRecord}
use radahn.Domain.WorkerRecord.Accounts.{snapshot-eq}
use radahn.Persistence.WorkerRepository
use radahn.Persistence.WorkerRepository.{WorkerRepository, StoredWorker, stored_key}
use radahn.Coordinator.State.{Coordinator}
use radahn.Coordinator.Loops.{Keeps, count_each_inv}
use radahn.Coordinator.Invariant.{Inv, IsSoundWorker}
use radahn.Coordinator.Invariant.Current.{
  Unique-list, All-list, WorkerCurrent, worker_key, Keeps-same_worker, Keeps-replace_worker,
}
use radahn.Coordinator.Heartbeat.{
  check_heartbeat, check_online, mark_stale, mark_stale_workers_offline,
}
use radahn.Coordinator.Heartbeat.Restated.{restated, in_state, store_as-eq, restated-Inv}

module _ {F : Type 0} where
  -- Online, with its last heartbeat the timeout ago or more.
  abbrev pub is_stale : ℤ → ℤ → StoredWorker F → Bool
  is_stale now timeout s =
      worker_state_eq s.worker.state online
      && (not (ltb_ℤ now s.last_heartbeat) && not (ltb_ℤ (now -ℤ s.last_heartbeat) timeout))

module _ {F : Type 0} ⦃d : Double F⦄ where
  -- A stale worker goes offline, any other stays. The loop's body does not throw.
  pub mark_stale-eq :
      (now timeout : ℤ) (s : StoredWorker F) (c : Coordinator F)
      → IsSoundWorker s
      → Keyed.find stored_key (stored_key s) c.workers ≡ some s
      → mark_stale now timeout s.worker c
        ≡ (if is_stale now timeout s then (ok true, restated offline s c) else (ok false, c))
  unfolding mark_stale check_heartbeat check_online WorkerRepository.last_heartbeat
  mark_stale-eq now timeout s c v found =
      ground (arith, snapshot-eq s.worker v, store_as-eq offline s c v found)

  mark_stale-Keeps :
      (now timeout : ℤ) (w : WorkerRecord F) (c : Coordinator F)
      → Inv c
      → WorkerCurrent c w
      → Keeps worker_key Inv WorkerCurrent w c (mark_stale now timeout w c).1
  mark_stale-Keeps now timeout w c v (s, found, same) =
      subst (λ x. Keeps worker_key Inv WorkerCurrent x c (mark_stale now timeout x c).1) same
        (let self = Keyed.find-key stored_key (worker_key w) c.workers found in
          let sound = Keyed.All-find stored_key IsSoundWorker _ c.workers v.workers_sound found in
          let e = mark_stale-eq now timeout s c sound self in
          elim (Bool-cases (is_stale now timeout s)) [
            | inr fresh ↦ Keeps-same_worker s.worker c _ v (ap (λ x. x.1) (rw fresh at e))
            | inl stale ↦
                Keeps-replace_worker (in_state offline s) s.worker c _ _
                  (ap (λ x. x.1) (rw stale at e)) (restated-Inv offline s c v self) refl refl
          ])

  mark_stale-jobs :
      (now timeout : ℤ) (w : WorkerRecord F) (c : Coordinator F)
      → Inv c
      → WorkerCurrent c w
      → (mark_stale now timeout w c).1.jobs ≡ c.jobs
  mark_stale-jobs now timeout w c v (s, found, same) =
      subst (λ x. (mark_stale now timeout x c).1.jobs ≡ c.jobs) same
        (let self = Keyed.find-key stored_key (worker_key w) c.workers found in
          let sound = Keyed.All-find stored_key IsSoundWorker _ c.workers v.workers_sound found in
          ground (arith, mark_stale-eq now timeout s c sound self))

  pub mark_stale_workers_offline-Inv :
      (now timeout : ℤ) (c : Coordinator F)
      → Inv c
      → Inv (mark_stale_workers_offline now timeout c).1
  unfolding mark_stale_workers_offline
  mark_stale_workers_offline-Inv now timeout c v = elim (Bool-cases (leb_ℤ timeout (pos 0))) [
    | inl bad ↦ rw bad v
    | inr good ↦ rw good (
        count_each_inv worker_key Inv WorkerCurrent (mark_stale now timeout)
          (mark_stale-Keeps now timeout) (WorkerRepository.list c.workers) 0 c v
          (Unique-list c.workers v.workers_unique)
          (All-list c c.workers (Keyed.All-find_self stored_key c.workers v.workers_unique)))
  ]

  -- The call leaves the jobs alone.
  pub mark_stale_workers_offline-jobs :
      (now timeout : ℤ) (c : Coordinator F)
      → Inv c
      → (mark_stale_workers_offline now timeout c).1.jobs ≡ c.jobs
  unfolding mark_stale_workers_offline
  mark_stale_workers_offline-jobs now timeout c v = elim (Bool-cases (leb_ℤ timeout (pos 0))) [
    | inl bad ↦ rw bad refl
    | inr good ↦ rw good (
        (count_each_inv worker_key (λ x. Inv x × (x.jobs ≡ c.jobs)) WorkerCurrent
          (mark_stale now timeout)
          (λ w x p held.
            let k = mark_stale-Keeps now timeout w x p.0 held in
            ((k.0, mark_stale-jobs now timeout w x p.0 held ∙ p.1), k.1))
          (WorkerRepository.list c.workers) 0 c (v, refl) (Unique-list c.workers v.workers_unique)
          (All-list c c.workers (Keyed.All-find_self stored_key c.workers v.workers_unique))).1)
  ]
