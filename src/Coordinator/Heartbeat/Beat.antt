-- ===== src/Coordinator/Heartbeat/Beat.antt =====
-- `record_worker_heartbeat`.
use mathlib.Core.Path.{subst}
use radahn.Common.{
  ℤ, ◌≡◌, refl, sym, ap, inl, inr, some, arith, Bool-cases, Option-cases, str_eq_refl,
  if◌then◌else◌,
}
use radahn.Common.Keyed
use radahn.Domain.Double.{Double}
use radahn.Domain.Id.{WorkerId}
use radahn.Domain.Worker.{online, offline, worker_state_eq}
use radahn.Domain.WorkerRecord.Accounts.{snapshot-eq}
use radahn.Persistence.JobRepository
use radahn.Persistence.WorkerRepository
use radahn.Persistence.WorkerRepository.{StoredWorker, stored_key}
use radahn.Coordinator.State.{Coordinator, for_each}
use radahn.Coordinator.Invariant.{Inv, IsSoundWorker}
use radahn.Coordinator.Invariant.Workers.{SameAccount-Inv}
use radahn.Coordinator.Heartbeat.{renew_lease, record_worker_heartbeat}
use radahn.Coordinator.Heartbeat.Renewed.{renew_leases-Inv}
use radahn.Coordinator.Heartbeat.Restated.{restated, in_state, store_as-eq, restated-Inv}

module _ {F : Type 0} where
  -- The worker is online from now on.
  abbrev pub awake : StoredWorker F → StoredWorker F
  awake s = if worker_state_eq s.worker.state offline then in_state online s else s

  abbrev pub beaten : ℤ → StoredWorker F → Coordinator F → Coordinator F
  beaten time s c = record c {
    workers = Keyed.replace stored_key (record s { last_heartbeat = time }) c.workers;
  }

module _ {F : Type 0} ⦃d : Double F⦄ where
  beaten-Inv :
      (time : ℤ) (s : StoredWorker F) (c : Coordinator F)
      → Inv c
      → Keyed.find stored_key (stored_key s) c.workers ≡ some s
      → Inv (beaten time s c)
  beaten-Inv time s c v found =
      SameAccount-Inv c (record s { last_heartbeat = time }) s v
        (Keyed.All-find stored_key IsSoundWorker _ c.workers v.workers_sound found)
        (record {
          same_running = refl;
          same_memory = refl;
          same_total_memory = refl;
          same_disk = refl;
          same_total_disk = refl;
        })
        found

  found_restated :
      (s : StoredWorker F) (c : Coordinator F)
      → Keyed.find stored_key (stored_key s) c.workers ≡ some s
      → Keyed.find stored_key (stored_key s) (restated online s c).workers
        ≡ some (in_state online s)
  found_restated s c found = ground (
    arith,
    Keyed.find-replace stored_key (stored_key s) (in_state online s) c.workers,
    Keyed.has-find stored_key (stored_key s) c.workers,
    str_eq_refl (stored_key s),
  )

  -- What the call has done before the loop: the worker is online, and its heartbeat is recorded.
  abbrev pub noted : ℤ → StoredWorker F → Coordinator F → Coordinator F
  noted time s c =
      if worker_state_eq s.worker.state offline
      then beaten time (in_state online s) (restated online s c)
      else beaten time s c

  pub noted-Inv :
      (time : ℤ) (s : StoredWorker F) (c : Coordinator F)
      → Inv c
      → Keyed.find stored_key (stored_key s) c.workers ≡ some s
      → Inv (noted time s c)
  noted-Inv time s c v found = elim (Bool-cases (worker_state_eq s.worker.state offline)) [
    | inl off ↦ rw off (
        beaten-Inv time (in_state online s) (restated online s c) (restated-Inv online s c v found)
          (found_restated s c found))
    | inr on ↦ rw on (beaten-Inv time s c v found)
  ]

  -- A heartbeat of an unknown worker throws and changes nothing. Any other sets the worker online
  -- if it was offline, records the time, and renews the leases.
  pub record_worker_heartbeat-noted :
      (worker_id : WorkerId) (time : ℤ) (s : StoredWorker F) (c : Coordinator F)
      → Inv c
      → Keyed.find stored_key worker_id.value c.workers ≡ some s
      → record_worker_heartbeat worker_id time c
        ≡ for_each (renew_lease worker_id time) (JobRepository.list c.jobs) (noted time s c)
  unfolding record_worker_heartbeat WorkerRepository.get WorkerRepository.record_heartbeat
  record_worker_heartbeat-noted worker_id time s c v found =
      let sound = Keyed.All-find stored_key IsSoundWorker _ c.workers v.workers_sound found in
      let key = Keyed.key-find stored_key worker_id.value c.workers found in
      let self = Keyed.find-key stored_key worker_id.value c.workers found in
      elim (Bool-cases (worker_state_eq s.worker.state offline)) [
        | inl off ↦ ground (
          arith,
          snapshot-eq s.worker sound,
          store_as-eq online s c sound self,
          found_restated s c self,
        )
        | inr on ↦ ground (arith, snapshot-eq s.worker sound)
      ]

  pub noted-jobs :
      (time : ℤ) (s : StoredWorker F) (c : Coordinator F) → (noted time s c).jobs ≡ c.jobs
  noted-jobs time s c = ground arith

  pub record_worker_heartbeat-Inv :
      (worker_id : WorkerId) (time : ℤ) (c : Coordinator F)
      → Inv c
      → Inv (record_worker_heartbeat worker_id time c).1
  unfolding record_worker_heartbeat WorkerRepository.get
  record_worker_heartbeat-Inv worker_id time c v =
      elim (Option-cases (Keyed.find stored_key worker_id.value c.workers)) [
        | inl e ↦ rw e v
        | inr (s, found) ↦
            let self = Keyed.find-key stored_key worker_id.value c.workers found in
            subst Inv
              (sym (ap (λ x. x.1) (record_worker_heartbeat-noted worker_id time s c v found)))
              (subst
                (λ js.
                  Inv
                    (for_each (renew_lease worker_id time) (JobRepository.list js)
                      (noted time s c)).1)
                (noted-jobs time s c)
                (renew_leases-Inv worker_id time (noted time s c) (noted-Inv time s c v self)))
      ]
