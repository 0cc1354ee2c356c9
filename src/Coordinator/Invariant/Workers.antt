-- ===== src/Coordinator/Invariant/Workers.antt =====
-- A stored worker is replaced by one with the same accounts.
use mathlib.Core.Path.{subst}
use radahn.Common.{
  ◌≡◌, sym, ap, ◌∙◌, inl, inr, some, arith, Str, str_eq, str_eq_sound, str_eq_iff, if◌then◌else◌,
  Bool-cases,
}
use radahn.Common.Keyed
use radahn.Domain.Double.{Double}
use radahn.Persistence.WorkerRepository.{StoredWorker, stored_key}
use radahn.Coordinator.State.{Coordinator}
use radahn.Coordinator.Invariant.{Inv, IsSoundWorker, Account}

module _ {F : Type 0} where
  -- Their accounts of memory, disk and slots agree.
  pub record SameAccount (a b : StoredWorker F) : Type 0 where
    pub same_running : a.worker.running_jobs ≡ b.worker.running_jobs
    pub same_memory : a.worker.available_memory_bytes ≡ b.worker.available_memory_bytes
    pub same_total_memory : a.worker.total_memory_bytes ≡ b.worker.total_memory_bytes
    pub same_disk : a.worker.available_disk_bytes ≡ b.worker.available_disk_bytes
    pub same_total_disk : a.worker.total_disk_bytes ≡ b.worker.total_disk_bytes

module _ {F : Type 0} ⦃d : Double F⦄ where
  Account-move :
      (id : Str) (s stored : StoredWorker F) (c : Coordinator F)
      → SameAccount s stored
      → Account id (some stored) c.jobs
      → Account id (some s) c.jobs
  Account-move id s stored c same a = ground (arith, same)

  found_after :
      (id : Str) (c : Coordinator F) (s stored : StoredWorker F)
      → Keyed.find stored_key (stored_key s) c.workers ≡ some stored
      → Keyed.find stored_key id (Keyed.replace stored_key s c.workers)
        ≡ (if str_eq (stored_key s) id then some s else Keyed.find stored_key id c.workers)
  found_after id c s stored found = ground (
    arith,
    Keyed.find-replace stored_key id s c.workers,
    Keyed.has-find stored_key id c.workers,
    str_eq_iff (stored_key s) id,
  )

  Account-same :
      (c : Coordinator F) (s stored : StoredWorker F)
      → Inv c
      → SameAccount s stored
      → Keyed.find stored_key (stored_key s) c.workers ≡ some stored
      → (id : Str)
      → Account id (Keyed.find stored_key id (Keyed.replace stored_key s c.workers)) c.jobs
  Account-same c s stored v same found id =
      subst (λ o. Account id o c.jobs) (sym (found_after id c s stored found))
        (elim (Bool-cases (str_eq (stored_key s) id)) [
          | inl e ↦ rw e (
              Account-move id s stored c same (
                subst (λ o. Account id o c.jobs)
                  (ap (λ k. Keyed.find stored_key k c.workers) (sym (str_eq_sound _ id e)) ∙ found)
                  (v.accounts id)))
          | inr e ↦ rw e (v.accounts id)
        ])

  pub SameAccount-Inv :
      (c : Coordinator F) (s stored : StoredWorker F)
      → Inv c
      → IsSoundWorker s
      → SameAccount s stored
      → Keyed.find stored_key (stored_key s) c.workers ≡ some stored
      → Inv (record c { workers = Keyed.replace stored_key s c.workers })
  SameAccount-Inv c s stored v sound same found = record {
    jobs_unique = v.jobs_unique;
    workers_unique = Keyed.replace-Unique stored_key s c.workers v.workers_unique;
    queue_unique = v.queue_unique;
    records_sound = v.records_sound;
    workers_sound = Keyed.All-replace stored_key IsSoundWorker s c.workers v.workers_sound sound;
    queue_view = v.queue_view;
    accounts = Account-same c s stored v same found;
  }
