-- ===== src/Persistence/WorkerRepository/Laws.antt =====
-- What each operation of the worker repository does to every lookup of a worker and a heartbeat.

use radahn.Common.{
  ℤ, ◌≡◌, some, ok, arith, str_eq, str_eq_iff, Option-cases, Bool-cases, inl, inr, if◌then◌else◌,
}
use radahn.Common.Keyed
use radahn.Domain.Id.{WorkerId}
use radahn.Domain.WorkerRecord.{WorkerRecord}
use radahn.Persistence.WorkerRepository.{
  StoredWorker, WorkerRepository, stored_key, update, get, record_heartbeat, last_heartbeat,
}

module _ {F : Type 0} where
  abbrev pub UniqueWorkers : WorkerRepository F → Type 0
  UniqueWorkers = Keyed.Unique stored_key

  pub update_inv :
      (w : WorkerRecord F) (records next : WorkerRepository F)
      → update w records ≡ ok next
      → (stored : StoredWorker F) × (Keyed.find stored_key w.id.value records ≡ some stored)
        × (next ≡ Keyed.replace stored_key (record stored { worker = w }) records)
  unfolding update
  update_inv w records next h = elim (Option-cases (Keyed.find stored_key w.id.value records)) [
    | inl e ↦ ground arith
    | inr (stored, e) ↦ (stored, e, ground arith)
  ]

  pub record_heartbeat_inv :
      (id : WorkerId) (time : ℤ) (records next : WorkerRepository F)
      → record_heartbeat id time records ≡ ok next
      → (stored : StoredWorker F) × (Keyed.find stored_key id.value records ≡ some stored)
        × (next ≡ Keyed.replace stored_key (record stored { last_heartbeat = time }) records)
  unfolding record_heartbeat
  record_heartbeat_inv id time records next h =
      elim (Option-cases (Keyed.find stored_key id.value records)) [
        | inl e ↦ ground arith
        | inr (stored, e) ↦ (stored, e, ground arith)
      ]

  -- What a replacement does to both lookups of an identifier.
  lookup-replace :
      (id : WorkerId) (s : StoredWorker F) (records : WorkerRepository F) (stored : StoredWorker F)
      → Keyed.find stored_key s.worker.id.value records ≡ some stored
      → Keyed.find stored_key id.value (Keyed.replace stored_key s records) ≡ (
          if str_eq s.worker.id.value id.value
          then some s
          else Keyed.find stored_key id.value records)
  lookup-replace id s records stored h = ground (
    arith,
    Keyed.find-replace stored_key id.value s records,
    Keyed.has-find stored_key id.value records,
    str_eq_iff s.worker.id.value id.value,
  )

  -- A successful update replaces the worker under its identifier and no other, and keeps every
  -- worker's last heartbeat.
  pub lookup-update :
      (id : WorkerId) (w : WorkerRecord F) (records next : WorkerRepository F)
      → update w records ≡ ok next
      → (get id next ≡ (if str_eq w.id.value id.value then some w else get id records))
        × (last_heartbeat id next ≡ last_heartbeat id records)
  unfolding get last_heartbeat
  lookup-update id w records next h =
      let (stored, found, e) = update_inv w records next h in
      rw (e, lookup-replace id (record stored { worker = w }) records stored found)
        (elim (Bool-cases (str_eq w.id.value id.value)) [
          | inl same ↦ ground (arith, str_eq_iff w.id.value id.value)
          | inr differ ↦ ground arith
        ])

  -- A successful `record_heartbeat` sets the time of this worker's last heartbeat and no other,
  -- and keeps the workers.
  pub lookup-record_heartbeat :
      (id beating : WorkerId) (time : ℤ) (records next : WorkerRepository F)
      → record_heartbeat beating time records ≡ ok next
      → (get id next ≡ get id records)
        × (last_heartbeat id next
            ≡ (if str_eq beating.value id.value then some time else last_heartbeat id records))
  unfolding get last_heartbeat
  lookup-record_heartbeat id beating time records next h =
      let (stored, found, e) = record_heartbeat_inv beating time records next h in
      let key = Keyed.key-find stored_key beating.value records found in
      rw
        (
          e,
          lookup-replace id (record stored { last_heartbeat = time }) records stored (rw key found),
          key,
        )
        (elim (Bool-cases (str_eq beating.value id.value)) [
          | inl same ↦ ground (arith, str_eq_iff beating.value id.value)
          | inr differ ↦ ground arith
        ])

  -- An update of a stored worker replaces it.
  pub update_found :
      (w : WorkerRecord F) (records : WorkerRepository F) {stored : StoredWorker F}
      → Keyed.find stored_key w.id.value records ≡ some stored
      → update w records ≡ ok (Keyed.replace stored_key (record stored { worker = w }) records)
  unfolding update
  update_found w records h = rw (h, update)
