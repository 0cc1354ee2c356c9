-- ===== src/Persistence/JobRepository/Laws.antt =====
-- What each operation of the job repository does to every lookup.
use mathlib.Core.Path.{subst}
use radahn.Common.{
  ◌≡◌, sym, ◌++◌, false, none, some, is_some, [], ◌∷◌, ok, err, arith, str_eq, str_eq_iff,
  if◌then◌else◌,
}
use radahn.Common.Keyed
use radahn.Domain.Id.{JobId}
use radahn.Domain.Error.{update_unknown_job}
use radahn.Persistence.JobRepository.{
  JobRecord, JobRepository, record_key, contains, insert, update, get, erase,
}

module _ {F : Type 0} where
  abbrev pub UniqueJobs : JobRepository F → Type 0
  UniqueJobs = Keyed.Unique record_key

  pub contains-get :
      (id : JobId) (records : JobRepository F) → contains id records ≡ is_some (get id records)
  unfolding contains get
  contains-get id records = Keyed.has-find record_key id.value records

  -- After a successful insertion, `get` finds the record under its identifier, and what it found
  -- before under any other.
  pub get-insert :
      (id : JobId) (r : JobRecord F) (records next : JobRepository F)
      → insert r records ≡ ok next
      → get id next ≡ (if str_eq r.job.id.value id.value then some r else get id records)
  unfolding get insert
  get-insert id r records next h = ground (
    arith,
    Keyed.find-append record_key id.value records r,
    Keyed.has-find record_key id.value records,
    Keyed.has-find record_key r.job.id.value records,
    str_eq_iff r.job.id.value id.value,
  )

  -- After a successful update, `get` finds the record under its identifier, and what it found
  -- before under any other.
  pub get-update :
      (id : JobId) (r : JobRecord F) (records next : JobRepository F)
      → update r records ≡ ok next
      → get id next ≡ (if str_eq r.job.id.value id.value then some r else get id records)
  unfolding get update
  get-update id r records next h = ground (
    arith,
    Keyed.find-replace record_key id.value r records,
    Keyed.has-find record_key id.value records,
    str_eq_iff r.job.id.value id.value,
  )

  -- In a repository with distinct identifiers, after a successful `erase`, `get` finds nothing
  -- under the identifier, and what it found before under any other.
  pub get-erase :
      (id erased : JobId) (records next : JobRepository F)
      → UniqueJobs records
      → erase erased records ≡ ok next
      → get id next ≡ (if str_eq erased.value id.value then none else get id records)
  unfolding get erase
  get-erase id erased records next u h =
      ground (arith, Keyed.find-erase record_key erased.value id.value records u)

  -- An update is refused exactly of a job that is not stored.
  pub update_unknown :
      (r : JobRecord F) (records : JobRepository F)
      → contains r.job.id records ≡ false
      → update r records ≡ err update_unknown_job
  unfolding update contains
  update_unknown r records h = ground (arith, Keyed.has-find record_key r.job.id.value records)

  pub insert_inv :
      (r : JobRecord F) (records next : JobRepository F)
      → insert r records ≡ ok next
      → (Keyed.has record_key r.job.id.value records ≡ false) × (next ≡ records ++ r ∷ [])
  unfolding insert contains
  insert_inv r records next h = ground arith

  pub update_inv :
      (r : JobRecord F) (records next : JobRepository F)
      → update r records ≡ ok next
      → next ≡ Keyed.replace record_key r records
  unfolding update
  update_inv r records next h = ground arith

  pub erase_inv :
      (id : JobId) (records next : JobRepository F)
      → erase id records ≡ ok next
      → next ≡ Keyed.erase record_key id.value records
  unfolding erase
  erase_inv id records next h = ground arith

  pub insert-UniqueJobs :
      (r : JobRecord F) (records next : JobRepository F)
      → UniqueJobs records
      → insert r records ≡ ok next
      → UniqueJobs next
  insert-UniqueJobs r records next u h =
      let (fresh, e) = insert_inv r records next h in
      subst UniqueJobs (sym e) (Keyed.append-Unique record_key r records u fresh)

  pub update-UniqueJobs :
      (r : JobRecord F) (records next : JobRepository F)
      → UniqueJobs records
      → update r records ≡ ok next
      → UniqueJobs next
  update-UniqueJobs r records next u h =
      subst UniqueJobs (sym (update_inv r records next h))
        (Keyed.replace-Unique record_key r records u)

  pub erase-UniqueJobs :
      (id : JobId) (records next : JobRepository F)
      → UniqueJobs records
      → erase id records ≡ ok next
      → UniqueJobs next
  erase-UniqueJobs id records next u h =
      subst UniqueJobs (sym (erase_inv id records next h))
        (Keyed.erase-Unique record_key id.value records u)

  -- An update of a stored job replaces its record.
  pub update_found :
      (r : JobRecord F) (records : JobRepository F) {old : JobRecord F}
      → Keyed.find record_key (record_key r) records ≡ some old
      → update r records ≡ ok (Keyed.replace record_key r records)
  unfolding update
  update_found r records h = rw (h, update)
