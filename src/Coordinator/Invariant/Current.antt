-- ===== src/Coordinator/Invariant/Current.antt =====
-- What a loop over the stored jobs or workers leaves as it was.
use mathlib.Core.Path.{subst}
use radahn.Common.{[], ◌∷◌, ◌≡◌, refl, sym, ◌∙◌, false, some, arith, Str, str_eq, All}
use radahn.Common.Keyed
use radahn.Domain.Double.{Double}
use radahn.Domain.WorkerRecord.{WorkerRecord}
use radahn.Persistence.JobRepository.{JobRecord, JobRepository, record_key}
use radahn.Persistence.WorkerRepository
use radahn.Persistence.WorkerRepository.{StoredWorker, WorkerRepository, stored_key}
use radahn.Coordinator.State.{Coordinator}
use radahn.Coordinator.Loops.{Keeps}
use radahn.Coordinator.Invariant.{Inv}

module _ {F : Type 0} where
  -- The repository holds this record.
  abbrev pub JobCurrent : Coordinator F → JobRecord F → Type 0
  JobCurrent c r = Keyed.find record_key (record_key r) c.jobs ≡ some r

  abbrev pub worker_key : WorkerRecord F → Str
  worker_key w = w.id.value

  -- The repository holds this worker.
  abbrev pub WorkerCurrent : Coordinator F → WorkerRecord F → Type 0
  WorkerCurrent c w =
      (s : StoredWorker F) × (Keyed.find stored_key (worker_key w) c.workers ≡ some s)
      × (s.worker ≡ w)

  job_elsewhere :
      (r old y : JobRecord F) (jobs : JobRepository F)
      → record_key r ≡ record_key old
      → str_eq (record_key old) (record_key y) ≡ false
      → Keyed.find record_key (record_key y) jobs ≡ some y
      → Keyed.find record_key (record_key y) (Keyed.replace record_key r jobs) ≡ some y
  job_elsewhere r old y jobs same other found =
      ground (arith, Keyed.find-replace record_key (record_key y) r jobs)

  worker_elsewhere :
      (s : StoredWorker F) (old : WorkerRecord F) (k : Str) (workers : WorkerRepository F)
      → stored_key s ≡ worker_key old
      → str_eq (worker_key old) k ≡ false
      → Keyed.find stored_key k (Keyed.replace stored_key s workers)
        ≡ Keyed.find stored_key k workers
  worker_elsewhere s old k workers same other =
      ground (arith, Keyed.find-replace stored_key k s workers)

  pub has-list :
      (k : Str) (ws : WorkerRepository F)
      → Keyed.has worker_key k (WorkerRepository.list ws) ≡ Keyed.has stored_key k ws
  unfolding WorkerRepository.list Keyed.has
  has-list k [] = refl
  has-list k (s ∷ ws) = ground (arith, has-list k ws)

  pub Unique-list :
      (ws : WorkerRepository F)
      → Keyed.Unique stored_key ws
      → Keyed.Unique worker_key (WorkerRepository.list ws)
  unfolding WorkerRepository.list
  Unique-list [] u = tt
  Unique-list (s ∷ ws) u = (has-list (stored_key s) ws ∙ u.0, Unique-list ws u.1)

  pub All-list :
      (c : Coordinator F) (ws : WorkerRepository F)
      → All (λ s. Keyed.find stored_key (stored_key s) c.workers ≡ some s) ws
      → All (WorkerCurrent c) (WorkerRepository.list ws)
  unfolding WorkerRepository.list
  All-list c [] a = tt
  All-list c (s ∷ ws) a = ((s, a.0, refl), All-list c ws a.1)

module _ {F : Type 0} ⦃d : Double F⦄ where
  -- The body of a loop over the jobs changes nothing, or only the record that it is at.
  pub Keeps-same :
      (r : JobRecord F) (c next : Coordinator F)
      → Inv c
      → next ≡ c
      → Keeps record_key Inv JobCurrent r c next
  Keeps-same r c next v same =
      (subst Inv (sym same) v, λ y other now. subst (λ c'. JobCurrent c' y) (sym same) now)

  pub Keeps-replace :
      (r old : JobRecord F) (c result next : Coordinator F)
      → result ≡ next
      → Inv next
      → record_key r ≡ record_key old
      → next.jobs ≡ Keyed.replace record_key r c.jobs
      → Keeps record_key Inv JobCurrent old c result
  Keeps-replace r old c result next e v same jobs = (
    subst Inv (sym e) v,
    λ y other now.
        subst (λ c'. JobCurrent c' y) (sym e)
          (subst (λ js. Keyed.find record_key (record_key y) js ≡ some y) (sym jobs)
            (job_elsewhere r old y c.jobs same other now)),
  )

  pub Keeps-same_worker :
      (w : WorkerRecord F) (c next : Coordinator F)
      → Inv c
      → next ≡ c
      → Keeps worker_key Inv WorkerCurrent w c next
  Keeps-same_worker w c next v same =
      (subst Inv (sym same) v, λ y other now. subst (λ c'. WorkerCurrent c' y) (sym same) now)

  pub Keeps-replace_worker :
      (s : StoredWorker F) (old : WorkerRecord F) (c result next : Coordinator F)
      → result ≡ next
      → Inv next
      → stored_key s ≡ worker_key old
      → next.workers ≡ Keyed.replace stored_key s c.workers
      → Keeps worker_key Inv WorkerCurrent old c result
  Keeps-replace_worker s old c result next e v same workers = (
    subst Inv (sym e) v,
    λ y other now.
        subst (λ c'. WorkerCurrent c' y) (sym e)
          (
            now.0,
            subst (λ ws. Keyed.find stored_key (worker_key y) ws ≡ some now.0) (sym workers)
                (worker_elsewhere s old (worker_key y) c.workers same other ∙ now.1),
            now.2,
          ),
  )
