-- ===== src/Coordinator/Recover/Workers.antt =====
-- Recovery's loop over the workers: all their resources become available.
use mathlib.Core.Path.{subst}
use radahn.Common.{
  ◌≡◌, refl, sym, ap, ◌∙◌, inl, inr, false, ◌||◌, some, arith, Bool-cases, ok, List, ◌∷◌, Str,
  str_eq, str_eq_comm, All, All-map, All-zip,
}
use radahn.Common.Keyed
use radahn.Domain.Double.{Double, IsIeee}
use radahn.Domain.Resource.Validity.{make_resources_iff}
use radahn.Domain.Worker.Validity.{make_snapshot_iff}
use radahn.Domain.WorkerRecord.{WorkerRecord, of_snapshot}
use radahn.Domain.WorkerRecord.Accounts.{IsValidWorker, view, resources_of, snapshot-eq}
use radahn.Persistence.WorkerRepository.{StoredWorker, stored_key}
use radahn.Persistence.WorkerRepository.Laws.{update_found}
use radahn.Coordinator.State.{Coordinator}
use radahn.Coordinator.Invariant.{IsSoundWorker}
use radahn.Coordinator.Invariant.Current.{WorkerCurrent, worker_key}
use radahn.Coordinator.Recover.{recover_worker}

module _ {F : Type 0} where
  abbrev pub idle : WorkerRecord F → WorkerRecord F
  idle w = record w {
    available_cpu_cores = w.total_cpu_cores;
    available_memory_bytes = w.total_memory_bytes;
    available_disk_bytes = w.total_disk_bytes;
    running_jobs = 0;
  }

  abbrev pub IsIdle : WorkerRecord F → Type 0
  IsIdle w =
      (w.running_jobs ≡ 0)
      × (w.available_cpu_cores ≡ w.total_cpu_cores)
      × (w.available_memory_bytes ≡ w.total_memory_bytes)
      × (w.available_disk_bytes ≡ w.total_disk_bytes)

  abbrev pub idle_stored : StoredWorker F → StoredWorker F
  idle_stored s = record s { worker = idle s.worker }

  abbrev pub with_idle : StoredWorker F → Coordinator F → Coordinator F
  with_idle s c = record c { workers = Keyed.replace stored_key (idle_stored s) c.workers }

  of_snapshot-idle : (w : WorkerRecord F) → of_snapshot (view (idle w)) ≡ idle w
  unfolding of_snapshot
  of_snapshot-idle w = refl

module _ {F : Type 0} ⦃d : Double F⦄ (ieee : IsIeee d) where
  pub idle-IsValidWorker : (w : WorkerRecord F) → IsValidWorker w → IsValidWorker (idle w)
  idle-IsValidWorker w v =
      ground (arith, v, ieee.lt_le w.total_cpu_cores d.zero, ieee.lt_irrefl w.total_cpu_cores)

  -- The loop's body does not throw.
  pub recover_worker-eq :
      (s : StoredWorker F) (c : Coordinator F)
      → IsSoundWorker s
      → Keyed.find stored_key (stored_key s) c.workers ≡ some s
      → recover_worker s.worker c ≡ (ok tt, with_idle s c)
  unfolding recover_worker
  recover_worker-eq s c v found =
      let after = idle-IsValidWorker s.worker v in
      ground (
        arith,
        snapshot-eq s.worker v,
        (make_resources_iff (resources_of (idle s.worker))).1 after.resources_valid,
        (make_snapshot_iff (view (idle s.worker))).1 after.snapshot_valid,
        of_snapshot-idle s.worker,
        update_found (idle s.worker) c.workers found,
      )

  -- How far the loop has come: `left` are the workers that it has not reached, in `start` it began.
  pub record Recovering (start : Coordinator F) (left : List (WorkerRecord F)) (c : Coordinator F)
      : Type 0 where
    pub rest : c ≡ record start { workers = c.workers }
    pub workers_unique : Keyed.Unique stored_key c.workers
    pub workers_sound : All IsSoundWorker c.workers
    pub left_unique : Keyed.Unique worker_key left
    pub left_stored : All (WorkerCurrent c) left
    pub reached_idle :
        (id : Str) (s : StoredWorker F)
        → Keyed.has worker_key id left ≡ false
        → Keyed.find stored_key id c.workers ≡ some s
        → IsIdle s.worker

  left_stored_after :
      (s : StoredWorker F) (left : List (WorkerRecord F)) (c : Coordinator F)
      → Keyed.has worker_key (stored_key s) left ≡ false
      → All (WorkerCurrent c) left
      → All (WorkerCurrent (with_idle s c)) left
  left_stored_after s left c new stored =
      All-map left
        (λ y q. (
          q.0.0,
          ground (
            arith,
            q.0.1,
            q.1,
            str_eq_comm (stored_key s) (worker_key y),
            Keyed.find-replace stored_key (worker_key y) (idle_stored s) c.workers,
          ),
          q.0.2,
        ))
        (All-zip (WorkerCurrent c) (λ y. str_eq (worker_key y) (stored_key s) ≡ false) left stored
          (Keyed.All-other worker_key (stored_key s) left new))

  reached_after :
      (s : StoredWorker F) (left : List (WorkerRecord F)) (c : Coordinator F)
      → ((id : Str) (t : StoredWorker F)
          → (str_eq (stored_key s) id || Keyed.has worker_key id left) ≡ false
          → Keyed.find stored_key id c.workers ≡ some t
          → IsIdle t.worker)
      → (id : Str) (t : StoredWorker F) → Keyed.has worker_key id left ≡ false
      → Keyed.find stored_key id (with_idle s c).workers ≡ some t
      → IsIdle t.worker
  reached_after s left c before id t out found = elim (Bool-cases (str_eq (stored_key s) id)) [
    | inl same ↦ ground (arith, Keyed.find-replace stored_key id (idle_stored s) c.workers)
    | inr other ↦
        before id t (ground arith)
          (ground (arith, Keyed.find-replace stored_key id (idle_stored s) c.workers))
  ]

  pub recover_worker-step :
      (start : Coordinator F) (w : WorkerRecord F) (left : List (WorkerRecord F))
      (c : Coordinator F)
      → Recovering start (w ∷ left) c
      → ((recover_worker w c).0 ≡ ok tt) × Recovering start left (recover_worker w c).1
  unfolding Keyed.has
  recover_worker-step start w left c p =
      let (s, found, same) = p.left_stored.0 in
      let self = Keyed.find-key stored_key (worker_key w) c.workers found in
      let sound = Keyed.All-find stored_key IsSoundWorker _ c.workers p.workers_sound found in
      let e = ap (λ x. recover_worker x c) (sym same) ∙ recover_worker-eq s c sound self in
      let key : stored_key s ≡ worker_key w = ap worker_key same in
      let new : Keyed.has worker_key (stored_key s) left ≡ false =
        ap (λ k. Keyed.has worker_key k left) key ∙ p.left_unique.0 in
      (
        ap (λ x. x.0) e,
        subst (Recovering start left) (ap (λ x. x.1) (sym e)) (record {
          rest = ap (λ (x : Coordinator F). record x { workers = (with_idle s c).workers }) p.rest;
          workers_unique =
              Keyed.replace-Unique stored_key (idle_stored s) c.workers p.workers_unique;
          workers_sound =
              Keyed.All-replace stored_key IsSoundWorker (idle_stored s) c.workers p.workers_sound
                (idle-IsValidWorker s.worker sound);
          left_unique = p.left_unique.1;
          left_stored = left_stored_after s left c new p.left_stored.1;
          reached_idle = reached_after s left c (λ id t out.
              p.reached_idle id t
                (ap (λ k. str_eq k id || Keyed.has worker_key id left) (sym key) ∙ out));
        }),
      )
