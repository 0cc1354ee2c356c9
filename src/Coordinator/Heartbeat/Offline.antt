-- ===== src/Coordinator/Heartbeat/Offline.antt =====
-- What `mark_stale_workers_offline` makes of the stored workers.
use mathlib.Core.Path.{subst}
use radahn.Common.{
  ℤ, pos, leb_ℤ, ◌≡◌, refl, sym, ap, ◌∙◌, inl, inr, Bool, false, List, [], ◌∷◌, map, ℕ, ok, arith,
  if◌then◌else◌, Bool-cases, Result-cases, some, suc,
}
use radahn.Common.Keyed
use radahn.Domain.Double.{Double}
use radahn.Domain.Worker.{offline}
use radahn.Persistence.WorkerRepository
use radahn.Persistence.WorkerRepository.{StoredWorker, stored_key}
use radahn.Coordinator.State.{Coordinator, M, count_each}
use radahn.Coordinator.Loops.Mapped.{count, Turns, count_each-map}
use radahn.Coordinator.Invariant.{Inv, IsSoundWorker}
use radahn.Coordinator.Heartbeat.{mark_stale, mark_stale_workers_offline}
use radahn.Coordinator.Heartbeat.Restated.{in_state, restated-Inv}
use radahn.Coordinator.Heartbeat.Stale.{is_stale, mark_stale-eq, mark_stale_workers_offline-jobs}

module _ {F : Type 0} where
  abbrev pub set_offline : ℤ → ℤ → StoredWorker F → StoredWorker F
  set_offline now timeout s = if is_stale now timeout s then in_state offline s else s

  key-set_offline :
      (now timeout : ℤ) (s : StoredWorker F) → stored_key (set_offline now timeout s) ≡ stored_key s
  key-set_offline now timeout s = ground arith

  count_each-over :
      {A B : Type 0} (of : A → B) (body : B → M F Bool) (xs : List A) (n : ℕ) (c : Coordinator F)
      → count_each body (map of xs) n c ≡ count_each (λ x. body (of x)) xs n c
  unfolding count_each
  count_each-over of body [] n c = refl
  count_each-over of body (x ∷ xs) n c = elim (Result-cases (body (of x) c).0) [
    | inr (e, thrown) ↦ rw (thrown, count_each) refl
    | inl (b, returned) ↦
        rw (returned, count_each)
          (count_each-over of body xs (if b then suc n else n) (body (of x) c).1)
  ]

module _ {F : Type 0} ⦃d : Double F⦄ where
  mark_stale-Turns :
      (now timeout : ℤ) (s : StoredWorker F) (c : Coordinator F)
      → Inv c
      → Keyed.find stored_key (stored_key s) c.workers ≡ some s
      → ((mark_stale now timeout s.worker c).0 ≡ ok (is_stale now timeout s))
        × Turns stored_key
            (λ (x : Coordinator F). x.workers)
            Inv
            (set_offline now timeout)
            (key-set_offline now timeout)
            (mark_stale now timeout s.worker c).1
            c
            s
  mark_stale-Turns now timeout s c v held =
      let sound = Keyed.All-find stored_key IsSoundWorker _ c.workers v.workers_sound held in
      let e = mark_stale-eq now timeout s c sound held in
      elim (Bool-cases (is_stale now timeout s)) [
        | inl stale ↦ (
          ap (λ x. x.0) e ∙ ground arith,
          record {
            kept =
                (subst Inv (sym (ap (λ x. x.1) (rw stale at e))) (restated-Inv offline s c v held));
            stored = ground (arith, e);
          },
        )
        | inr fresh ↦ (
          ap (λ x. x.0) e ∙ ground arith,
          record {
            kept = subst Inv (sym (ap (λ x. x.1) (rw fresh at e))) v;
            stored = ground (arith, e, Keyed.replace_self stored_key s c.workers held);
          },
        )
      ]

  -- In a coordinator that satisfies the invariant, `mark_stale_workers_offline` with a positive
  -- timeout returns, it takes exactly the workers offline that are online and whose last
  -- heartbeat is the timeout ago or more, it changes neither another worker nor a job, and its
  -- result is how many it took offline.
  pub mark_stale_workers_offline_lem :
      (now timeout : ℤ) (c : Coordinator F)
      → Inv c
      → leb_ℤ timeout (pos 0) ≡ false
      → ((mark_stale_workers_offline now timeout c).0 ≡ ok (count (is_stale now timeout) c.workers))
        × ((mark_stale_workers_offline now timeout c).1.workers
            ≡ map (set_offline now timeout) c.workers)
        × ((mark_stale_workers_offline now timeout c).1.jobs ≡ c.jobs)
  unfolding mark_stale_workers_offline WorkerRepository.list
  mark_stale_workers_offline_lem now timeout c v positive =
      let (counted, stored) =
        count_each-map stored_key (λ (x : Coordinator F). x.workers) Inv (set_offline now timeout)
          (key-set_offline now timeout) (λ s. mark_stale now timeout s.worker)
          (is_stale now timeout) (mark_stale-Turns now timeout) [] c.workers 0 c v refl
          v.workers_unique in
      let over =
        count_each-over (λ (s : StoredWorker F). s.worker) (mark_stale now timeout) c.workers 0 c in
      (
        rw positive (ap (λ x. x.0) over ∙ counted ∙ ap ok (omega arith)),
        rw positive (ap (λ x. x.1.workers) over ∙ stored),
        mark_stale_workers_offline-jobs now timeout c v,
      )
