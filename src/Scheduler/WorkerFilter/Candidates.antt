-- ===== src/Scheduler/WorkerFilter/Candidates.antt =====
-- The candidates are the eligible workers, in the order of their identifiers.
use mathlib.Core.List.{Mem, mem-cons, not-mem-nil}
use mathlib.Core.List.Perm
use mathlib.Core.Logic.{∨₁_prop, ∥∥₁_prop}
use mathlib.Core.Logic.Or
use mathlib.Core.Path.{subst}
use radahn.Common.{inl, inr, List, [], ◌∷◌, arith, Bool-cases, All}
use radahn.Common.Sorting.{IsStrictWeak, IsSorted, sort-IsSorted, sort-perm, All-sort}
use radahn.Domain.Double.{Double}
use radahn.Domain.Resource.{ResourceRequirements}
use radahn.Domain.Worker.{WorkerSnapshot}
use radahn.Domain.Eligibility.{evaluate_worker, eligible}
use radahn.Domain.Eligibility.Sound.{Meets, eligible_iff}
use radahn.Scheduler.WorkerFilter.{id_before, collect_eligible, find_eligible_workers}
use radahn.Scheduler.JobQueue.Order.{str_lt_asymm, str_lt_compare}

id_before-IsStrictWeak : {F : Type 0} → IsStrictWeak (id_before {F = F})
id_before-IsStrictWeak = record {
  asymm = λ a b. str_lt_asymm a.id.value b.id.value;
  compare = λ a b c. str_lt_compare a.id.value b.id.value c.id.value;
}

module _ {F : Type 0} ⦃d : Double F⦄ (r : ResourceRequirements F) where
  collect_eligible-Meets :
      (workers : List (WorkerSnapshot F)) → All (Meets r) (collect_eligible r workers)
  unfolding collect_eligible
  collect_eligible-Meets [] = tt
  collect_eligible-Meets (worker ∷ workers) =
      elim (Bool-cases (eligible (evaluate_worker r worker))) [
        | inl e ↦ rw e ((eligible_iff r worker).0 e, collect_eligible-Meets workers)
        | inr e ↦ rw e (collect_eligible-Meets workers)
      ]

  mem-collect_eligible :
      (worker : WorkerSnapshot F) (workers : List (WorkerSnapshot F))
      → Meets r worker
      → Mem worker workers
      → Mem worker (collect_eligible r workers)
  unfolding collect_eligible
  mem-collect_eligible worker [] m i = absurd (not-mem-nil i)
  mem-collect_eligible worker (x ∷ workers) m i =
      elim (Bool-cases (eligible (evaluate_worker r x))) [
        | inl e ↦ rw e (
            mem-cons.1 (
              Or.elim ∨₁_prop (mem-cons.0 i) Or.inl
                (λ j. Or.inr (mem-collect_eligible worker workers m j))))
        | inr e ↦ rw e (
            Or.elim ∥∥₁_prop (mem-cons.0 i)
              (λ same. ground (arith, same, (eligible_iff r x).1 (subst (Meets r) same m)))
              (mem-collect_eligible worker workers m))
      ]

  -- Every candidate meets the requirements.
  pub find_eligible_workers-Meets :
      (workers : List (WorkerSnapshot F)) → All (Meets r) (find_eligible_workers r workers)
  unfolding find_eligible_workers
  find_eligible_workers-Meets workers =
      All-sort id_before (Meets r) (collect_eligible r workers) (collect_eligible-Meets workers)

  -- The candidates are in the order of their identifiers.
  pub find_eligible_workers-IsSorted :
      (workers : List (WorkerSnapshot F)) → IsSorted id_before (find_eligible_workers r workers)
  unfolding find_eligible_workers
  find_eligible_workers-IsSorted workers =
      sort-IsSorted id_before id_before-IsStrictWeak (collect_eligible r workers)

  -- Every given worker that meets the requirements is among the candidates.
  pub mem-find_eligible_workers :
      (worker : WorkerSnapshot F) (workers : List (WorkerSnapshot F))
      → Meets r worker
      → Mem worker workers
      → Mem worker (find_eligible_workers r workers)
  unfolding find_eligible_workers
  mem-find_eligible_workers worker workers m i =
      (Perm.mem_iff (sort-perm id_before (collect_eligible r workers))).1
        (mem-collect_eligible worker workers m i)

  All-collect_eligible :
      (P : WorkerSnapshot F → Type 0) (workers : List (WorkerSnapshot F))
      → All P workers
      → All P (collect_eligible r workers)
  unfolding collect_eligible
  All-collect_eligible P [] a = tt
  All-collect_eligible P (worker ∷ workers) a =
      elim (Bool-cases (eligible (evaluate_worker r worker))) [
        | inl e ↦ rw e (a.0, All-collect_eligible P workers a.1)
        | inr e ↦ rw e (All-collect_eligible P workers a.1)
      ]

  pub All-find_eligible_workers :
      (P : WorkerSnapshot F → Type 0) (workers : List (WorkerSnapshot F))
      → All P workers
      → All P (find_eligible_workers r workers)
  unfolding find_eligible_workers
  All-find_eligible_workers P workers a =
      All-sort id_before P (collect_eligible r workers) (All-collect_eligible P workers a)
