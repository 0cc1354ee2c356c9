-- ===== src/Scheduler/JobQueue/Pop.antt =====
-- `pop_next` takes out a job that nothing in the queue should run before.
use mathlib.Core.List.{Perm}
use mathlib.Core.List.Perm
use mathlib.Core.Option.{some-injective}
use mathlib.Core.Path.{subst}
use radahn.Common.{
  ℕ, zero, suc, ◌+◌, ◌≡◌, refl, sym, ap, ◌⊎◌, inl, inr, true, false, none, some, List, [], ◌∷◌,
  arith, All, Bool-cases, get_elem?,
}
use radahn.Common.Sorting.{not_before}
use radahn.Domain.Job.{Job}
use radahn.Scheduler.JobQueue.{JobQueue, should_run_before, find_best, erase_at, pop_next}
use radahn.Scheduler.JobQueue.Order.{should_run_before-IsStrictWeak, should_run_before_asymm}

erase_at-perm {ℓ} :
    {A : Type ℓ} (xs : List A) (i : ℕ) {x : A}
    → get_elem? xs i ≡ some x
    → Perm xs (x ∷ erase_at i xs)
unfolding erase_at
erase_at-perm [] i h = cc
erase_at-perm (y ∷ xs) zero {x} h = Perm.cons' (some-injective y x h) Perm.rfl
erase_at-perm (y ∷ xs) (suc i) {x} h =
    Perm.trans (Perm.cons y (erase_at-perm xs i h)) (Perm.swap x y (erase_at i xs))

module _ {F : Type 0} where
  find_best-better :
      (best_job : ℕ) (best : Job F) (iterator : ℕ) (x : Job F) (rest : List (Job F))
      → should_run_before x best ≡ true
      → find_best best_job best iterator (x ∷ rest) ≡ find_best iterator x (suc iterator) rest
  unfolding find_best
  find_best-better best_job best iterator x rest e = rw (e, find_best)

  find_best-worse :
      (best_job : ℕ) (best : Job F) (iterator : ℕ) (x : Job F) (rest : List (Job F))
      → should_run_before x best ≡ false
      → find_best best_job best iterator (x ∷ rest) ≡ find_best best_job best (suc iterator) rest
  unfolding find_best
  find_best-worse best_job best iterator x rest e = rw (e, find_best)

  -- Where the best job stands: where it stood, or at a place of the rest.
  abbrev Stands : ℕ → Job F → ℕ → List (Job F) → ℕ × Job F → Type 0
  Stands best_job best iterator rest r =
      (r.0 ≡ best_job) × (r.1 ≡ best)
      ⊎ ((k : ℕ) × (r.0 ≡ iterator + k) × (get_elem? rest k ≡ some r.1))

  find_best-Stands :
      (best_job : ℕ) (best : Job F) (iterator : ℕ) (rest : List (Job F))
      → Stands best_job best iterator rest (find_best best_job best iterator rest)
  unfolding find_best
  find_best-Stands best_job best iterator [] = inl (refl, refl)
  find_best-Stands best_job best iterator (x ∷ rest) =
      elim (Bool-cases (should_run_before x best)) [
        | inl e ↦
            subst (Stands best_job best iterator (x ∷ rest))
              (sym (find_best-better best_job best iterator x rest e))
              (elim (find_best-Stands iterator x (suc iterator) rest) [
                | inl p ↦ inr (0, omega (arith, p.0), ap some (sym p.1))
                | inr (k, p, q) ↦ inr (suc k, omega (arith, p), q)
              ])
        | inr e ↦
            subst (Stands best_job best iterator (x ∷ rest))
              (sym (find_best-worse best_job best iterator x rest e))
              (elim (find_best-Stands best_job best (suc iterator) rest) [
                | inl p ↦ inl p
                | inr (k, p, q) ↦ inr (suc k, omega (arith, p), q)
              ])
      ]

  abbrev NoneBefore : Job F → List (Job F) → ℕ × Job F → Type 0
  NoneBefore best rest r =
      (should_run_before best r.1 ≡ false) × All (λ k. should_run_before k r.1 ≡ false) rest

  find_best-minimal :
      (best_job : ℕ) (best : Job F) (iterator : ℕ) (rest : List (Job F))
      → NoneBefore best rest (find_best best_job best iterator rest)
  unfolding find_best
  find_best-minimal best_job best iterator [] =
      (ground (arith, should_run_before_asymm best best), tt)
  find_best-minimal best_job best iterator (x ∷ rest) =
      elim (Bool-cases (should_run_before x best)) [
        | inl e ↦
            let ih = find_best-minimal iterator x (suc iterator) rest in
            subst (NoneBefore best (x ∷ rest))
              (sym (find_best-better best_job best iterator x rest e))
              (
                not_before should_run_before should_run_before-IsStrictWeak _ x best ih.0
                    (should_run_before_asymm x best e),
                ih,
              )
        | inr e ↦
            let ih = find_best-minimal best_job best (suc iterator) rest in
            subst (NoneBefore best (x ∷ rest))
              (sym (find_best-worse best_job best iterator x rest e))
              (
                ih.0,
                (not_before should_run_before should_run_before-IsStrictWeak _ best x ih.0 e, ih.1),
              )
      ]

  find_best-perm :
      (first : Job F) (rest : List (Job F))
      → let r = find_best 0 first 1 rest in Perm (first ∷ rest) (r.1 ∷ erase_at r.0 (first ∷ rest))
  find_best-perm first rest =
      erase_at-perm (first ∷ rest) _
        (found (find_best 0 first 1 rest) (find_best-Stands 0 first 1 rest))
    where
      found : (r : ℕ × Job F) → Stands 0 first 1 rest r → get_elem? (first ∷ rest) r.0 ≡ some r.1
      found r (inl (p, q)) = ground arith
      found r (inr (k, p, q)) = ground arith

  -- The job that `pop_next` gives was in the queue together with those that stay, and no job of
  -- the queue should run before it.
  pub pop_next_best :
      (jobs : JobQueue F) (job : Job F)
      → (pop_next jobs).0 ≡ some job
      → All (λ k. should_run_before k job ≡ false) jobs × Perm jobs (job ∷ (pop_next jobs).1)
  unfolding pop_next
  pop_next_best [] job h = cc
  pop_next_best (first ∷ rest) job h =
      subst
        (λ j.
          All (λ k. should_run_before k j ≡ false) (first ∷ rest)
          × Perm (first ∷ rest) (j ∷ (pop_next (first ∷ rest)).1))
        (some-injective _ job h) (find_best-minimal 0 first 1 rest, find_best-perm first rest)

  -- It gives none of the empty queue only.
  pub pop_next-none : (jobs : JobQueue F) → (pop_next jobs).0 ≡ none → jobs ≡ []
  unfolding pop_next
  pop_next-none [] h = refl
  pop_next-none (first ∷ rest) h = cc
