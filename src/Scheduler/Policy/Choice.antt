-- ===== src/Scheduler/Policy/Choice.antt =====
-- Either policy selects one of the candidates, and none only if there is no candidate.
use radahn.Common.{
  ℕ, zero, suc, ◌%◌, ◌≡◌, refl, inl, inr, none, some, List, [], ◌∷◌, arith, All, Bool-cases, length,
}
use radahn.Domain.Double.{Double}
use radahn.Domain.Resource.{ResourceRequirements}
use radahn.Domain.Worker.{WorkerSnapshot}
use radahn.Scheduler.WorkerFilter.{find_eligible_workers}
use radahn.Scheduler.Policy.{
  Policy, least_loaded, round_robin, SchedulingDecision, get_or, is_better_candidate, min_element,
  select_least_loaded, select_round_robin, select_worker,
}

All-get_or {ℓ} :
    {A : Type ℓ} (P : A → Type 0) (xs : List A) (i : ℕ) (d : A) → All P xs → P d → P (get_or xs i d)
All-get_or P [] i d a p = p
All-get_or P (x ∷ xs) zero d a p = a.0
All-get_or P (x ∷ xs) (suc i) d a p = All-get_or P xs i d a.1 p

module _ {F : Type 0} ⦃d : Double F⦄ (P : WorkerSnapshot F → Type 0) where
  All-min_element :
      (smallest : WorkerSnapshot F) (rest : List (WorkerSnapshot F))
      → P smallest
      → All P rest
      → P (min_element smallest rest)
  unfolding min_element
  All-min_element smallest [] p a = p
  All-min_element smallest (x ∷ rest) p a = elim (Bool-cases (is_better_candidate x smallest)) [
    | inl e ↦ rw e (All-min_element x rest a.0 a.1)
    | inr e ↦ rw e (All-min_element smallest rest p a.1)
  ]

  select_least_loaded_choice :
      (ws : List (WorkerSnapshot F)) (decision : SchedulingDecision F)
      → All P ws
      → select_least_loaded ws ≡ some decision
      → (w : WorkerSnapshot F) × (decision.worker_id ≡ w.id) × P w
  unfolding select_least_loaded
  select_least_loaded_choice [] decision a h = cc
  select_least_loaded_choice (first ∷ rest) decision a h =
      (min_element first rest, ground arith, All-min_element first rest a.0 a.1)

  select_round_robin_choice :
      (i : ℕ) (ws : List (WorkerSnapshot F)) (decision : SchedulingDecision F)
      → All P ws
      → (select_round_robin i ws).0 ≡ some decision
      → (w : WorkerSnapshot F) × (decision.worker_id ≡ w.id) × P w
  unfolding select_round_robin
  select_round_robin_choice i [] decision a h = cc
  select_round_robin_choice i (first ∷ rest) decision a h = (
    get_or (first ∷ rest) (i % length (first ∷ rest)) first,
    ground arith,
    All-get_or P (first ∷ rest) (i % length (first ∷ rest)) first a a.0,
  )

  -- What holds of every candidate holds of the selected one.
  pub select_worker_choice :
      (policy : Policy) (r : ResourceRequirements F) (workers : List (WorkerSnapshot F))
      (decision : SchedulingDecision F)
      → All P (find_eligible_workers r workers)
      → (select_worker policy r workers).0 ≡ some decision
      → (w : WorkerSnapshot F) × (decision.worker_id ≡ w.id) × P w
  unfolding select_worker
  select_worker_choice least_loaded r workers decision a h =
      select_least_loaded_choice _ decision a h
  select_worker_choice (round_robin i) r workers decision a h =
      select_round_robin_choice i _ decision a h

module _ {F : Type 0} ⦃d : Double F⦄ where
  select_least_loaded-none :
      (ws : List (WorkerSnapshot F)) → select_least_loaded ws ≡ none → ws ≡ []
  unfolding select_least_loaded
  select_least_loaded-none [] h = refl
  select_least_loaded-none (first ∷ rest) h = cc

  select_round_robin-none :
      (i : ℕ) (ws : List (WorkerSnapshot F)) → (select_round_robin i ws).0 ≡ none → ws ≡ []
  unfolding select_round_robin
  select_round_robin-none i [] h = refl
  select_round_robin-none i (first ∷ rest) h = cc

  pub select_worker-none :
      (policy : Policy) (r : ResourceRequirements F) (workers : List (WorkerSnapshot F))
      → (select_worker policy r workers).0 ≡ none
      → find_eligible_workers r workers ≡ []
  unfolding select_worker
  select_worker-none least_loaded r workers h = select_least_loaded-none _ h
  select_worker-none (round_robin i) r workers h = select_round_robin-none i _ h
