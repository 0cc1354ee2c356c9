-- ===== src/Scheduler/Policy/LeastLoaded.antt =====
-- The least loaded policy gives the job to a candidate that no other candidate beats.
use mathlib.Core.List.{Mem, mem-cons_self, mem-cons_of_mem, mem-cons}
use mathlib.Core.Logic.{∥∥₁_prop}
use mathlib.Core.Logic.Or
use radahn.Common.{
  ◌<◌, ◌≡◌, ◌⊎◌, inl, inr, ltb, ◌==◌, Bool, true, false, ◌&&◌, not, some, List, [], ◌∷◌, arith, All,
  Bool-cases, if◌then◌else◌, str_lt, word_mod, length,
}
use radahn.Domain.Double.{Double, IsIeee}
use radahn.Domain.Resource.{ResourceRequirements}
use radahn.Domain.Resource.Validity.{IsValidResources}
use radahn.Domain.Worker.{WorkerSnapshot}
use radahn.Domain.Worker.Validity.{IsValidSnapshot}
use radahn.Scheduler.WorkerFilter.Candidates.{All-find_eligible_workers}
use radahn.Scheduler.WorkerFilter.{find_eligible_workers}
use radahn.Scheduler.JobQueue.Order.{str_lt_asymm, str_lt_compare}
use radahn.Scheduler.Policy.{
  SchedulingDecision, least_loaded, normalized_load, is_better_candidate, min_element,
  select_least_loaded, select_worker,
}

module _ {F : Type 0} ⦃d : Double F⦄ where
  -- The measures of the worker are finite numbers.
  pub record IsMeasured (w : WorkerSnapshot F) : Type 0 where
    pub load_finite : d.is_finite (normalized_load w) ≡ true
    pub cpu_finite : d.is_finite w.resources.available_cpu_cores ≡ true

module _ {F : Type 0} ⦃d : Double F⦄ (ieee : IsIeee d) where
  eq-lt :
      (a b : F)
      → d.is_finite a ≡ true
      → d.is_finite b ≡ true
      → d.eq a b ≡ (not (d.lt a b) && not (d.lt b a))
  eq-lt a b ha hb =
      ground (arith, ieee.lt_eq a b, ieee.lt_eq b a, ieee.eq_of_not_lt a b, ieee.eq_comm a b)

  lt_asymm : (a b : F) → d.lt a b ≡ true → d.lt b a ≡ false
  lt_asymm a b h = ground (arith, ieee.lt_trans a b a, ieee.lt_irrefl a)

  -- One layer of the comparison: by two doubles, then by `rest`.
  abbrev layer : F → F → Bool → Bool
  layer x y rest = if not (d.eq x y) then d.lt x y else rest

  layer_compare :
      (x y z : F) (p q r : Bool)
      → d.is_finite x ≡ true
      → d.is_finite y ≡ true
      → d.is_finite z ≡ true
      → (p ≡ true → (q ≡ true) ⊎ (r ≡ true))
      → layer x z p ≡ true
      → (layer x y q ≡ true) ⊎ (layer y z r ≡ true)
  layer_compare x y z p q r hx hy hz h k = ground (
    arith,
    eq-lt x y,
    eq-lt y z,
    eq-lt x z,
    ieee.lt_compare x y z,
    ieee.lt_compare y z x,
    ieee.lt_compare z x y,
    lt_asymm x y,
    lt_asymm y z,
  )

  layer_asymm :
      (x y : F) (p q : Bool)
      → d.is_finite x ≡ true
      → d.is_finite y ≡ true
      → (p ≡ true → q ≡ false)
      → layer x y p ≡ true
      → layer y x q ≡ false
  layer_asymm x y p q hx hy h k = ground (arith, eq-lt x y, eq-lt y x, lt_asymm x y)

  by_rest : WorkerSnapshot F → WorkerSnapshot F → Bool
  by_rest a b =
      if not (a.resources.available_memory_bytes == b.resources.available_memory_bytes)
      then ltb b.resources.available_memory_bytes a.resources.available_memory_bytes
      else str_lt a.id.value b.id.value

  by_cpu : WorkerSnapshot F → WorkerSnapshot F → Bool
  by_cpu a b = layer b.resources.available_cpu_cores a.resources.available_cpu_cores (by_rest a b)

  by_rest_compare :
      (a b c : WorkerSnapshot F) → by_rest a c ≡ true → (by_rest a b ≡ true) ⊎ (by_rest b c ≡ true)
  unfolding by_rest
  by_rest_compare a b c h = ground (arith, str_lt_compare a.id.value b.id.value c.id.value)

  by_rest_asymm : (a b : WorkerSnapshot F) → by_rest a b ≡ true → by_rest b a ≡ false
  unfolding by_rest
  by_rest_asymm a b h = ground (arith, str_lt_asymm a.id.value b.id.value)

  better_lem :
      (a b : WorkerSnapshot F)
      → is_better_candidate a b ≡ layer (normalized_load a) (normalized_load b) (by_cpu a b)
  unfolding is_better_candidate by_cpu by_rest
  better_lem a b =
      ground (arith, ieee.eq_comm a.resources.available_cpu_cores b.resources.available_cpu_cores)

  by_cpu_compare :
      (a b c : WorkerSnapshot F)
      → IsMeasured a
      → IsMeasured b
      → IsMeasured c
      → by_cpu a c ≡ true
      → (by_cpu a b ≡ true) ⊎ (by_cpu b c ≡ true)
  unfolding by_cpu
  by_cpu_compare a b c ma mb mc h =
      elim (layer_compare c.resources.available_cpu_cores b.resources.available_cpu_cores
        a.resources.available_cpu_cores (by_rest a c) (by_rest b c) (by_rest a b) mc.cpu_finite
        mb.cpu_finite ma.cpu_finite (λ p. ground (arith, by_rest_compare a b c p)) h) [
          | inl p ↦ inr p
          | inr p ↦ inl p
        ]

  better_compare :
      (a b c : WorkerSnapshot F)
      → IsMeasured a
      → IsMeasured b
      → IsMeasured c
      → is_better_candidate a c ≡ true
      → (is_better_candidate a b ≡ true) ⊎ (is_better_candidate b c ≡ true)
  better_compare a b c ma mb mc h =
      rw (better_lem a b, better_lem b c)
        (layer_compare (normalized_load a) (normalized_load b) (normalized_load c) (by_cpu a c)
          (by_cpu a b) (by_cpu b c) ma.load_finite mb.load_finite mc.load_finite
          (by_cpu_compare a b c ma mb mc) (rw (better_lem a c) at h))

  better_asymm :
      (a b : WorkerSnapshot F)
      → IsMeasured a
      → IsMeasured b
      → is_better_candidate a b ≡ true
      → is_better_candidate b a ≡ false
  unfolding by_cpu
  better_asymm a b ma mb h = rw (better_lem b a) (
      layer_asymm (normalized_load a) (normalized_load b) (by_cpu a b) (by_cpu b a) ma.load_finite
        mb.load_finite
        (layer_asymm b.resources.available_cpu_cores a.resources.available_cpu_cores (by_rest a b)
          (by_rest b a) mb.cpu_finite ma.cpu_finite (by_rest_asymm a b))
        (rw (better_lem a b) at h))

  not_better :
      (a b c : WorkerSnapshot F)
      → IsMeasured a
      → IsMeasured b
      → IsMeasured c
      → is_better_candidate b a ≡ false
      → is_better_candidate c b ≡ false
      → is_better_candidate c a ≡ false
  not_better a b c ma mb mc h k = elim (Bool-cases (is_better_candidate c a)) [
    | inl e ↦ ground (arith, better_compare c b a mc mb ma e)
    | inr e ↦ e
  ]

  -- `w` is one of the candidates, and none of them is better.
  pub record IsBest (w : WorkerSnapshot F) (ws : List (WorkerSnapshot F)) : Type 0 where
    pub chosen : Mem w ws
    pub unbeaten : All (λ x. is_better_candidate x w ≡ false) ws

  abbrev Found : WorkerSnapshot F → List (WorkerSnapshot F) → Type 0
  Found w ws = IsMeasured w × IsBest w ws

  Found-better :
      (smallest x r : WorkerSnapshot F) (rest : List (WorkerSnapshot F))
      → IsMeasured smallest
      → IsMeasured x
      → is_better_candidate x smallest ≡ true
      → Found r (x ∷ rest)
      → Found r (smallest ∷ x ∷ rest)
  Found-better smallest x r rest m mx e (mr, best) = (
    mr,
    record {
      chosen = mem-cons_of_mem smallest best.chosen;
      unbeaten = (
        not_better r x smallest mr mx m best.unbeaten.0 (better_asymm x smallest mx m e),
        best.unbeaten,
      );
    },
  )

  Found-worse :
      (smallest x r : WorkerSnapshot F) (rest : List (WorkerSnapshot F))
      → IsMeasured smallest
      → IsMeasured x
      → is_better_candidate x smallest ≡ false
      → Found r (smallest ∷ rest)
      → Found r (smallest ∷ x ∷ rest)
  Found-worse smallest x r rest m mx e (mr, best) = (
    mr,
    record {
      chosen =
          Or.elim ∥∥₁_prop (mem-cons.0 best.chosen) (λ same. mem-cons.1 (Or.inl same))
            (λ later. mem-cons_of_mem smallest (mem-cons_of_mem x later));
      unbeaten =
          (best.unbeaten.0, (not_better r smallest x mr m mx best.unbeaten.0 e, best.unbeaten.1));
    },
  )

  min_element-Found :
      (smallest : WorkerSnapshot F) (rest : List (WorkerSnapshot F))
      → IsMeasured smallest
      → All IsMeasured rest
      → Found (min_element smallest rest) (smallest ∷ rest)
  unfolding min_element
  min_element-Found smallest [] m a = (
    m,
    record {
      chosen = mem-cons_self;
      unbeaten = (ground (arith, better_asymm smallest smallest m m), tt);
    },
  )
  min_element-Found smallest (x ∷ rest) m a = elim (Bool-cases (is_better_candidate x smallest)) [
    | inl e ↦ rw e (Found-better smallest x _ rest m a.0 e (min_element-Found x rest a.0 a.1))
    | inr e ↦ rw e (Found-worse smallest x _ rest m a.0 e (min_element-Found smallest rest m a.1))
  ]

  -- What the constructors of a snapshot and of its resources have checked, in machine words.
  pub record IsChecked (w : WorkerSnapshot F) : Type 0 where
    pub snapshot_valid : IsValidSnapshot w
    pub resources_valid : IsValidResources w.resources
    pub slots_word : w.max_concurrent_jobs < word_mod

  IsMeasured-of_IsChecked : (w : WorkerSnapshot F) → IsChecked w → IsMeasured w
  unfolding normalized_load
  IsMeasured-of_IsChecked w c =
      ground (arith, ieee.load_finite w.running_jobs w.max_concurrent_jobs)

  All-IsMeasured : (ws : List (WorkerSnapshot F)) → All IsChecked ws → All IsMeasured ws
  All-IsMeasured [] a = tt
  All-IsMeasured (w ∷ ws) a = (IsMeasured-of_IsChecked w a.0, All-IsMeasured ws a.1)

  select_least_loaded-IsBest :
      (ws : List (WorkerSnapshot F)) (decision : SchedulingDecision F)
      → All IsMeasured ws
      → select_least_loaded ws ≡ some decision
      → (w : WorkerSnapshot F) × (decision.worker_id ≡ w.id)
        × (decision.eligible_worker_count ≡ length ws)
        × (decision.score ≡ some (normalized_load w))
        × IsBest w ws
  unfolding select_least_loaded
  select_least_loaded-IsBest [] decision a h = cc
  select_least_loaded-IsBest (first ∷ rest) decision a h = (
    min_element first rest,
    ground arith,
    ground arith,
    ground arith,
    (min_element-Found first rest a.0 a.1).1,
  )

  pub least_loaded-IsBest :
      (r : ResourceRequirements F) (workers : List (WorkerSnapshot F))
      (decision : SchedulingDecision F)
      → All IsChecked workers
      → (select_worker least_loaded r workers).0 ≡ some decision
      → (w : WorkerSnapshot F) × (decision.worker_id ≡ w.id)
        × (decision.eligible_worker_count ≡ length (find_eligible_workers r workers))
        × (decision.score ≡ some (normalized_load w))
        × IsBest w (find_eligible_workers r workers)
  unfolding select_worker
  least_loaded-IsBest r workers decision a h =
      select_least_loaded-IsBest (find_eligible_workers r workers) decision
        (All-IsMeasured _ (All-find_eligible_workers r IsChecked workers a)) h
