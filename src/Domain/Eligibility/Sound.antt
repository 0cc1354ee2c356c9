-- ===== src/Domain/Eligibility/Sound.antt =====
-- A worker is eligible exactly when it meets every requirement.
use mathlib.Core.List.{append-nil, append_assoc}
use radahn.Common.{
  ◌≤◌, ◌<◌, ◌≡◌, refl, ◌↔◌, inl, inr, Bool, true, false, ◌||◌, ◌&&◌, not, List, [], ◌∷◌, ◌++◌, Str,
  is_empty, arith, All, if◌then◌else◌, Bool-cases, ltb,
}
use radahn.Domain.Double.{Double}
use radahn.Domain.Resource.{ResourceRequirements}
use radahn.Domain.Worker.{WorkerSnapshot, WorkerState, online, has_execution_slot, has_tag}
use radahn.Domain.Eligibility.{
  EligibilityResult, EligibilityFailure, add_failure, add_missing_tag, fail_if, eligible,
  check_state, check_required_tags, evaluate_worker,
}

is_empty-append {ℓ} : {A : Type ℓ} (xs : List A) (x : A) → is_empty (xs ++ x ∷ []) ≡ false
is_empty-append [] x = refl
is_empty-append (y ∷ xs) x = refl

eligible-fail_if :
    (test : Bool) (failure : EligibilityFailure) (result : EligibilityResult)
    → eligible (fail_if test failure result) ≡ (not test && eligible result)
unfolding eligible fail_if add_failure
eligible-fail_if true failure result = is_empty-append result.failures failure
eligible-fail_if false failure result = refl

abbrev is_online : WorkerState → Bool
is_online online = true
is_online _ = false

eligible-check_state :
    (state : WorkerState)
    → eligible (check_state state (record { failures = []; missing_tags = [] })) ≡ is_online state
unfolding eligible check_state add_failure
eligible-check_state online = refl
eligible-check_state _ = refl

eligible-missing_tags :
    (result : EligibilityResult) (tags : List Str)
    → eligible (record result { missing_tags = tags }) ≡ eligible result
unfolding eligible
eligible-missing_tags result tags = refl

module _ {F : Type 0} where
  lacks_any : WorkerSnapshot F → List Str → Bool
  lacks_any worker [] = false
  lacks_any worker (tag ∷ tags) = not (has_tag worker tag) || lacks_any worker tags

  -- The required tags that the worker does not have, in their order.
  abbrev pub absent_tags : WorkerSnapshot F → List Str → List Str
  absent_tags worker [] = []
  absent_tags worker (tag ∷ tags) =
      if has_tag worker tag then absent_tags worker tags else tag ∷ absent_tags worker tags

  lacks_any_iff :
      (worker : WorkerSnapshot F) (tags : List Str)
      → (lacks_any worker tags ≡ false) ↔ All (λ tag. has_tag worker tag ≡ true) tags
  unfolding lacks_any
  lacks_any_iff worker [] = (λ _. tt, λ _. refl)
  lacks_any_iff worker (tag ∷ tags) = (
    λ h. (ground arith, (lacks_any_iff worker tags).0 (ground arith)),
    λ h. ground (arith, (lacks_any_iff worker tags).1 h.1),
  )

  -- The loop adds the absent tags, and its flag tells whether there is one.
  check_required_tags_lem :
      (worker : WorkerSnapshot F) (tags : List Str) (flag : Bool) (result : EligibilityResult)
      → check_required_tags worker tags flag result ≡ (
        flag || lacks_any worker tags,
        record result { missing_tags = result.missing_tags ++ absent_tags worker tags },
      )
  unfolding check_required_tags lacks_any add_missing_tag
  check_required_tags_lem worker [] flag result = ground (arith, append-nil result.missing_tags)
  check_required_tags_lem worker (tag ∷ tags) flag result = elim (Bool-cases (has_tag worker tag)) [
    | inl e ↦ rw e (check_required_tags_lem worker tags flag result)
    | inr e ↦ ground (
      arith,
      check_required_tags_lem worker tags true (add_missing_tag tag result),
      append_assoc result.missing_tags (tag ∷ []) (absent_tags worker tags),
    )
  ]

module _ {F : Type 0} ⦃d : Double F⦄ where
  pub record Meets (r : ResourceRequirements F) (worker : WorkerSnapshot F) : Type 0 where
    pub is_online : worker.state ≡ online
    pub slot_free : worker.running_jobs < worker.max_concurrent_jobs
    pub cpu_enough : d.lt worker.resources.available_cpu_cores r.cpu_cores ≡ false
    pub memory_enough : r.memory_bytes ≤ worker.resources.available_memory_bytes
    pub disk_enough : r.disk_bytes ≤ worker.resources.available_disk_bytes
    pub gpu_enough : r.requires_gpu ≡ true → worker.resources.gpu_available ≡ true
    pub tags_present : All (λ tag. has_tag worker tag ≡ true) r.required_tags

  eligible-evaluate_worker :
      (r : ResourceRequirements F) (worker : WorkerSnapshot F)
      → eligible (evaluate_worker r worker) ≡ (
          not (lacks_any worker r.required_tags)
          && (not (r.requires_gpu && not worker.resources.gpu_available)
              && (not (ltb worker.resources.available_disk_bytes r.disk_bytes)
                  && (not (ltb worker.resources.available_memory_bytes r.memory_bytes)
                      && (not (d.lt worker.resources.available_cpu_cores r.cpu_cores)
                          && (not (not (has_execution_slot worker)) && is_online worker.state))))))
  unfolding evaluate_worker
  eligible-evaluate_worker r worker =
      simp (check_required_tags_lem, eligible-fail_if, eligible-missing_tags, eligible-check_state)

  -- `evaluate_worker` finds no failure exactly if the worker is online, has a free slot, enough
  -- processors, memory and disk, a GPU if one is required, and every required tag.
  pub eligible_iff :
      (r : ResourceRequirements F) (worker : WorkerSnapshot F)
      → (eligible (evaluate_worker r worker) ≡ true) ↔ Meets r worker
  unfolding has_execution_slot
  eligible_iff r worker = rw (eligible-evaluate_worker r worker) (
    λ h. ground (arith, (lacks_any_iff worker r.required_tags)),
    λ h. ground (arith, (lacks_any_iff worker r.required_tags)),
  )

  -- The missing tags that `evaluate_worker` reports are the required tags that the worker lacks,
  -- in order.
  pub missing_tags-evaluate_worker :
      (r : ResourceRequirements F) (worker : WorkerSnapshot F)
      → (evaluate_worker r worker).missing_tags ≡ absent_tags worker r.required_tags
  unfolding evaluate_worker fail_if check_state add_failure
  missing_tags-evaluate_worker r worker = simp check_required_tags_lem (ground arith)
