-- ===== src/Domain/Eligibility.antt =====
-- libs/domain/src/worker_eligibility.cpp: whether a worker can take a job, and why not.
pub mod Sound
use radahn.Common.{
  ltb, Bool, true, false, ◌&&◌, not, List, [], ◌∷◌, ◌++◌, Str, is_empty, if◌then◌else◌,
}
use radahn.Domain.Double.{Double}
use radahn.Domain.Resource.{ResourceRequirements}
use radahn.Domain.Worker.{
  WorkerSnapshot, WorkerState, online, draining, offline, disabled, has_execution_slot, has_tag,
}

pub data EligibilityFailure : Type 0 where
  worker_not_online worker_draining no_execution_slot : EligibilityFailure
  insufficient_cpu insufficient_memory insufficient_disk : EligibilityFailure
  gpu_unavailable missing_required_tag : EligibilityFailure

pub record EligibilityResult : Type 0 where
  pub failures : List EligibilityFailure
  pub missing_tags : List Str

unfoldable pub add_failure : EligibilityFailure → EligibilityResult → EligibilityResult
add_failure failure result = record result { failures = result.failures ++ failure ∷ [] }

unfoldable pub add_missing_tag : Str → EligibilityResult → EligibilityResult
add_missing_tag tag result = record result { missing_tags = result.missing_tags ++ tag ∷ [] }

unfoldable pub eligible : EligibilityResult → Bool
eligible result = is_empty result.failures

-- `if (test) result.add_failure(failure);`
unfoldable pub fail_if : Bool → EligibilityFailure → EligibilityResult → EligibilityResult
unfolding add_failure
fail_if test failure result = if test then add_failure failure result else result

-- The `switch` on the worker's state.
unfoldable pub check_state : WorkerState → EligibilityResult → EligibilityResult
unfolding add_failure
check_state online result = result
check_state draining result = add_failure worker_draining result
check_state offline result = add_failure worker_not_online result
check_state disabled result = add_failure worker_not_online result

module _ {F : Type 0} where
  -- The loop over the required tags; the flag is `missing_any_tag`.
  unfoldable pub check_required_tags :
      WorkerSnapshot F → List Str → Bool → EligibilityResult → Bool × EligibilityResult
  unfolding add_missing_tag
  check_required_tags worker [] missing_any_tag result = (missing_any_tag, result)
  check_required_tags worker (tag ∷ tags) missing_any_tag result =
      let lacks = not (has_tag worker tag) in
      check_required_tags worker tags (if lacks then true else missing_any_tag)
        (if lacks then add_missing_tag tag result else result)

module _ {F : Type 0} ⦃d : Double F⦄ where
  unfoldable pub evaluate_worker : ResourceRequirements F → WorkerSnapshot F → EligibilityResult
  evaluate_worker requirements worker =
      let start : EligibilityResult = record { failures = []; missing_tags = [] } in
      let resources = worker.resources in
      let by_state = check_state worker.state start in
      let by_slot = fail_if (not (has_execution_slot worker)) no_execution_slot by_state in
      let by_cpu =
        fail_if (d.lt resources.available_cpu_cores requirements.cpu_cores) insufficient_cpu
          by_slot in
      let by_memory =
        fail_if (ltb resources.available_memory_bytes requirements.memory_bytes) insufficient_memory
          by_cpu in
      let by_disk =
        fail_if (ltb resources.available_disk_bytes requirements.disk_bytes) insufficient_disk
          by_memory in
      let by_gpu =
        fail_if (requirements.requires_gpu && not resources.gpu_available) gpu_unavailable
          by_disk in
      let (missing_any_tag, result) =
        check_required_tags worker requirements.required_tags false by_gpu in
      fail_if missing_any_tag missing_required_tag result
