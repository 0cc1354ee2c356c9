-- ===== src/Scheduler/Policy.antt =====
-- libs/scheduler/src/least_loaded_policy.cpp and round_robin_policy.cpp: which candidate takes a
-- job. The two subclasses of `ISchedulingPolicy` are the constructors of `Policy`, with the
-- state that each keeps between calls.
pub mod LeastLoaded
pub mod RoundRobin
pub mod Choice
use radahn.Common.{
  ℕ, zero, suc, ◌+◌, ◌%◌, ltb, ◌==◌, Bool, not, Option, none, some, List, [], ◌∷◌, Str, str_lt,
  length, if◌then◌else◌,
}
use radahn.Domain.Double.{Double}
use radahn.Domain.Id.{WorkerId}
use radahn.Domain.Resource.{ResourceRequirements}
use radahn.Domain.Worker.{WorkerSnapshot}
use radahn.Scheduler.WorkerFilter.{find_eligible_workers}

pub data Policy : Type 0 where
  least_loaded : Policy
  round_robin : (next_index : ℕ) → Policy

-- `name()`.
pub data PolicyName : Type 0 where
  least_loaded_name round_robin_name : PolicyName

unfoldable pub name : Policy → PolicyName
name least_loaded = least_loaded_name
name (round_robin next_index) = round_robin_name

pub record SchedulingDecision (F : Type 0) : Type 0 where
  pub worker_id : WorkerId
  pub policy_name : PolicyName
  pub eligible_worker_count : ℕ
  pub score : Option F

module _ {ℓ} {A : Type ℓ} where
  -- `at(i)`, where `d` stands for the exception out of range.
  abbrev pub get_or : List A → ℕ → A → A
  get_or [] i d = d
  get_or (x ∷ xs) zero d = x
  get_or (x ∷ xs) (suc i) d = get_or xs i d

module _ {F : Type 0} ⦃d : Double F⦄ where
  unfoldable pub normalized_load : WorkerSnapshot F → F
  normalized_load worker =
      d.div (d.of_size worker.running_jobs) (d.of_size worker.max_concurrent_jobs)

  unfoldable pub is_better_candidate : WorkerSnapshot F → WorkerSnapshot F → Bool
  unfolding normalized_load
  is_better_candidate left right =
      let left_cpu = left.resources.available_cpu_cores in
      let right_cpu = right.resources.available_cpu_cores in
      let left_memory = left.resources.available_memory_bytes in
      let right_memory = right.resources.available_memory_bytes in
      if not (d.eq (normalized_load left) (normalized_load right))
      then d.lt (normalized_load left) (normalized_load right)
      else if not (d.eq left_cpu right_cpu)
      then d.lt right_cpu left_cpu
      else if not (left_memory == right_memory)
      then ltb right_memory left_memory
      else str_lt left.id.value right.id.value

  -- `std::min_element`: the first candidate that no other one beats.
  unfoldable pub min_element : WorkerSnapshot F → List (WorkerSnapshot F) → WorkerSnapshot F
  min_element smallest [] = smallest
  min_element smallest (x ∷ rest) =
      min_element (if is_better_candidate x smallest then x else smallest) rest

  unfoldable pub select_least_loaded : List (WorkerSnapshot F) → Option (SchedulingDecision F)
  unfolding min_element normalized_load
  select_least_loaded [] = none
  select_least_loaded (first ∷ rest) =
      let selected_worker = min_element first rest in
      some (record {
        worker_id = selected_worker.id;
        policy_name = least_loaded_name;
        eligible_worker_count = length (first ∷ rest);
        score = some (normalized_load selected_worker);
      })

  -- The decision, and `next_index_` after it.
  unfoldable pub select_round_robin :
      ℕ → List (WorkerSnapshot F) → Option (SchedulingDecision F) × ℕ
  select_round_robin next_index [] = (none, next_index)
  select_round_robin next_index (first ∷ rest) =
      let size = length (first ∷ rest) in
      let selected_index = next_index % size in
      let selected_worker = get_or (first ∷ rest) selected_index first in
      (
        some (record {
          worker_id = selected_worker.id;
          policy_name = round_robin_name;
          eligible_worker_count = size;
          score = none;
        }),
        (selected_index + 1) % size,
      )

  unfoldable pub select_worker :
      Policy
      → ResourceRequirements F
      → List (WorkerSnapshot F)
      → Option (SchedulingDecision F) × Policy
  unfolding select_least_loaded select_round_robin
  select_worker least_loaded requirements workers =
      (select_least_loaded (find_eligible_workers requirements workers), least_loaded)
  select_worker (round_robin next_index) requirements workers =
      let (decision, next) =
        select_round_robin next_index (find_eligible_workers requirements workers) in
      (decision, round_robin next)
