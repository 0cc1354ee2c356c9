-- ===== src/Scheduler/WorkerFilter.antt =====
-- libs/scheduler/src/worker_filter.cpp: the workers that can take a job, by identifier.
pub mod Candidates
use radahn.Common.{Bool, List, [], ◌∷◌, str_lt, if◌then◌else◌}
use radahn.Common.Sorting
use radahn.Domain.Double.{Double}
use radahn.Domain.Resource.{ResourceRequirements}
use radahn.Domain.Worker.{WorkerSnapshot}
use radahn.Domain.Eligibility.{evaluate_worker, eligible}

module _ {F : Type 0} where
  abbrev pub id_before : WorkerSnapshot F → WorkerSnapshot F → Bool
  id_before left right = str_lt left.id.value right.id.value

module _ {F : Type 0} ⦃d : Double F⦄ where
  -- The loop that collects the eligible workers.
  unfoldable pub collect_eligible :
      ResourceRequirements F → List (WorkerSnapshot F) → List (WorkerSnapshot F)
  collect_eligible requirements [] = []
  collect_eligible requirements (worker ∷ workers) =
      if eligible (evaluate_worker requirements worker)
      then worker ∷ collect_eligible requirements workers
      else collect_eligible requirements workers

  unfoldable pub find_eligible_workers :
      ResourceRequirements F → List (WorkerSnapshot F) → List (WorkerSnapshot F)
  unfolding collect_eligible
  find_eligible_workers requirements workers =
      Sorting.sort id_before (collect_eligible requirements workers)
