-- ===== src/Scheduler/Planner.antt =====
-- libs/scheduler/src/dispatch_planner.cpp: the next job that some worker can take.
pub mod Choice
use radahn.Common.{ℕ, Option, none, some, List, [], ◌∷◌}
use radahn.Domain.Double.{Double}
use radahn.Domain.Id.{JobId, WorkerId}
use radahn.Domain.Worker.{WorkerSnapshot}
use radahn.Domain.Job.{Job}
use radahn.Scheduler.JobQueue.{JobQueue, ordered_jobs}
use radahn.Scheduler.Policy.{Policy, PolicyName, SchedulingDecision, select_worker}

pub record DispatchDecision (F : Type 0) : Type 0 where
  pub job_id : JobId
  pub worker_id : WorkerId
  pub policy_name : PolicyName
  pub eligible_worker_count : ℕ
  pub score : Option F

module _ {F : Type 0} ⦃d : Double F⦄ where
  abbrev pub decide_for : Job F → SchedulingDecision F → DispatchDecision F
  decide_for job decision = record {
    job_id = job.id;
    worker_id = decision.worker_id;
    policy_name = decision.policy_name;
    eligible_worker_count = decision.eligible_worker_count;
    score = decision.score;
  }

  -- The loop over the ordered jobs; the policy's state goes along.
  unfoldable pub plan_jobs :
      Policy → List (Job F) → List (WorkerSnapshot F) → Option (DispatchDecision F) × Policy
  plan_jobs policy [] workers = (none, policy)
  plan_jobs policy (job ∷ jobs) workers =
      let (decision, next) = select_worker policy job.requirements workers in
      elim decision [
        | none ↦ plan_jobs next jobs workers
        | some chosen ↦ (some (decide_for job chosen), next)
      ]

  unfoldable pub plan :
      Policy → JobQueue F → List (WorkerSnapshot F) → Option (DispatchDecision F) × Policy
  unfolding plan_jobs
  plan policy queue workers = plan_jobs policy (ordered_jobs queue) workers
