-- ===== src/Domain/Job.antt =====
-- libs/domain/src/job.cpp: a job and its attempts. `F` is `double`.
pub mod Attempts
use radahn.Common.{
  ℕ, ◌+◌, ltb, ◌==◌, ℤ, pos, Bool, ◌&&◌, not, List, Str, is_empty, add64, Result, ok, throw_if,
  ◌>>=◌, ◌>>◌,
}
use radahn.Domain.Id.{JobId}
use radahn.Domain.Workload.{WorkloadSpec, sleep}
use radahn.Domain.Resource.{ResourceRequirements}
use radahn.Domain.JobState.{JobState, queued, state_eq, validate_transition}
use radahn.Domain.Error.{
  Outcome, job_name_empty, max_attempts_zero, attempts_exceed_max, attempt_not_queued,
  retry_limit_exhausted,
}

pub record Job (F : Type 0) : Type 0 where
  pub id : JobId
  pub name : Str
  pub priority : ℤ
  pub requirements : ResourceRequirements F
  pub workload : WorkloadSpec
  pub state : JobState
  pub created_at : ℤ  -- ticks of the system clock
  pub attempt_count : ℕ  -- std::size_t
  pub max_attempts : ℕ  -- std::size_t

abbrev pub default_max_attempts : ℕ
default_max_attempts = 3

module _ {F : Type 0} where
  -- The private constructor, to which all others delegate, and `Job::restore`.
  unfoldable pub make_job : Job F → Outcome (Job F)
  make_job job = do
    throw_if (is_empty job.name) job_name_empty
    throw_if (job.max_attempts == 0) max_attempts_zero
    throw_if (ltb job.max_attempts job.attempt_count) attempts_exceed_max
    ok job

  unfoldable pub restore :
      JobId
      → Str
      → ℤ
      → ResourceRequirements F
      → WorkloadSpec
      → JobState
      → ℤ
      → ℕ
      → ℕ
      → Outcome (Job F)
  unfolding make_job
  restore id name priority requirements workload state created_at attempt_count max_attempts =
      make_job (record {
        id = id;
        name = name;
        priority = priority;
        requirements = requirements;
        workload = workload;
        state = state;
        created_at = created_at;
        attempt_count = attempt_count;
        max_attempts = max_attempts;
      })

  -- The public constructor with a workload and a limit on the attempts.
  unfoldable pub new_job :
      JobId → Str → ℤ → ResourceRequirements F → WorkloadSpec → ℕ → ℤ → Outcome (Job F)
  unfolding restore
  new_job id name priority requirements workload max_attempts created_at =
      restore id name priority requirements workload queued created_at 0 max_attempts

  -- The public constructor with a workload.
  unfoldable pub new_job_with_workload :
      JobId → Str → ℤ → ResourceRequirements F → WorkloadSpec → ℤ → Outcome (Job F)
  unfolding restore
  new_job_with_workload id name priority requirements workload created_at =
      restore id name priority requirements workload queued created_at 0 default_max_attempts

  -- The original constructor: the workload sleeps for a second.
  unfoldable pub new_default_job : JobId → Str → ℤ → ResourceRequirements F → ℤ → Outcome (Job F)
  unfolding restore sleep
  new_default_job id name priority requirements created_at = do
    workload ← sleep (pos 1000)
    restore id name priority requirements workload queued created_at 0 default_max_attempts

  unfoldable pub can_attempt : Job F → Bool
  can_attempt job = ltb job.attempt_count job.max_attempts

  unfoldable pub record_attempt : Job F → Outcome (Job F)
  unfolding can_attempt
  record_attempt job = do
    throw_if (not (state_eq job.state queued)) attempt_not_queued
    throw_if (not (can_attempt job)) retry_limit_exhausted
    ok (record job { attempt_count = add64 job.attempt_count 1 })

  unfoldable pub transition_to : JobState → Job F → Outcome (Job F)
  unfolding validate_transition
  transition_to next_state job = do
    validate_transition job.state next_state
    ok (record job { state = next_state })
