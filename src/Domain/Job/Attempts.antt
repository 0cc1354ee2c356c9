-- ===== src/Domain/Job/Attempts.antt =====
-- The life of one job: its attempts and its transitions.
use radahn.Common.{
  ◌+◌, ◌≤◌, ◌<◌, ◌≡◌, ◌↔◌, true, false, ok, arith, is_empty, word_mod, add64-eq-add,
}
use radahn.Domain.JobState.{JobState, queued, can_transition}
use radahn.Domain.Job.{Job, make_job, record_attempt, transition_to}

module _ {F : Type 0} where
  pub record IsValidJob (job : Job F) : Type 0 where
    pub name_nonempty : is_empty job.name ≡ false
    pub max_positive : 0 < job.max_attempts
    pub attempts_le_max : job.attempt_count ≤ job.max_attempts
    pub max_word : job.max_attempts < word_mod

  -- For a `max_attempts` below 2^64, the constructor of `Job` builds the job that it is given
  -- exactly if the job is valid.
  pub make_job_iff :
      (job : Job F) → job.max_attempts < word_mod → (make_job job ≡ ok job) ↔ IsValidJob job
  unfolding make_job
  make_job_iff job w = (λ h. ground arith, λ h. ground arith)

  pub make_job-eq : (job : Job F) → IsValidJob job → make_job job ≡ ok job
  make_job-eq job v = (make_job_iff job v.max_word).1 v

  -- On a valid job, `record_attempt` succeeds exactly if the job is queued and has attempts left,
  -- and then counts one more.
  pub record_attempt_iff :
      (job : Job F) (next : Job F)
      → IsValidJob job
      → (record_attempt job ≡ ok next) ↔ (
          (job.state ≡ queued)
          × (job.attempt_count < job.max_attempts)
          × (next ≡ record job { attempt_count = job.attempt_count + 1 }))
  unfolding record_attempt
  record_attempt_iff job next v = (
    λ h. ground (arith, add64-eq-add job.attempt_count 1),
    λ h. ground (arith, add64-eq-add job.attempt_count 1),
  )

  pub record_attempt-IsValidJob :
      (job next : Job F) → IsValidJob job → record_attempt job ≡ ok next → IsValidJob next
  record_attempt-IsValidJob job next v h = ground (arith, record_attempt_iff job next v)

  -- `transition_to` succeeds exactly along a legal transition, and then changes the state only.
  pub transition_to_iff :
      (job next : Job F) (to : JobState)
      → (transition_to to job ≡ ok next)
        ↔ ((can_transition job.state to ≡ true) × (next ≡ record job { state = to }))
  unfolding transition_to
  transition_to_iff job next to = (λ h. ground arith, λ h. ground arith)
