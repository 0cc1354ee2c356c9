-- ===== src/Scheduler/JobQueue.antt =====
-- libs/scheduler/src/job_queue.cpp: the jobs that wait, and the order in which they run.
pub mod Order
pub mod Pop
use radahn.Common.{
  ℕ, zero, suc, ltb_ℤ, eqb_ℤ, Bool, not, Option, none, some, List, [], ◌∷◌, ◌++◌, Str, str_lt,
  length, is_empty, get_elem?, if◌then◌else◌, ok, throw_if, ◌>>=◌, ◌>>◌,
}
use radahn.Common.Keyed
use radahn.Common.Sorting
use radahn.Domain.Id.{JobId}
use radahn.Domain.JobState.{queued, state_eq}
use radahn.Domain.Job.{Job}
use radahn.Domain.Error.{Outcome, enqueue_not_queued, enqueue_duplicate}

-- The vector `jobs_`.
abbrev pub JobQueue : Type 0 → Type 0
JobQueue F = List (Job F)

module _ {ℓ} {A : Type ℓ} where
  -- `erase` of an iterator, here a position.
  unfoldable pub erase_at : ℕ → List A → List A
  erase_at i [] = []
  erase_at zero (x ∷ xs) = xs
  erase_at (suc i) (x ∷ xs) = x ∷ erase_at i xs

module _ {F : Type 0} where
  abbrev pub job_key : Job F → Str
  job_key job = job.id.value

  -- Highest priority first, then the oldest, then the smallest identifier.
  unfoldable pub should_run_before : Job F → Job F → Bool
  should_run_before left right =
      if not (eqb_ℤ left.priority right.priority)
      then ltb_ℤ right.priority left.priority
      else if not (eqb_ℤ left.created_at right.created_at)
      then ltb_ℤ left.created_at right.created_at
      else str_lt left.id.value right.id.value

  unfoldable pub contains : JobId → JobQueue F → Bool
  contains job_id jobs = Keyed.has job_key job_id.value jobs

  unfoldable pub enqueue : Job F → JobQueue F → Outcome (JobQueue F)
  unfolding contains
  enqueue job jobs = do
    throw_if (not (state_eq job.state queued)) enqueue_not_queued
    throw_if (contains job.id jobs) enqueue_duplicate
    ok (jobs ++ job ∷ [])

  -- The loop of `pop_next`: `best` stands at position `best_job`, and `rest` begins at `iterator`.
  unfoldable pub find_best : ℕ → Job F → ℕ → List (Job F) → ℕ × Job F
  find_best best_job best iterator [] = (best_job, best)
  find_best best_job best iterator (x ∷ rest) =
      let better = should_run_before x best in
      find_best (if better then iterator else best_job) (if better then x else best) (suc iterator)
        rest

  unfoldable pub pop_next : JobQueue F → Option (Job F) × JobQueue F
  unfolding find_best erase_at
  pop_next [] = (none, [])
  pop_next (first ∷ rest) =
      let (best_job, best) = find_best 0 first 1 rest in
      (some best, erase_at best_job (first ∷ rest))

  unfoldable pub take : JobId → JobQueue F → Option (Job F) × JobQueue F
  take job_id jobs = elim (Keyed.find job_key job_id.value jobs) [
    | none ↦ (none, jobs)
    | some job ↦ (some job, Keyed.erase job_key job_id.value jobs)
  ]

  unfoldable pub ordered_jobs : JobQueue F → List (Job F)
  ordered_jobs jobs = Sorting.sort should_run_before jobs

  unfoldable pub size : JobQueue F → ℕ
  size jobs = length jobs

  unfoldable pub empty : JobQueue F → Bool
  empty jobs = is_empty jobs
