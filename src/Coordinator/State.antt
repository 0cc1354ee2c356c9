-- ===== src/Coordinator/State.antt =====
-- The coordinator's fields, and calls that change them and may throw: an exception leaves the
-- changes that were made before it.
use radahn.Common.{ℕ, suc, ℤ, Bool, ◌||◌, Option, none, some, List, [], ◌∷◌, ok, err, if◌then◌else◌}
use radahn.Domain.Id.{JobId}
use radahn.Domain.JobState.{
  JobState, leased, running, cancellation_requested, succeeded, failed, cancelled, state_eq,
}
use radahn.Domain.Job.{Job, restore}
use radahn.Domain.WorkerRecord.{WorkerRecord}
use radahn.Domain.Error.{Error, Outcome}
use radahn.Scheduler.JobQueue.{JobQueue}
use radahn.Scheduler.JobQueue
use radahn.Scheduler.Policy.{Policy}
use radahn.Persistence.JobRepository.{JobRecord, JobRepository}
use radahn.Persistence.JobRepository
use radahn.Persistence.WorkerRepository.{WorkerRepository}
use radahn.Persistence.WorkerRepository

pub record Coordinator (F : Type 0) : Type 0 where
  pub jobs : JobRepository F
  pub workers : WorkerRepository F
  pub lease_duration : ℤ  -- in ticks of the system clock
  pub queue : JobQueue F
  pub policy : Policy  -- of the planner

abbrev pub M : Type 0 → Type 0 → Type 0
M F A = Coordinator F → Outcome A × Coordinator F

module _ {F : Type 0} where
  abbrev pub pure : {A : Type 0} → A → M F A
  pure a c = (ok a, c)

  abbrev pub throw : {A : Type 0} → Error → M F A
  throw e c = (err e, c)

  abbrev pub lift : {A : Type 0} → Outcome A → M F A
  lift r c = (r, c)

  abbrev pub and_then : {A B : Type 0} → Outcome A → (A → M F B) → M F B
  and_then (ok a) f c = f a c
  and_then (err e) f c = (err e, c)

  infixl 5 ◌>>=◌ ◌>>◌
  abbrev pub ◌>>=◌ : {A B : Type 0} → M F A → (A → M F B) → M F B
  ◌>>=◌ m f c = and_then (m c).0 f (m c).1

  abbrev pub ◌>>◌ : {B : Type 0} → M F (Unit {0}) → M F B → M F B
  m >> k = m >>= λ _. k

  abbrev pub clean_up : {A : Type 0} → Outcome A → M F (Unit {0}) → M F A
  clean_up (ok a) cleanup c = (ok a, c)
  clean_up (err e) cleanup c = (err e, (cleanup c).1)

  -- `try { m } catch (...) { try { cleanup } catch (...) {} throw; }`.
  abbrev pub on_error : {A : Type 0} → M F A → M F (Unit {0}) → M F A
  on_error m cleanup c = clean_up (m c).0 cleanup (m c).1

  -- A component's call: what it returns, and the component that it leaves if it does not throw.
  abbrev pub on_jobs : Outcome (JobRepository F) → M F (Unit {0})
  on_jobs (ok jobs) c = (ok tt, record c { jobs = jobs })
  on_jobs (err e) c = (err e, c)

  abbrev pub on_workers : Outcome (WorkerRepository F) → M F (Unit {0})
  on_workers (ok workers) c = (ok tt, record c { workers = workers })
  on_workers (err e) c = (err e, c)

  abbrev pub on_queue : Outcome (JobQueue F) → M F (Unit {0})
  on_queue (ok queue) c = (ok tt, record c { queue = queue })
  on_queue (err e) c = (err e, c)

  abbrev pub insert_job : JobRecord F → M F (Unit {0})
  insert_job r c = on_jobs (JobRepository.insert r c.jobs) c

  abbrev pub update_job : JobRecord F → M F (Unit {0})
  update_job r c = on_jobs (JobRepository.update r c.jobs) c

  abbrev pub erase_job : JobId → M F (Unit {0})
  erase_job id c = on_jobs (JobRepository.erase id c.jobs) c

  abbrev pub update_worker : WorkerRecord F → M F (Unit {0})
  update_worker w c = on_workers (WorkerRepository.update w c.workers) c

  abbrev pub enqueue_job : Job F → M F (Unit {0})
  enqueue_job job c = on_queue (JobQueue.enqueue job c.queue) c

  -- `if (!value.has_value()) throw e;`
  abbrev pub or_throw : {A : Type 0} → Option A → Error → M F A
  or_throw none e c = (err e, c)
  or_throw (some a) e c = (ok a, c)

  abbrev pub read : {A : Type 0} → (Coordinator F → A) → M F A
  read f c = (ok (f c), c)

  -- `try { m } catch (...) {}`.
  abbrev pub attempt : M F (Unit {0}) → M F (Unit {0})
  attempt m c = (ok tt, (m c).1)

  -- `Job::restore` with the job's own values and another state.
  unfoldable pub restore_as : JobState → Job F → Outcome (Job F)
  unfolding restore
  restore_as state job =
      restore job.id job.name job.priority job.requirements job.workload state job.created_at
        job.attempt_count job.max_attempts

  -- A loop whose body says whether to count the element.
  unfoldable pub count_each : {A : Type 0} → (A → M F Bool) → List A → ℕ → M F ℕ
  count_each body [] n c = (ok n, c)
  count_each body (x ∷ xs) n c = elim (body x c).0 [
    | err e ↦ (err e, (body x c).1)
    | ok b ↦ count_each body xs (if b then suc n else n) (body x c).1
  ]

  unfoldable pub for_each : {A : Type 0} → (A → M F (Unit {0})) → List A → M F (Unit {0})
  for_each body [] c = (ok tt, c)
  for_each body (x ∷ xs) c = elim (body x c).0 [
    | err e ↦ (err e, (body x c).1)
    | ok u ↦ for_each body xs (body x c).1
  ]

-- `is_active_state` and `is_finished_state`.
unfoldable pub is_active_state : JobState → Bool
is_active_state state =
    state_eq state leased || (state_eq state running || state_eq state cancellation_requested)

unfoldable pub is_finished_state : JobState → Bool
is_finished_state state =
    state_eq state succeeded || (state_eq state failed || state_eq state cancelled)
