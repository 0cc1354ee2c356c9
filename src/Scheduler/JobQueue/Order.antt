-- ===== src/Scheduler/JobQueue/Order.antt =====
-- The order of the job queue.
use mathlib.Core.List.{Perm}
use radahn.Common.{
  ◌≡◌, ◌⊎◌, true, false, arith, str_lt, str_lt_irrefl, str_lt_trans, str_lt_total, Str,
}
use radahn.Common.Sorting.{IsStrictWeak, IsSorted, sort-IsSorted, sort-perm}
use radahn.Domain.Job.{Job}
use radahn.Scheduler.JobQueue.{JobQueue, should_run_before, ordered_jobs}

pub str_lt_asymm : (a b : Str) → str_lt a b ≡ true → str_lt b a ≡ false
str_lt_asymm a b h = ground (arith, str_lt_trans a b a, str_lt_irrefl a)

pub str_lt_compare : (a b c : Str) → str_lt a c ≡ true → (str_lt a b ≡ true) ⊎ (str_lt b c ≡ true)
str_lt_compare a b c h = ground (arith, str_lt_trans b a c, str_lt_total a b)

module _ {F : Type 0} where
  pub should_run_before_asymm :
      (a b : Job F) → should_run_before a b ≡ true → should_run_before b a ≡ false
  unfolding should_run_before
  should_run_before_asymm a b h = ground (arith, str_lt_asymm a.id.value b.id.value)

  pub should_run_before_compare :
      (a b c : Job F)
      → should_run_before a c ≡ true
      → (should_run_before a b ≡ true) ⊎ (should_run_before b c ≡ true)
  unfolding should_run_before
  should_run_before_compare a b c h =
      ground (arith, str_lt_compare a.id.value b.id.value c.id.value)

  pub should_run_before-IsStrictWeak : IsStrictWeak (should_run_before {F = F})
  should_run_before-IsStrictWeak = record {
    asymm = should_run_before_asymm;
    compare = should_run_before_compare;
  }

  -- Two jobs of which neither should run before the other have the same identifier.
  pub should_run_before_total :
      (a b : Job F)
      → should_run_before a b ≡ false
      → should_run_before b a ≡ false
      → a.id.value ≡ b.id.value
  unfolding should_run_before
  should_run_before_total a b h k = ground (arith, str_lt_total a.id.value b.id.value)

  -- `ordered_jobs` gives the jobs of the queue, none behind one that it should run before.
  pub ordered_jobs_lem :
      (jobs : JobQueue F)
      → IsSorted should_run_before (ordered_jobs jobs) × Perm (ordered_jobs jobs) jobs
  unfolding ordered_jobs
  ordered_jobs_lem jobs = (
    sort-IsSorted should_run_before should_run_before-IsStrictWeak jobs,
    sort-perm should_run_before jobs,
  )
