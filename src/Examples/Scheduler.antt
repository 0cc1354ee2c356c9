-- ===== src/Examples/Scheduler.antt =====
-- The theorems about the queue, the policies and the planner at concrete values.
use mathlib.Core.List.{Perm, Mem}
use radahn.Common.{
  ℕ, ◌<◌, ◌≡◌, refl, false, none, some, List, [], ◌∷◌, arith, All, length, str_eq, str_lt,
}
use radahn.Common.Sorting.{sort, insert}
use radahn.Domain.JobState.{queued}
use radahn.Domain.Worker.{WorkerSnapshot, has_tag, has_text, has_execution_slot}
use radahn.Domain.Eligibility
use radahn.Domain.Eligibility.Sound.{Meets}
use radahn.Scheduler.JobQueue.{JobQueue, should_run_before, find_best, pop_next, ordered_jobs}
use radahn.Scheduler.JobQueue.Pop.{pop_next_best}
use radahn.Scheduler.WorkerFilter.{collect_eligible, find_eligible_workers}
use radahn.Scheduler.Policy.{
  least_loaded, least_loaded_name, SchedulingDecision, normalized_load, select_worker,
  select_least_loaded, select_round_robin, min_element,
}
use radahn.Scheduler.Policy.LeastLoaded.{IsBest, IsChecked, least_loaded-IsBest}
use radahn.Scheduler.Policy.RoundRobin.{round_robin_decision, index_after, round_robin_fair}
use radahn.Scheduler.Planner.{DispatchDecision, plan, plan_jobs}
use radahn.Scheduler.Planner.Choice.{IsPlanned, plan_lem}
use radahn.Examples.Values.{
  nat_double, nat_double-IsIeee, small, job_id, worker_id, job_in, idle_worker-IsValidWorker,
  idle_view,
}

abbrev two_jobs : JobQueue ℕ
two_jobs = job_in queued 1 3 ∷ job_in queued 2 5 ∷ []

abbrev one_worker : List (WorkerSnapshot ℕ)
one_worker = idle_view 1 ∷ []

abbrev two_workers : List (WorkerSnapshot ℕ)
two_workers = idle_view 2 ∷ idle_view 1 ∷ []

pop_next_two : (pop_next two_jobs).0 ≡ some (job_in queued 2 5)
unfolding pop_next find_best should_run_before
pop_next_two = refl

pop_next_best_example :
    All (λ k. should_run_before k (job_in queued 2 5) ≡ false) two_jobs
    × Perm two_jobs (job_in queued 2 5 ∷ (pop_next two_jobs).1)
pop_next_best_example = pop_next_best two_jobs (job_in queued 2 5) pop_next_two

tied : should_run_before (job_in queued 1 3) (job_in queued 1 3) ≡ false
unfolding should_run_before str_lt
tied = refl

idle-Meets : Meets small (idle_view 1)
unfolding has_tag has_text str_eq
idle-Meets = ground arith

abbrev idle_decision : SchedulingDecision ℕ
idle_decision = record {
  worker_id = worker_id 1;
  policy_name = least_loaded_name;
  eligible_worker_count = 1;
  score = some 0;
}

select_one : (select_worker least_loaded small one_worker).0 ≡ some idle_decision
unfolding select_worker select_least_loaded min_element normalized_load find_eligible_workers
    collect_eligible sort insert Eligibility.evaluate_worker Eligibility.eligible
    Eligibility.fail_if Eligibility.check_state Eligibility.check_required_tags
    Eligibility.add_failure Eligibility.add_missing_tag has_tag has_text has_execution_slot str_eq
select_one = refl

one_worker-IsChecked : All (IsChecked nat_double-IsIeee) one_worker
one_worker-IsChecked = ground (arith, idle_worker-IsValidWorker 1)

least_loaded-IsBest_example :
    (w : WorkerSnapshot ℕ) × (worker_id 1 ≡ w.id)
    × (1 ≡ length (find_eligible_workers small one_worker))
    × (some 0 ≡ some (normalized_load w))
    × IsBest nat_double-IsIeee w (find_eligible_workers small one_worker)
least_loaded-IsBest_example =
    least_loaded-IsBest nat_double-IsIeee small one_worker idle_decision one_worker-IsChecked
      select_one

round_robin_fair_example :
    (k : ℕ) × (k < 2)
    × ((select_round_robin (index_after k 7 two_workers) two_workers).0
        ≡ some (round_robin_decision (idle_view 1) 2))
round_robin_fair_example = round_robin_fair 7 1 two_workers (idle_view 1) refl

abbrev planned : DispatchDecision ℕ
planned = record {
  job_id = job_id 2;
  worker_id = worker_id 1;
  policy_name = least_loaded_name;
  eligible_worker_count = 1;
  score = some 0;
}

plan_two : (plan least_loaded two_jobs one_worker).0 ≡ some planned
unfolding plan plan_jobs ordered_jobs should_run_before select_worker select_least_loaded
    min_element normalized_load find_eligible_workers collect_eligible sort insert
    Eligibility.evaluate_worker Eligibility.eligible Eligibility.fail_if Eligibility.check_state
    Eligibility.check_required_tags Eligibility.add_failure Eligibility.add_missing_tag has_tag
    has_text has_execution_slot str_eq
plan_two = refl

plan_lem_example :
    IsPlanned
      (λ job. Mem job two_jobs)
      (λ w. Mem w one_worker)
      planned
      one_worker
      (ordered_jobs two_jobs)
plan_lem_example = plan_lem least_loaded two_jobs one_worker planned plan_two

no_plan : (plan {F = ℕ} least_loaded two_jobs []).0 ≡ none
unfolding plan plan_jobs ordered_jobs should_run_before select_worker select_least_loaded
    find_eligible_workers collect_eligible sort insert
no_plan = refl
