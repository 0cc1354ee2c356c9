-- ===== src/Examples/Histories.antt =====
-- A job from its submission to its success, and the theorems about histories.
use radahn.Common.{
  ℕ, ◌+◌, ◌*◌, ◌≤◌, ◌≡◌, refl, pos, ◌+ℤ◌, ◌-ℤ◌, some, none, List, str_eq, str_lt, add64, sub64,
}
use radahn.Common.Keyed
use radahn.Common.Sorting
use radahn.Domain.JobState.{
  JobState, is_terminal, queued, succeeded, can_transition, validate_transition,
}
use radahn.Domain.JobState.Graph.{Route, leases}
use radahn.Domain.Job.{can_attempt, record_attempt, transition_to}
use radahn.Domain.Resource.{make_resources, check_tags}
use radahn.Domain.Worker.{make_snapshot, has_execution_slot, has_tag, has_text}
use radahn.Domain.WorkerRecord.{
  snapshot, can_reserve, reserve, release, available_resources, allocated_resources, of_snapshot,
}
use radahn.Domain.Eligibility.{
  evaluate_worker, eligible, add_failure, add_missing_tag, fail_if, check_state,
  check_required_tags,
}
use radahn.Scheduler.JobQueue
use radahn.Scheduler.JobQueue.{should_run_before}
use radahn.Scheduler.Policy.{
  select_worker, select_least_loaded, min_element, is_better_candidate, normalized_load,
}
use radahn.Scheduler.Planner.{plan, plan_jobs}
use radahn.Scheduler.WorkerFilter.{find_eligible_workers, collect_eligible}
use radahn.Persistence.JobRepository
use radahn.Persistence.JobRepository.{JobRecord, record_key}
use radahn.Persistence.WorkerRepository
use radahn.Coordinator.State.{Coordinator, for_each}
use radahn.Coordinator.Recover.{make_coordinator, recover_persisted_state}
use radahn.Coordinator.Submit.{submit_job, register_worker}
use radahn.Coordinator.Dispatch.{
  dispatch_once, dispatch_among, snapshots, ask_planner, apply_dispatch_decision, take_job, prepare,
  lease_job, restore_queue,
}
use radahn.Coordinator.Finish.{mark_running, finish_job, mark_succeeded, mark_failed}
use radahn.Coordinator.Reachable.{Reachable, goes_on, dispatches, runs, succeeds, fails}
use radahn.Coordinator.Lifecycle.{Follows}
use radahn.Coordinator.Lifecycle.Changes.{state_changes, life_bound}
use radahn.Coordinator.Lifecycle.History.{
  Calls, no_more, next_call, Calls-Follows, lease_bound, final_stays,
}
use radahn.Examples.Values.{nat_double, nat_double-IsIeee, job_id, worker_id, job_in}
use radahn.Examples.Reachable.{in_use, in_use-Reachable}

abbrev leased_out : Coordinator ℕ
leased_out = (dispatch_once (pos 4500) in_use).1

abbrev at_work : Coordinator ℕ
at_work = (mark_running (pos 4600) (job_id 2) leased_out).1

abbrev done : Coordinator ℕ
done = (mark_succeeded (job_id 2) at_work).1

in_use-Calls : Calls in_use done
in_use-Calls =
    next_call (dispatches (pos 4500))
      (next_call (runs (pos 4600) (job_id 2)) (next_call (succeeds (job_id 2)) no_more))

abbrev first_record : JobRecord ℕ
first_record = record {
  job = job_in queued 2 7;
  assigned_worker_id = none;
  lease_expires_at = none;
}

abbrev last_record : JobRecord ℕ
last_record = record {
  job = record (job_in succeeded 2 7) { attempt_count = 1 };
  assigned_worker_id = some (worker_id 1);
  lease_expires_at = none;
}

first_found : Keyed.find record_key (job_id 2).value in_use.jobs ≡ some first_record
unfolding make_coordinator recover_persisted_state for_each JobRepository.list WorkerRepository.list
    register_worker WorkerRepository.insert WorkerRepository.contains Keyed.has submit_job
    JobRepository.contains JobRepository.insert JobQueue.enqueue JobQueue.contains Keyed.find str_eq
first_found = refl

last_found : Keyed.find record_key (job_id 2).value done.jobs ≡ some last_record
unfolding make_coordinator recover_persisted_state for_each JobRepository.list WorkerRepository.list
    register_worker WorkerRepository.insert WorkerRepository.contains Keyed.has submit_job
    JobRepository.contains JobRepository.insert JobQueue.enqueue JobQueue.contains Keyed.find str_eq
    Keyed.replace Keyed.erase Sorting.insert Sorting.sort str_lt add64 sub64 dispatch_once
    dispatch_among snapshots ask_planner apply_dispatch_decision take_job prepare lease_job
    restore_queue mark_running finish_job mark_succeeded JobRepository.update JobRepository.get
    WorkerRepository.update WorkerRepository.get JobQueue.take JobQueue.ordered_jobs
    should_run_before find_eligible_workers collect_eligible select_worker select_least_loaded
    min_element is_better_candidate normalized_load plan plan_jobs of_snapshot available_resources
    snapshot can_reserve allocated_resources reserve release make_snapshot has_text
    has_execution_slot has_tag can_attempt record_attempt transition_to can_transition
    validate_transition add_failure add_missing_tag eligible fail_if check_state check_required_tags
    evaluate_worker ◌+ℤ◌ ◌-ℤ◌ make_resources check_tags
last_found = refl

done-Reachable : Reachable done
done-Reachable =
    goes_on
      (goes_on (goes_on in_use-Reachable (dispatches (pos 4500))) (runs (pos 4600) (job_id 2)))
      (succeeds (job_id 2))

-- Another call to the same job throws.
abbrev afterwards : Coordinator ℕ
afterwards = (mark_failed (job_id 2) done).1

afterwards_found : Keyed.find record_key (job_id 2).value afterwards.jobs ≡ some last_record
unfolding make_coordinator recover_persisted_state for_each JobRepository.list WorkerRepository.list
    register_worker WorkerRepository.insert WorkerRepository.contains Keyed.has submit_job
    JobRepository.contains JobRepository.insert JobQueue.enqueue JobQueue.contains Keyed.find str_eq
    Keyed.replace Keyed.erase Sorting.insert Sorting.sort str_lt add64 sub64 dispatch_once
    dispatch_among snapshots ask_planner apply_dispatch_decision take_job prepare lease_job
    restore_queue mark_running finish_job mark_succeeded mark_failed JobRepository.update
    JobRepository.get WorkerRepository.update WorkerRepository.get JobQueue.take
    JobQueue.ordered_jobs should_run_before find_eligible_workers collect_eligible select_worker
    select_least_loaded min_element is_better_candidate normalized_load plan plan_jobs of_snapshot
    available_resources snapshot can_reserve allocated_resources reserve release make_snapshot
    has_text has_execution_slot has_tag can_attempt record_attempt transition_to can_transition
    validate_transition add_failure add_missing_tag eligible fail_if check_state check_required_tags
    evaluate_worker ◌+ℤ◌ ◌-ℤ◌ make_resources check_tags
afterwards_found = refl

Calls-Follows_example : Follows in_use done
Calls-Follows_example = Calls-Follows nat_double-IsIeee in_use done in_use-Reachable in_use-Calls

lease_bound_example :
    (entered : List JobState) × Route queued entered succeeded × (1 ≡ 0 + leases entered) × (1 ≤ 3)
lease_bound_example =
    lease_bound nat_double-IsIeee in_use done (job_id 2).value in_use-Reachable in_use-Calls
      {before = first_record} {after = last_record} first_found last_found

life_bound_example : state_changes (job_id 2).value in_use-Calls ≤ 5 + 5 * 3
life_bound_example =
    life_bound nat_double-IsIeee (job_id 2).value in_use-Reachable in_use-Calls first_found

final_stays_example : last_record.job ≡ last_record.job
unfolding is_terminal
final_stays_example =
    final_stays nat_double-IsIeee done afterwards (job_id 2).value done-Reachable
      (next_call (fails (job_id 2)) no_more) {before = last_record} {after = last_record} last_found
      afterwards_found refl
