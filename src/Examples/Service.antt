-- ===== src/Examples/Service.antt =====
-- The service's theorems at concrete coordinators.
use radahn.Common.{
  ℕ, ◌<◌, ◌≤◌, ◌≡◌, ◌⊎◌, refl, pos, arith, false, some, [], ◌∷◌, str_eq, word_mod, is_empty,
}
use radahn.Common.Keyed
use radahn.Domain.Id.{make_id}
use radahn.Domain.JobState.{running}
use radahn.Domain.Resource.{make_resources, check_tags, make_requirements}
use radahn.Domain.Workload.{sleep, make_workload}
use radahn.Domain.Job.{new_job, restore, make_job}
use radahn.Scheduler.JobQueue
use radahn.Coordinator.Submit.{submit_job}
use radahn.Domain.Worker.{make_snapshot}
use radahn.Domain.WorkerRecord.{snapshot, of_snapshot}
use radahn.Persistence.JobRepository
use radahn.Persistence.JobRepository.{JobRecord, record_key}
use radahn.Persistence.WorkerRepository
use radahn.Persistence.WorkerRepository.{StoredWorker, stored_key}
use radahn.Coordinator.State.{Coordinator, for_each}
use radahn.Coordinator.Invariant.{slot, memory, disk, total_held}
use radahn.Coordinator.Lifecycle.History.{Calls}
use radahn.Coordinator.Recover.{make_coordinator, recover_persisted_state, recover_worker}
use radahn.Coordinator.Recover.Recovered.{Storable}
use radahn.Coordinator.Queries.{get_job, find_leased, leased_job_for_worker, worker_snapshot}
use radahn.Scheduler.Policy.{least_loaded}
use radahn.Service.Messages.{
  JobInfo, SubmitJobRequest, RpcOutcome, outcome_succeeded, rpc_sleep, job_info, copy_workload,
  copy_workload_of, copy_sleep, requested_attempts, checked_size_t, rpc_leased, rpc_running,
}
use radahn.Persistence.Sqlite.Values.{
  bind_text, checked_sql_integer, bind_optional_worker_id, bind_optional_lease,
}
use radahn.Service.Stored.{stored_info, as_read, check_insertion}
use radahn.Service.Handlers.{
  submit_new, submit_parts, StatusCode, answer, refuse, failed_precondition, submit_job_handler,
  start_job_handler, acquire_job_handler, acquire_by, acquire_from, finish_job_handler,
}
use radahn.Service.History.{
  submit, serve, serve-Calls, Served, starts, serves, service_never_overcommits,
}
use radahn.Service.Submitted.{Accepts, submit_job_handler_cases}
use radahn.Service.Started.{Runs, start_job_handler_cases}
use radahn.Service.Finished.{Ends, finish_job_handler_cases}
use radahn.Service.Acquired.{acquire_again}
use radahn.Service.Handover.{acquire_then_start}
use radahn.Examples.Values.{
  nat_double, nat_double-IsIeee, job_id, worker_id, small, idle_worker, idle_worker-IsValidWorker,
}
use radahn.Examples.Coordinator.{busy, busy-Inv, leased_record}

abbrev small_request : SubmitJobRequest ℕ
small_request = record {
  id = (job_id 2).value;
  name = b'n' ∷ [];
  priority = pos 7;
  requirements = some small;
  workload = some (record { kind = rpc_sleep; sleep_duration_ms = 1000 });
  max_attempts = 3;
}

three_fits : 3 < word_mod
three_fits = omega arith

serve-Calls_example : Calls busy (serve (submit (pos 5000) small_request) busy)
serve-Calls_example = serve-Calls (submit (pos 5000) small_request) busy three_fits

submit_job_handler_cases_example :
    ((code : StatusCode) × (submit_job_handler (pos 5000) small_request busy ≡ (refuse code, busy)))
    ⊎ ((info : JobInfo ℕ) × (next : Coordinator ℕ) × (submit_job_handler
            (pos 5000)
            small_request
            busy
          ≡ (answer info, next))
        × Accepts (job_id 2).value busy next info)
submit_job_handler_cases_example = submit_job_handler_cases (pos 5000) small_request busy busy-Inv

start_job_handler_cases_example :
    ((code : StatusCode) × (start_job_handler (pos 5000) (worker_id 1).value (job_id 1).value busy
        ≡ (refuse code, busy)))
    ⊎ ((info : JobInfo ℕ) × (next : Coordinator ℕ) × (start_job_handler
            (pos 5000)
            (worker_id 1).value
            (job_id 1).value
            busy
          ≡ (answer info, next))
        × Runs (worker_id 1).value (job_id 1).value next info
        × ((later : _)
            → start_job_handler later (worker_id 1).value (job_id 1).value next
              ≡ (answer info, next)))
start_job_handler_cases_example =
    start_job_handler_cases (pos 5000) (worker_id 1).value (job_id 1).value busy

abbrev running_record : JobRecord ℕ
running_record = record leased_record { job = record leased_record.job { state = running } }

abbrev working : Coordinator ℕ
working = record busy { jobs = running_record ∷ [] }

finish_job_handler_cases_example :
    ((code : StatusCode) × (finish_job_handler
          (worker_id 1).value
          (job_id 1).value
          outcome_succeeded
          working
        ≡ (refuse code, working)))
    ⊎ ((info : JobInfo ℕ) × (next : Coordinator ℕ) × (finish_job_handler
            (worker_id 1).value
            (job_id 1).value
            outcome_succeeded
            working
          ≡ (answer info, next))
        × Ends (worker_id 1).value (job_id 1).value outcome_succeeded working next info
        × ((later : RpcOutcome)
            → finish_job_handler (worker_id 1).value (job_id 1).value later next
              ≡ (refuse failed_precondition, next)))
finish_job_handler_cases_example =
    finish_job_handler_cases (worker_id 1).value (job_id 1).value outcome_succeeded working

busy_acquired :
    acquire_job_handler (pos 5000) (worker_id 1).value busy
    ≡ (answer (some (stored_info leased_record.job)), busy)
unfolding acquire_job_handler acquire_by acquire_from make_id worker_snapshot WorkerRepository.get
    Keyed.find str_eq snapshot make_resources make_snapshot check_tags leased_job_for_worker
    JobRepository.list find_leased
busy_acquired = refl

acquire_again_example :
    acquire_job_handler (pos 6000) (worker_id 1).value busy
    ≡ (answer (some (stored_info leased_record.job)), busy)
acquire_again_example =
    acquire_again nat_double-IsIeee (pos 5000) (pos 6000) (worker_id 1).value busy busy
      (stored_info leased_record.job) busy-Inv busy_acquired

leased_named : is_empty (stored_info leased_record.job).id ≡ false
unfolding stored_info as_read job_info
leased_named = refl

acquire_then_start_example :
    ((stored_info leased_record.job).state ≡ rpc_leased)
    × ((after : Coordinator ℕ) × (started_info : JobInfo ℕ) × (start_job_handler
            (pos 6000)
            (worker_id 1).value
            (stored_info leased_record.job).id
            busy
          ≡ (answer started_info, after))
        × (started_info.state ≡ rpc_running)
        × (started_info.id ≡ (stored_info leased_record.job).id))
acquire_then_start_example =
    acquire_then_start nat_double-IsIeee (pos 5000) (pos 6000) (worker_id 1).value busy busy
      (stored_info leased_record.job) busy-Inv busy_acquired leased_named

abbrev one_worker : StoredWorker ℕ
one_worker = record { worker = idle_worker 1; last_heartbeat = pos 4000 }

one_worker-Storable : Storable {F = ℕ} [] (one_worker ∷ [])
unfolding Keyed.has
one_worker-Storable = record {
  jobs_unique = tt;
  workers_unique = (refl, tt);
  jobs_storable = tt;
  workers_sound = (idle_worker-IsValidWorker 1, tt);
}

abbrev service_started : Coordinator ℕ
service_started = (make_coordinator least_loaded [] (one_worker ∷ []) (pos 5000)).1

abbrev after_submit : Coordinator ℕ
after_submit = serve (submit (pos 5000) small_request) service_started

after_submit-Served : Served after_submit
after_submit-Served =
    serves (starts [] (one_worker ∷ []) (pos 5000) refl one_worker-Storable)
      (submit (pos 5000) small_request) three_fits

after_submit-workers :
    Keyed.find stored_key (worker_id 1).value after_submit.workers ≡ some one_worker
unfolding serve check_insertion bind_text checked_sql_integer bind_optional_worker_id
    bind_optional_lease make_coordinator recover_persisted_state for_each JobRepository.list
    WorkerRepository.list recover_worker snapshot make_resources make_snapshot check_tags
    of_snapshot WorkerRepository.update Keyed.find Keyed.replace str_eq submit_job_handler
    submit_parts submit_new make_id make_requirements copy_workload copy_workload_of copy_sleep
    sleep make_workload requested_attempts checked_size_t new_job restore make_job get_job
    JobRepository.get submit_job JobRepository.insert JobRepository.contains Keyed.has
    JobQueue.enqueue JobQueue.contains
after_submit-workers = refl

service_never_overcommits_example :
    (total_held slot (worker_id 1).value after_submit.jobs ≤ 2)
    × (total_held memory (worker_id 1).value after_submit.jobs ≤ 1000)
    × (total_held disk (worker_id 1).value after_submit.jobs ≤ 1000)
service_never_overcommits_example =
    service_never_overcommits nat_double-IsIeee after_submit (worker_id 1).value {s = one_worker}
      after_submit-Served after_submit-workers
