-- ===== src/Service/Messages.antt =====
-- The messages of proto/, and their conversions from and to the values of the domain.
use radahn.Common.{
  ℕ, ltb, ◌==◌, ◌-◌, ℤ, pos, Bool, Option, List, Str, word_mod, ok, err, throw_if, if◌then◌else◌,
  ◌>>=◌, ◌>>◌,
}
use radahn.Domain.Double.{Double}
use radahn.Domain.Error.{
  Outcome, requested_sleep_zero, requested_sleep_range, unsupported_workload, requested_size_range,
}
use radahn.Domain.Id.{worker, make_id}
use radahn.Domain.Job.{Job, default_max_attempts}
use radahn.Domain.Worker.{online, make_snapshot}
use radahn.Domain.WorkerRecord.{WorkerRecord, of_snapshot}
use radahn.Domain.JobState.{
  JobState, queued, leased, running, retry_wait, cancellation_requested, succeeded, failed,
  cancelled,
}
use radahn.Domain.Resource.{ResourceRequirements, WorkerResources, make_resources}
use radahn.Domain.Workload.{WorkloadKind, WorkloadSpec, sleeping, sleep}
use radahn.Persistence.Sqlite.Values.{max_int64, to_ms, cast_uint64}

-- JobState, WorkloadKind and JobOutcome; an enumeration of a message may hold other integers too.
pub data RpcJobState : Type 0 where
  rpc_unspecified rpc_queued rpc_leased rpc_running rpc_retry_wait : RpcJobState
  rpc_cancellation_requested rpc_succeeded rpc_failed rpc_cancelled : RpcJobState

pub data RpcWorkloadKind : Type 0 where
  rpc_sleep : RpcWorkloadKind
  rpc_unspecified_kind : RpcWorkloadKind
  rpc_other_kind : ℤ → RpcWorkloadKind

pub data RpcOutcome : Type 0 where
  outcome_succeeded outcome_failed outcome_unspecified : RpcOutcome
  outcome_other : ℤ → RpcOutcome

-- WorkloadSpec. Proto's ResourceRequirements and WorkerResources have the domain's fields.
pub record RpcWorkload : Type 0 where
  pub kind : RpcWorkloadKind
  pub sleep_duration_ms : ℕ

pub record JobInfo (F : Type 0) : Type 0 where
  pub id : Str
  pub name : Str
  pub priority : ℤ
  pub state : RpcJobState
  pub requirements : ResourceRequirements F
  pub created_at_unix_ms : ℤ
  pub workload : RpcWorkload
  pub attempt_count : ℕ
  pub max_attempts : ℕ

-- `none` is a message field that is not set.
pub record SubmitJobRequest (F : Type 0) : Type 0 where
  pub id : Str
  pub name : Str
  pub priority : ℤ
  pub requirements : Option (ResourceRequirements F)
  pub workload : Option RpcWorkload
  pub max_attempts : ℕ

pub record RegisterWorkerRequest (F : Type 0) : Type 0 where
  pub worker_id : Str
  pub resources : Option (WorkerResources F)
  pub running_jobs : ℕ
  pub max_concurrent_jobs : ℕ
  pub tags : List Str

pub record RegisterWorkerResponse : Type 0 where
  pub worker_id : Str
  pub already_registered : Bool

unfoldable pub to_rpc_job_state : JobState → RpcJobState
to_rpc_job_state queued = rpc_queued
to_rpc_job_state leased = rpc_leased
to_rpc_job_state running = rpc_running
to_rpc_job_state retry_wait = rpc_retry_wait
to_rpc_job_state cancellation_requested = rpc_cancellation_requested
to_rpc_job_state succeeded = rpc_succeeded
to_rpc_job_state failed = rpc_failed
to_rpc_job_state cancelled = rpc_cancelled

abbrev pub rpc_kind : WorkloadKind → RpcWorkloadKind
rpc_kind sleeping = rpc_sleep

unfoldable pub workload_info : WorkloadSpec → RpcWorkload
workload_info workload = record {
  kind = rpc_kind workload.kind;
  sleep_duration_ms = cast_uint64 workload.sleep_duration;
}

unfoldable pub job_info : {F : Type 0} → Job F → JobInfo F
unfolding to_rpc_job_state workload_info
job_info job = record {
  id = job.id.value;
  name = job.name;
  priority = job.priority;
  state = to_rpc_job_state job.state;
  requirements = job.requirements;
  created_at_unix_ms = to_ms job.created_at;
  workload = workload_info job.workload;
  attempt_count = job.attempt_count;
  max_attempts = job.max_attempts;
}

unfoldable pub copy_sleep : ℕ → Outcome WorkloadSpec
copy_sleep duration_ms = do
  throw_if (duration_ms == 0) requested_sleep_zero
  throw_if (ltb max_int64 duration_ms) requested_sleep_range
  sleep (pos duration_ms)

unfoldable pub copy_workload_of : RpcWorkloadKind → ℕ → Outcome WorkloadSpec
unfolding copy_sleep
copy_workload_of rpc_sleep duration_ms = copy_sleep duration_ms
copy_workload_of rpc_unspecified_kind duration_ms = err unsupported_workload
copy_workload_of (rpc_other_kind n) duration_ms = err unsupported_workload

unfoldable pub copy_workload : RpcWorkload → Outcome WorkloadSpec
unfolding copy_workload_of
copy_workload workload = copy_workload_of workload.kind workload.sleep_duration_ms

unfoldable pub checked_size_t : ℕ → Outcome ℕ
checked_size_t value = do throw_if (ltb (word_mod - 1) value) requested_size_range; ok value

-- The number of attempts that a client asks for; zero asks for the default.
unfoldable pub requested_attempts : ℕ → Outcome ℕ
unfolding checked_size_t
requested_attempts n = if n == 0 then ok default_max_attempts else checked_size_t n

-- The worker that a registration describes.
unfoldable pub requested_worker :
    {F : Type 0} ⦃d : Double F⦄
    → RegisterWorkerRequest F
    → WorkerResources F
    → Outcome (WorkerRecord F)
unfolding checked_size_t
requested_worker request rpc_resources = do
  worker_id ← make_id worker request.worker_id
  running_jobs ← checked_size_t request.running_jobs
  max_concurrent_jobs ← checked_size_t request.max_concurrent_jobs
  resources ← make_resources rpc_resources
  s ← make_snapshot (record {
    id = worker_id;
    state = online;
    resources = resources;
    running_jobs = running_jobs;
    max_concurrent_jobs = max_concurrent_jobs;
    tags = request.tags;
  })
  ok (of_snapshot s)
