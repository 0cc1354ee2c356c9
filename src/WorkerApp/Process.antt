-- ===== src/WorkerApp/Process.antt =====
-- apps/worker/main.cpp and heartbeat_loop.cpp: the worker registers, asks for a job until it gets
-- one, runs it, reports its outcome and ends. The service's stub is generated: a parameter.
use mathlib.Core.Option
use radahn.Common.{
  ℕ, zero, suc, ◌==◌, ltb, ℤ, pos, leb_ℤ, Bool, true, false, Option, none, some, List, [], ◌∷◌, Str,
  is_empty, Result, ok, err, throw_if, if◌then◌else◌, ◌>>=◌, ◌>>◌,
}
use radahn.Domain.Double.{Double}
use radahn.Persistence.Sqlite.Values.{max_int64}
use radahn.Service.Messages.{
  JobInfo, RpcWorkload, RpcWorkloadKind, rpc_sleep, rpc_unspecified_kind, rpc_other_kind,
  RegisterWorkerRequest, RegisterWorkerResponse, RpcOutcome, outcome_succeeded, outcome_failed,
}

-- A call gives `none` for a status that is not OK, and changes the world, which the service and
-- other processes share. `pause` is what happens while the worker sleeps for two seconds.
pub record Stub (F W : Type 0) : Type 0 where
  pub register : RegisterWorkerRequest F → W → Option RegisterWorkerResponse × W
  pub acquire : Str → W → Option (Option (JobInfo F)) × W
  pub start : Str → Str → W → Option (JobInfo F) × W
  pub finish : Str → Str → RpcOutcome → W → Option (JobInfo F) × W
  pub pause : W → W

abbrev pub gibibyte : ℕ
gibibyte = 1073741824

abbrev pub at_least_one : ℕ → ℕ
at_least_one zero = 1
at_least_one (suc n) = suc n

abbrev pub at_most_four : ℕ → ℕ
at_most_four n = if ltb 4 n then 4 else n

module _ {F : Type 0} ⦃d : Double F⦄ where
  -- `hardware` is `std::thread::hardware_concurrency()`, and `tags` are the platform's.
  unfoldable pub registration : ℕ → List Str → Str → RegisterWorkerRequest F
  registration hardware tags worker_id =
      let detected = at_least_one hardware in
      record {
        worker_id = worker_id;
        resources = some (record {
          total_cpu_cores = d.of_size detected;
          available_cpu_cores = d.of_size detected;
          total_memory_bytes = 8589934592;
          available_memory_bytes = 8589934592;
          total_disk_bytes = 53687091200;
          available_disk_bytes = 53687091200;
          gpu_available = false;
        });
        running_jobs = 0;
        max_concurrent_jobs = at_most_four detected;
        tags = tags;
      }

unfoldable pub execute_kind : RpcWorkloadKind → ℕ → Bool
execute_kind rpc_sleep duration_ms =
    if duration_ms == 0 then false else if ltb max_int64 duration_ms then false else true
execute_kind rpc_unspecified_kind duration_ms = false
execute_kind (rpc_other_kind n) duration_ms = false

-- Whether the job's workload ran; the sleep itself has no effect on the result.
unfoldable pub execute_job : Option RpcWorkload → Bool
unfolding execute_kind
execute_job none = false
execute_job (some workload) = execute_kind workload.kind workload.sleep_duration_ms

abbrev pub outcome_of : Bool → RpcOutcome
outcome_of true = outcome_succeeded
outcome_of false = outcome_failed

abbrev pub exit_code : {A W : Type 0} → Option A × W → Option ℕ × W
exit_code (none, w) = (some 1, w)
exit_code (some a, w) = (some 0, w)

-- The exceptions of the heartbeat loop's constructor.
pub data Fault : Type 0 where
  heartbeat_worker_empty heartbeat_interval_not_positive : Fault

unfoldable pub validate_worker_id : Str → Result Fault Str
validate_worker_id worker_id = do throw_if (is_empty worker_id) heartbeat_worker_empty; ok worker_id

unfoldable pub validate_interval : ℤ → Result Fault ℤ
validate_interval interval = do
  throw_if (leb_ℤ interval (pos 0)) heartbeat_interval_not_positive
  ok interval

-- The constructor's checks. Its thread sends heartbeats while the process lives.
unfoldable pub make_heartbeat_loop : Str → ℤ → Result Fault (Str × ℤ)
unfolding validate_worker_id validate_interval
make_heartbeat_loop worker_id interval = do
  checked_id ← validate_worker_id worker_id
  checked_interval ← validate_interval interval
  ok (checked_id, checked_interval)

-- How the process ends; an exception that `main` does not catch aborts it.
pub data Ending : Type 0 where
  exits : ℕ → Ending
  aborts : Fault → Ending

abbrev pub local_worker : Str
local_worker =
    b'l' ∷ b'o' ∷ b'c' ∷ b'a' ∷ b'l' ∷ b'-' ∷ b'w' ∷ b'o' ∷ b'r' ∷ b'k' ∷ b'e' ∷ b'r' ∷ []

-- The arguments after the program's name: the worker's identifier, and the coordinator's address,
-- to which the stub is connected.
abbrev pub worker_argument : List Str → Option Str
worker_argument [] = some local_worker
worker_argument (worker_id ∷ []) = some worker_id
worker_argument (worker_id ∷ address ∷ []) = some worker_id
worker_argument (worker_id ∷ address ∷ other ∷ rest) = none

module _ {F W : Type 0} where
  abbrev pub run_started : Stub F W → Str → JobInfo F → Option (JobInfo F) × W → Option ℕ × W
  run_started stub worker_id job (none, w) = (some 1, w)
  run_started stub worker_id job (some response, w) =
      exit_code (stub.finish worker_id job.id (outcome_of (execute_job (some job.workload))) w)

  abbrev pub run_acquired : Stub F W → Str → Option (Option (JobInfo F)) × W → Option ℕ × W
  run_acquired stub worker_id (none, w) = (some 1, w)
  run_acquired stub worker_id (some none, w) = (none, stub.pause w)
  run_acquired stub worker_id (some (some job), w) =
      run_started stub worker_id job (stub.start worker_id job.id w)

  -- The body of the loop: the exit code, or `none` to go on.
  unfoldable pub one_round : Stub F W → Str → W → Option ℕ × W
  one_round stub worker_id w = run_acquired stub worker_id (stub.acquire worker_id w)

  -- The loop, for at most this many rounds.
  unfoldable pub rounds : Stub F W → Str → ℕ → W → Option ℕ × W
  rounds stub worker_id zero w = (none, w)
  rounds stub worker_id (suc n) w = elim (one_round stub worker_id w).0 [
    | some code ↦ (some code, (one_round stub worker_id w).1)
    | none ↦ rounds stub worker_id n (one_round stub worker_id w).1
  ]

  -- What follows a registration; the heartbeats are two seconds apart.
  unfoldable pub after_registration :
      {A : Type 0} → Stub F W → Str → ℕ → Option A × W → Option Ending × W
  unfolding make_heartbeat_loop rounds
  after_registration stub worker_id n (none, w) = (some (exits 1), w)
  after_registration stub worker_id n (some response, w) =
      elim (make_heartbeat_loop worker_id (pos 2000)) [
        | err fault ↦ (some (aborts fault), w)
        | ok loop ↦ (Option.map exits (rounds stub worker_id n w).0, (rounds stub worker_id n w).1)
      ]

module _ {F W : Type 0} ⦃d : Double F⦄ where
  abbrev pub run_worker : Stub F W → ℕ → List Str → ℕ → Option Str → W → Option Ending × W
  run_worker stub hardware tags n none w = (some (exits 1), w)
  run_worker stub hardware tags n (some worker_id) w =
      after_registration stub worker_id n (stub.register (registration hardware tags worker_id) w)

  -- `main`.
  unfoldable pub worker_main : Stub F W → ℕ → List Str → List Str → ℕ → W → Option Ending × W
  unfolding after_registration registration
  worker_main stub hardware tags arguments n w =
      run_worker stub hardware tags n (worker_argument arguments) w
