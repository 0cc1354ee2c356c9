-- ===== src/Cli/Submit.antt =====
-- The client's commands. The service's stub is generated: a parameter.
use radahn.Common.{ℕ, ℤ, Option, none, some, List, [], ◌∷◌, Str, Result, ok, err, ◌>>=◌}
use radahn.Service.Messages.{JobInfo, rpc_sleep, SubmitJobRequest}
use radahn.Cli.Parse.{CliError, default_options, parse_int, parse_double, parse_mib, read_options}

-- A call gives `none` for a status that is not OK, and changes the world.
pub record ClientStub (F W : Type 0) : Type 0 where
  pub ping : Str → W → Option (Str × Str) × W
  pub submit_job : SubmitJobRequest F → W → Option (JobInfo F) × W
  pub get_job : Str → W → Option (JobInfo F) × W
  pub list_jobs : W → Option (List (JobInfo F)) × W

-- The conversions of the C++ library.
pub record Conversions (F : Type 0) : Type 0 where
  pub stol : Str → Option (ℤ × ℕ)
  pub stod : Str → Option (F × ℕ)
  pub stoull : Str → Option (ℕ × ℕ)

abbrev pub default_sleep_duration_ms : ℕ
default_sleep_duration_ms = 10000

abbrev pub priority_field : Str
priority_field = b'p' ∷ b'r' ∷ b'i' ∷ b'o' ∷ b'r' ∷ b'i' ∷ b't' ∷ b'y' ∷ []

abbrev pub cpu_field : Str
cpu_field = b'c' ∷ b'p' ∷ b'u' ∷ []

abbrev pub memory_field : Str
memory_field = b'm' ∷ b'e' ∷ b'm' ∷ b'o' ∷ b'r' ∷ b'y' ∷ b'-' ∷ b'm' ∷ b'i' ∷ b'b' ∷ []

abbrev pub disk_field : Str
disk_field = b'd' ∷ b'i' ∷ b's' ∷ b'k' ∷ b'-' ∷ b'm' ∷ b'i' ∷ b'b' ∷ []

module _ {F : Type 0} (convert : Conversions F) where
  -- The request that the arguments after `job submit` make.
  unfoldable pub submit_request :
      Str → Str → Str → Str → Str → Str → List Str → Result CliError (SubmitJobRequest F)
  unfolding parse_int parse_double parse_mib read_options
  submit_request id name priority cpu memory disk options = do
    priority_value ← parse_int convert.stol priority priority_field
    cpu_cores ← parse_double convert.stod cpu cpu_field
    memory_bytes ← parse_mib convert.stoull memory memory_field
    disk_bytes ← parse_mib convert.stoull disk disk_field
    chosen ← read_options convert.stol default_options options
    ok (record {
      id = id;
      name = name;
      priority = priority_value;
      requirements = some (record {
        cpu_cores = cpu_cores;
        memory_bytes = memory_bytes;
        disk_bytes = disk_bytes;
        requires_gpu = chosen.requires_gpu;
        required_tags = chosen.tags;
      });
      workload = some (record { kind = rpc_sleep; sleep_duration_ms = default_sleep_duration_ms });
      max_attempts = chosen.max_attempts;
    })

module _ {F W : Type 0} (convert : Conversions F) (stub : ClientStub F W) where
  -- The exit code of a call.
  abbrev pub code_of : {A : Type 0} → Option A × W → ℕ × W
  code_of (none, w) = (1, w)
  code_of (some response, w) = (0, w)

  abbrev pub send_request : Result CliError (SubmitJobRequest F) → W → ℕ × W
  send_request (err e) w = (1, w)
  send_request (ok request) w = code_of (stub.submit_job request w)

  -- The arguments are those after `job submit`.
  unfoldable pub run_submit_job : List Str → W → ℕ × W
  unfolding submit_request
  run_submit_job (id ∷ name ∷ priority ∷ cpu ∷ memory ∷ disk ∷ options) w =
      send_request (submit_request convert id name priority cpu memory disk options) w
  run_submit_job arguments w = (1, w)
