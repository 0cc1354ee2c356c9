-- ===== src/Examples/Apps.antt =====
-- The theorems about the worker process and the client at concrete inputs.
use mathlib.Core.Option
use radahn.Common.{
  arith, ◌-◌, ℕ, ◌*◌, ◌<◌, ◌≡◌, ◌↔◌, refl, ℤ, pos, true, false, some, none, Option, [], ◌∷◌, ◌++◌,
  Str, str_eq, length, word_mod, ok,
}
use radahn.Common.Keyed
use radahn.Domain.Resource.{ResourceRequirements}
use radahn.Domain.Resource.Validity.{IsValidRequirements}
use radahn.Domain.Workload.{WorkloadSpec}
use radahn.Persistence.JobRepository.{record_key}
use radahn.Coordinator.State.{Coordinator}
use radahn.Service.Messages.{JobInfo, RpcWorkload, SubmitJobRequest, rpc_sleep, copy_workload}
use radahn.Service.Stored.{has_too_long, has_twice}
use radahn.Service.Handlers.{
  Reply, answer, refuse, submit_job_handler, register_worker_handler, acquire_job_handler,
  start_job_handler, finish_job_handler,
}
use radahn.Service.Submitted.{Accepts}
use radahn.WorkerApp.Process.{Stub, rounds, execute_job}
use radahn.WorkerApp.Session.{Session, rounds_iff}
use radahn.WorkerApp.Workloads.{execute_job_iff}
use radahn.Cli.Parse.{
  Options, default_options, mebibyte, max_attempts_flag, parse_int, parse_double, parse_mib,
  parse_attempts, read_options, not_a_size,
}
use radahn.Cli.Bounds.{parse_mib_iff}
use radahn.Cli.Read.{gpu_arguments, tag_arguments, read_options-arguments}
use radahn.Cli.Submit.{Conversions, submit_request, default_sleep_duration_ms}
use radahn.Cli.Requests.{client_submits}
use radahn.Examples.Values.{nat_double, job_id, worker_id}
use radahn.Examples.Coordinator.{busy, busy-Inv}

abbrev answered : {A : Type 0} → Reply A × Coordinator ℕ → Option A × Coordinator ℕ
answered (answer a, c) = (some a, c)
answered (refuse code, c) = (none, c)

-- The service itself behind the stub, at one time.
abbrev direct : Stub ℕ (Coordinator ℕ)
direct = record {
  register = λ request c. answered (register_worker_handler (pos 5000) (pos 5000) request c);
  acquire = λ w c. answered (acquire_job_handler (pos 5000) w c);
  start = λ w id c. answered (start_job_handler (pos 5000) w id c);
  finish = λ w id outcome c. answered (finish_job_handler w id outcome c);
  pause = λ c. c;
}

rounds_iff_example :
    ((n : ℕ) × (rounds direct (worker_id 1).value n busy ≡ (some 0, busy)))
    ↔ Session direct (worker_id 1).value busy 0 busy
rounds_iff_example = rounds_iff direct (worker_id 1).value busy busy 0

abbrev sleep_message : RpcWorkload
sleep_message = record { kind = rpc_sleep; sleep_duration_ms = 1000 }

execute_job_iff_example :
    (execute_job (some sleep_message) ≡ true)
    ↔ ((w : WorkloadSpec) × (copy_workload sleep_message ≡ ok w))
execute_job_iff_example = execute_job_iff sleep_message

-- One digit.
abbrev digit : Str → Option (ℕ × ℕ)
digit [] = none
digit (c ∷ rest) = some (c - 48, 1)

parse_mib_iff_example : (parse_mib digit (b'5' ∷ []) [] ≡ ok 5242880) ↔ (
    (v : ℕ) × (digit (b'5' ∷ []) ≡ some (v, length {A = ℕ} (b'5' ∷ [])))
    × (not_a_size (b'5' ∷ []) ≡ false)
    × (5242880 ≡ v * mebibyte)
    × (5242880 < word_mod))
parse_mib_iff_example = parse_mib_iff digit (b'5' ∷ []) [] 5242880

abbrev signed_digit : Str → Option (ℤ × ℕ)
signed_digit text = Option.map (λ read. (pos read.0, read.1)) (digit text)

abbrev chosen : Options
chosen = record { requires_gpu = true; max_attempts = 2; tags = (b'x' ∷ []) ∷ (b'y' ∷ []) ∷ [] }

two_read : parse_attempts signed_digit (b'2' ∷ []) ≡ ok 2
unfolding parse_attempts parse_int
two_read = refl

read_options-arguments_example :
    read_options signed_digit default_options
      (gpu_arguments true ++ (tag_arguments chosen.tags ++ max_attempts_flag ∷ (b'2' ∷ []) ∷ []))
    ≡ ok chosen
read_options-arguments_example = read_options-arguments signed_digit chosen (b'2' ∷ []) two_read

abbrev digits : Conversions ℕ
digits = record { stol = signed_digit; stod = digit; stoull = digit }

abbrev asked : ResourceRequirements ℕ
asked = record {
  cpu_cores = 2;
  memory_bytes = 3145728;
  disk_bytes = 4194304;
  requires_gpu = false;
  required_tags = [];
}

abbrev asked_request : SubmitJobRequest ℕ
asked_request = record {
  id = (job_id 2).value;
  name = b'n' ∷ [];
  priority = pos 1;
  requirements = some asked;
  workload = some (record { kind = rpc_sleep; sleep_duration_ms = default_sleep_duration_ms });
  max_attempts = 3;
}

asked_made :
    submit_request digits
      (job_id 2).value
      (b'n' ∷ [])
      (b'1' ∷ [])
      (b'2' ∷ [])
      (b'3' ∷ [])
      (b'4' ∷ [])
      []
    ≡ ok asked_request
unfolding submit_request parse_int parse_double parse_mib read_options str_eq
asked_made = refl

asked-IsValidRequirements : IsValidRequirements asked
asked-IsValidRequirements = record { cpu_finite = refl; cpu_positive = refl; tags_nonempty = tt }

unknown_job : Keyed.has record_key (job_id 2).value busy.jobs ≡ false
unfolding Keyed.has str_eq
unknown_job = refl

no_long_tag : has_too_long asked.required_tags ≡ false
unfolding has_too_long
no_long_tag = refl

no_tag_twice : has_twice asked.required_tags ≡ false
unfolding has_twice
no_tag_twice = refl

client_submits_example :
    (info : JobInfo ℕ) × (next : Coordinator ℕ) × (submit_job_handler (pos 5000) asked_request busy
      ≡ (answer info, next))
    × Accepts (job_id 2).value busy next info
client_submits_example =
    client_submits digits (job_id 2).value (b'n' ∷ []) (b'1' ∷ []) (b'2' ∷ []) (b'3' ∷ [])
      (b'4' ∷ []) [] asked_request asked (pos 5000) busy asked_made busy-Inv refl
      asked-IsValidRequirements refl refl unknown_job (omega arith) (omega arith) (omega arith)
      (omega arith) no_long_tag no_tag_twice
