-- ===== src/Cli/Commands.antt =====
-- The client's `main`, and the names that it shows.
use radahn.Common.{ℕ, List, [], ◌∷◌, Str, str_eq, if◌then◌else◌}
use radahn.Service.Messages.{
  RpcJobState, rpc_unspecified, rpc_queued, rpc_leased, rpc_running, rpc_retry_wait,
  rpc_cancellation_requested, rpc_succeeded, rpc_failed, rpc_cancelled,
}
use radahn.Cli.Submit.{ClientStub, Conversions, code_of, run_submit_job}

abbrev pub version_word : Str
version_word = b'v' ∷ b'e' ∷ b'r' ∷ b's' ∷ b'i' ∷ b'o' ∷ b'n' ∷ []

abbrev pub help_word : Str
help_word = b'h' ∷ b'e' ∷ b'l' ∷ b'p' ∷ []

abbrev pub ping_word : Str
ping_word = b'p' ∷ b'i' ∷ b'n' ∷ b'g' ∷ []

abbrev pub job_word : Str
job_word = b'j' ∷ b'o' ∷ b'b' ∷ []

abbrev pub submit_word : Str
submit_word = b's' ∷ b'u' ∷ b'b' ∷ b'm' ∷ b'i' ∷ b't' ∷ []

abbrev pub get_word : Str
get_word = b'g' ∷ b'e' ∷ b't' ∷ []

abbrev pub list_word : Str
list_word = b'l' ∷ b'i' ∷ b's' ∷ b't' ∷ []

abbrev pub hello : Str
hello = b'h' ∷ b'e' ∷ b'l' ∷ b'l' ∷ b'o' ∷ []

pub data Command : Type 0 where
  show_version show_help send_ping about_job unknown_command : Command

abbrev pub command_of : Str → Command
command_of word =
    if str_eq word version_word
    then show_version
    else if str_eq word help_word
    then show_help
    else if str_eq word ping_word
    then send_ping
    else if str_eq word job_word
    then about_job
    else unknown_command

pub data JobCommand : Type 0 where
  submit_it get_it list_them unknown_job_command : JobCommand

abbrev pub job_command_of : Str → JobCommand
job_command_of word =
    if str_eq word submit_word
    then submit_it
    else if str_eq word get_word
    then get_it
    else if str_eq word list_word
    then list_them
    else unknown_job_command

-- What `ping` sends.
abbrev pub message_of : List Str → Str
message_of [] = hello
message_of (message ∷ rest) = message

module _ {F W : Type 0} (convert : Conversions F) (stub : ClientStub F W) where
  abbrev pub run_get_job : List Str → W → ℕ × W
  run_get_job [] w = (1, w)
  run_get_job (id ∷ []) w = code_of convert stub (stub.get_job id w)
  run_get_job (id ∷ other ∷ rest) w = (1, w)

  abbrev pub run_list_jobs : List Str → W → ℕ × W
  run_list_jobs [] w = code_of convert stub (stub.list_jobs w)
  run_list_jobs (other ∷ rest) w = (1, w)

  abbrev pub run_job_command : JobCommand → List Str → W → ℕ × W
  run_job_command submit_it arguments w = run_submit_job convert stub arguments w
  run_job_command get_it arguments w = run_get_job arguments w
  run_job_command list_them arguments w = run_list_jobs arguments w
  run_job_command unknown_job_command arguments w = (1, w)

  abbrev pub run_job : List Str → W → ℕ × W
  run_job [] w = (1, w)
  run_job (word ∷ arguments) w = run_job_command (job_command_of word) arguments w

  abbrev pub run_command : Command → List Str → W → ℕ × W
  run_command show_version arguments w = (0, w)
  run_command show_help arguments w = (0, w)
  run_command send_ping arguments w = code_of convert stub (stub.ping (message_of arguments) w)
  run_command about_job arguments w = run_job arguments w
  run_command unknown_command arguments w = (1, w)

  -- The arguments are those after the program's name; what is printed is left out.
  unfoldable pub cli_main : List Str → W → ℕ × W
  cli_main [] w = (0, w)
  cli_main (word ∷ arguments) w = run_command (command_of word) arguments w

unfoldable pub state_name : RpcJobState → Str
state_name rpc_unspecified =
    b'U' ∷ b'N' ∷ b'S' ∷ b'P' ∷ b'E' ∷ b'C' ∷ b'I' ∷ b'F' ∷ b'I' ∷ b'E' ∷ b'D' ∷ []
state_name rpc_queued = b'Q' ∷ b'U' ∷ b'E' ∷ b'U' ∷ b'E' ∷ b'D' ∷ []
state_name rpc_leased = b'L' ∷ b'E' ∷ b'A' ∷ b'S' ∷ b'E' ∷ b'D' ∷ []
state_name rpc_running = b'R' ∷ b'U' ∷ b'N' ∷ b'N' ∷ b'I' ∷ b'N' ∷ b'G' ∷ []
state_name rpc_retry_wait = b'R' ∷ b'E' ∷ b'T' ∷ b'R' ∷ b'Y' ∷ b'_' ∷ b'W' ∷ b'A' ∷ b'I' ∷ b'T' ∷ []
state_name rpc_cancellation_requested =
    b'C' ∷ b'A' ∷ b'N' ∷ b'C' ∷ b'E' ∷ b'L' ∷ b'L' ∷ b'A' ∷ b'T' ∷ b'I' ∷ b'O' ∷ b'N' ∷ b'_' ∷ b'R'
    ∷ b'E' ∷ b'Q' ∷ b'U' ∷ b'E' ∷ b'S' ∷ b'T' ∷ b'E' ∷ b'D' ∷ []
state_name rpc_succeeded = b'S' ∷ b'U' ∷ b'C' ∷ b'C' ∷ b'E' ∷ b'E' ∷ b'D' ∷ b'E' ∷ b'D' ∷ []
state_name rpc_failed = b'F' ∷ b'A' ∷ b'I' ∷ b'L' ∷ b'E' ∷ b'D' ∷ []
state_name rpc_cancelled = b'C' ∷ b'A' ∷ b'N' ∷ b'C' ∷ b'E' ∷ b'L' ∷ b'L' ∷ b'E' ∷ b'D' ∷ []
