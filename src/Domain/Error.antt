-- ===== src/Domain/Error.antt =====
-- The exceptions that the libraries and the coordinator's service throw: a constructor for each
-- message, and the standard class that carries it.
use radahn.Common.{Bool, true, false}
use radahn.Common

pub data Error : Type 0 where
  id_empty : Error
  sleep_not_positive : Error
  required_cpu_invalid : Error
  required_tag_empty : Error
  total_cpu_invalid : Error
  available_cpu_invalid : Error
  available_memory_exceeds_total : Error
  available_disk_exceeds_total : Error
  job_name_empty : Error
  max_attempts_zero : Error
  attempts_exceed_max : Error
  attempt_not_queued : Error
  retry_limit_exhausted : Error
  illegal_transition : Error
  max_concurrent_zero : Error
  running_exceeds_max : Error
  worker_tag_empty : Error
  cannot_reserve : Error
  no_running_job : Error
  release_cpu : Error
  release_memory : Error
  release_disk : Error
  enqueue_not_queued : Error
  enqueue_duplicate : Error
  job_exists_already : Error
  update_unknown_job : Error
  erase_unknown_job : Error
  worker_exists_already : Error
  update_unknown_worker : Error
  heartbeat_unknown_worker : Error
  erase_unknown_worker : Error
  lease_not_positive : Error
  timeout_not_positive : Error
  no_heartbeat_timestamp : Error
  retry_wait_assigned : Error
  dispatch_unknown_worker : Error
  start_unknown_job : Error
  start_unassigned_job : Error
  planner_unknown_worker : Error
  planner_unknown_job : Error
  queued_job_not_stored : Error
  selected_job_exhausted : Error
  finish_unknown_job : Error
  finish_unassigned_job : Error
  assigned_worker_unknown : Error
  text_too_large : Error
  sql_integer_range : Error
  negative_column : Error
  lease_before_epoch : Error
  stored_lease_negative : Error
  unexpected_null : Error
  unknown_job_state : Error
  sleep_duration_range : Error
  unknown_workload_kind : Error
  priority_range : Error
  retry_metadata_range : Error
  tags_constraint : Error
  insert_constraint : Error
  update_constraint : Error
  negative_count : Error
  count_range : Error
  requested_sleep_zero : Error
  requested_sleep_range : Error
  unsupported_workload : Error
  requested_size_range : Error
  size_range : Error
  stored_heartbeat_negative : Error
  database_failure : Error
  schema_too_new : Error
  unknown_migration : Error

-- A domain function gives a value or throws.
abbrev pub Outcome : Type 0 → Type 0
Outcome A = Common.Result Error A

-- The exception is a `std::invalid_argument`; any other is a logic or a runtime error.
unfoldable pub is_invalid_argument : Error → Bool
is_invalid_argument illegal_transition = false
is_invalid_argument attempt_not_queued = false
is_invalid_argument retry_limit_exhausted = false
is_invalid_argument no_running_job = false
is_invalid_argument no_heartbeat_timestamp = false
is_invalid_argument retry_wait_assigned = false
is_invalid_argument planner_unknown_worker = false
is_invalid_argument planner_unknown_job = false
is_invalid_argument queued_job_not_stored = false
is_invalid_argument selected_job_exhausted = false
is_invalid_argument assigned_worker_unknown = false
is_invalid_argument negative_column = false
is_invalid_argument stored_lease_negative = false
is_invalid_argument unexpected_null = false
is_invalid_argument unknown_job_state = false
is_invalid_argument unknown_workload_kind = false
is_invalid_argument sleep_duration_range = false
is_invalid_argument priority_range = false
is_invalid_argument retry_metadata_range = false
is_invalid_argument negative_count = false
is_invalid_argument count_range = false
is_invalid_argument size_range = false
is_invalid_argument stored_heartbeat_negative = false
is_invalid_argument database_failure = false
is_invalid_argument schema_too_new = false
is_invalid_argument unknown_migration = false
is_invalid_argument _ = true
