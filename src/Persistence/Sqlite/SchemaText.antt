-- ===== src/Persistence/Sqlite/SchemaText.antt =====
-- The texts that libs/persistence/src/sqlite_schema.cpp executes, command by command. Of a column
-- there are its name, its type and whether it may be null; keys, defaults and checks are left out.
use radahn.Common.{ℕ, ◌==◌, Bool, List, [], ◌∷◌}

pub data Table : Type 0 where
  workers_table worker_tags_table jobs_table job_required_tags_table schema_migrations_table : Table

pub data Index : Type 0 where
  index_jobs_state : Index
  index_jobs_assigned_worker : Index
  index_jobs_lease_expiration : Index
  index_worker_tags_tag : Index
  index_job_required_tags_tag : Index
  index_workers_last_heartbeat : Index

pub data ColumnName : Type 0 where
  worker_id_column : ColumnName
  state_column : ColumnName
  total_cpu_cores_column : ColumnName
  available_cpu_cores_column : ColumnName
  total_memory_bytes_column : ColumnName
  available_memory_bytes_column : ColumnName
  total_disk_bytes_column : ColumnName
  available_disk_bytes_column : ColumnName
  gpu_available_column : ColumnName
  running_jobs_column : ColumnName
  max_concurrent_jobs_column : ColumnName
  last_heartbeat_unix_ms_column : ColumnName
  job_id_column : ColumnName
  name_column : ColumnName
  priority_column : ColumnName
  cpu_cores_column : ColumnName
  memory_bytes_column : ColumnName
  disk_bytes_column : ColumnName
  requires_gpu_column : ColumnName
  workload_kind_column : ColumnName
  sleep_duration_ms_column : ColumnName
  created_at_unix_ms_column : ColumnName
  assigned_worker_id_column : ColumnName
  lease_expires_at_unix_ms_column : ColumnName
  attempt_count_column : ColumnName
  max_attempts_column : ColumnName
  tag_column : ColumnName
  version_column : ColumnName
  applied_at_unix_ms_column : ColumnName

pub data ColumnType : Type 0 where
  text_type integer_type real_type : ColumnType

-- `needs` is a column that is `NOT NULL`.
pub data Column : Type 0 where
  needs allows : ColumnName → ColumnType → Column

abbrev column_code : ColumnName → ℕ
column_code worker_id_column = 0
column_code state_column = 1
column_code total_cpu_cores_column = 2
column_code available_cpu_cores_column = 3
column_code total_memory_bytes_column = 4
column_code available_memory_bytes_column = 5
column_code total_disk_bytes_column = 6
column_code available_disk_bytes_column = 7
column_code gpu_available_column = 8
column_code running_jobs_column = 9
column_code max_concurrent_jobs_column = 10
column_code last_heartbeat_unix_ms_column = 11
column_code job_id_column = 12
column_code name_column = 13
column_code priority_column = 14
column_code cpu_cores_column = 15
column_code memory_bytes_column = 16
column_code disk_bytes_column = 17
column_code requires_gpu_column = 18
column_code workload_kind_column = 19
column_code sleep_duration_ms_column = 20
column_code created_at_unix_ms_column = 21
column_code assigned_worker_id_column = 22
column_code lease_expires_at_unix_ms_column = 23
column_code attempt_count_column = 24
column_code max_attempts_column = 25
column_code tag_column = 26
column_code version_column = 27
column_code applied_at_unix_ms_column = 28

abbrev pub is_column : ColumnName → Column → Bool
is_column n (needs m t) = column_code m == column_code n
is_column n (allows m t) = column_code m == column_code n

abbrev pub name_of : Column → ColumnName
name_of (needs n t) = n
name_of (allows n t) = n

-- `CREATE TABLE IF NOT EXISTS`, `CREATE INDEX IF NOT EXISTS`, `ALTER TABLE ADD COLUMN`, and
-- `INSERT OR IGNORE INTO schema_migrations`.
pub data SqlCommand : Type 0 where
  create_table : Table → List Column → SqlCommand
  create_index : Index → Table → ColumnName → SqlCommand
  add_column : Table → Column → SqlCommand
  insert_version : ℕ → SqlCommand
  set_user_version : ℕ → SqlCommand
  begin_immediate : SqlCommand
  commit : SqlCommand
  rollback : SqlCommand

abbrev pub Statement : Type 0
Statement = List SqlCommand

abbrev pub begin_immediate_transaction : Statement
begin_immediate_transaction = begin_immediate ∷ []

abbrev pub create_latest : Statement
create_latest =
    create_table workers_table (
      needs worker_id_column text_type
      ∷ needs state_column integer_type
      ∷ needs total_cpu_cores_column real_type
      ∷ needs available_cpu_cores_column real_type
      ∷ needs total_memory_bytes_column integer_type
      ∷ needs available_memory_bytes_column integer_type
      ∷ needs total_disk_bytes_column integer_type
      ∷ needs available_disk_bytes_column integer_type
      ∷ needs gpu_available_column integer_type
      ∷ needs running_jobs_column integer_type
      ∷ needs max_concurrent_jobs_column integer_type
      ∷ needs last_heartbeat_unix_ms_column integer_type
      ∷ [])
    ∷ create_table worker_tags_table
        (needs worker_id_column text_type ∷ needs tag_column text_type ∷ [])
    ∷ create_table jobs_table (
        needs job_id_column text_type
        ∷ needs name_column text_type
        ∷ needs priority_column integer_type
        ∷ needs state_column integer_type
        ∷ needs cpu_cores_column real_type
        ∷ needs memory_bytes_column integer_type
        ∷ needs disk_bytes_column integer_type
        ∷ needs requires_gpu_column integer_type
        ∷ needs workload_kind_column integer_type
        ∷ needs sleep_duration_ms_column integer_type
        ∷ needs created_at_unix_ms_column integer_type
        ∷ allows assigned_worker_id_column text_type
        ∷ allows lease_expires_at_unix_ms_column integer_type
        ∷ needs attempt_count_column integer_type
        ∷ needs max_attempts_column integer_type
        ∷ [])
    ∷ create_table job_required_tags_table
        (needs job_id_column text_type ∷ needs tag_column text_type ∷ [])
    ∷ create_table schema_migrations_table
        (needs version_column integer_type ∷ needs applied_at_unix_ms_column integer_type ∷ [])
    ∷ create_index index_jobs_state jobs_table state_column
    ∷ create_index index_jobs_assigned_worker jobs_table assigned_worker_id_column
    ∷ create_index index_jobs_lease_expiration jobs_table lease_expires_at_unix_ms_column
    ∷ create_index index_worker_tags_tag worker_tags_table tag_column
    ∷ create_index index_job_required_tags_tag job_required_tags_table tag_column
    ∷ create_index index_workers_last_heartbeat workers_table last_heartbeat_unix_ms_column
    ∷ []

-- A recorded migration has its own text for each version.
abbrev pub insert_migration : ℕ → Statement
insert_migration version = insert_version version ∷ []

abbrev pub add_last_heartbeat : Statement
add_last_heartbeat =
    add_column workers_table (needs last_heartbeat_unix_ms_column integer_type) ∷ []

abbrev pub add_lease_expires_at : Statement
add_lease_expires_at =
    add_column jobs_table (allows lease_expires_at_unix_ms_column integer_type) ∷ []

abbrev pub add_attempt_count : Statement
add_attempt_count = add_column jobs_table (needs attempt_count_column integer_type) ∷ []

abbrev pub add_max_attempts : Statement
add_max_attempts = add_column jobs_table (needs max_attempts_column integer_type) ∷ []

abbrev pub set_user_version_4 : Statement
set_user_version_4 = set_user_version 4 ∷ []

abbrev pub commit_transaction : Statement
commit_transaction = commit ∷ []

abbrev pub rollback_transaction : Statement
rollback_transaction = rollback ∷ []
