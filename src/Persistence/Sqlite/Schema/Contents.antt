-- ===== src/Persistence/Sqlite/Schema/Contents.antt =====
-- What the tables of a database are, and what a command makes of them.
use radahn.Common.{
  ℕ, ◌==◌, Bool, true, false, ◌&&◌, not, Option, none, some, List, [], ◌∷◌, ◌++◌, if◌then◌else◌,
}
use radahn.Persistence.Sqlite.SchemaText.{
  Table, workers_table, worker_tags_table, jobs_table, job_required_tags_table,
  schema_migrations_table, Index, index_jobs_state, index_jobs_assigned_worker,
  index_jobs_lease_expiration, index_worker_tags_tag, index_job_required_tags_tag,
  index_workers_last_heartbeat, ColumnName, Column, needs, allows, is_column, name_of, text_type,
  integer_type, real_type, worker_id_column, state_column, total_cpu_cores_column,
  available_cpu_cores_column, total_memory_bytes_column, available_memory_bytes_column,
  total_disk_bytes_column, available_disk_bytes_column, gpu_available_column, running_jobs_column,
  max_concurrent_jobs_column, last_heartbeat_unix_ms_column, job_id_column, name_column,
  priority_column, cpu_cores_column, memory_bytes_column, disk_bytes_column, requires_gpu_column,
  workload_kind_column, sleep_duration_ms_column, created_at_unix_ms_column,
  assigned_worker_id_column, lease_expires_at_unix_ms_column, attempt_count_column,
  max_attempts_column, tag_column, version_column, applied_at_unix_ms_column, SqlCommand,
  create_table, create_index, add_column, insert_version, set_user_version, begin_immediate, commit,
  rollback, Statement,
}

-- Which of the migrations the table `schema_migrations` holds.
pub record Marks : Type 0 where
  pub first : Bool
  pub second : Bool
  pub third : Bool
  pub fourth : Bool

-- Which of the indexes exist.
pub record Indexes : Type 0 where
  pub jobs_state : Bool
  pub jobs_assigned_worker : Bool
  pub jobs_lease_expiration : Bool
  pub worker_tags_tag : Bool
  pub job_required_tags_tag : Bool
  pub workers_last_heartbeat : Bool

-- A database: the columns of each table, `none` for one that does not exist, the indexes, and the
-- rows of `schema_migrations`.
pub record Contents : Type 0 where
  pub user_version : ℕ
  pub workers : Option (List Column)
  pub worker_tags : Option (List Column)
  pub jobs : Option (List Column)
  pub job_required_tags : Option (List Column)
  pub schema_migrations : Option (List Column)
  pub indexes : Indexes
  pub marks : Marks

abbrev pub marked : ℕ → Marks → Marks
marked n m =
    if n == 1
    then record m { first = true }
    else if n == 2
    then record m { second = true }
    else if n == 3
    then record m { third = true }
    else if n == 4
    then record m { fourth = true }
    else m

abbrev pub indexed : Index → Indexes → Indexes
indexed index_jobs_state x = record x { jobs_state = true }
indexed index_jobs_assigned_worker x = record x { jobs_assigned_worker = true }
indexed index_jobs_lease_expiration x = record x { jobs_lease_expiration = true }
indexed index_worker_tags_tag x = record x { worker_tags_tag = true }
indexed index_job_required_tags_tag x = record x { job_required_tags_tag = true }
indexed index_workers_last_heartbeat x = record x { workers_last_heartbeat = true }

abbrev pub table_of : Table → Contents → Option (List Column)
table_of workers_table c = c.workers
table_of worker_tags_table c = c.worker_tags
table_of jobs_table c = c.jobs
table_of job_required_tags_table c = c.job_required_tags
table_of schema_migrations_table c = c.schema_migrations

abbrev pub with_table : Table → List Column → Contents → Contents
with_table workers_table columns c = record c { workers = some columns }
with_table worker_tags_table columns c = record c { worker_tags = some columns }
with_table jobs_table columns c = record c { jobs = some columns }
with_table job_required_tags_table columns c = record c { job_required_tags = some columns }
with_table schema_migrations_table columns c = record c { schema_migrations = some columns }

abbrev pub created : Table → List Column → Option (List Column) → Contents → Contents
created t columns none c = with_table t columns c
created t columns (some old) c = c

abbrev pub extended : Table → Column → Option (List Column) → Contents → Contents
extended t column none c = c
extended t column (some old) c = with_table t (old ++ column ∷ []) c

-- What a command that succeeds makes of the database.
abbrev pub apply_command : SqlCommand → Contents → Contents
apply_command (create_table t columns) c = created t columns (table_of t c) c
apply_command (create_index i t n) c = record c { indexes = indexed i c.indexes }
apply_command (add_column t column) c = extended t column (table_of t c) c
apply_command (insert_version n) c = record c { marks = marked n c.marks }
apply_command (set_user_version n) c = record c { user_version = n }
apply_command begin_immediate c = c
apply_command commit c = c
apply_command rollback c = c

abbrev pub apply : Statement → Contents → Contents
apply [] c = c
apply (command ∷ rest) c = apply rest (apply_command command c)

abbrev pub has_column : ColumnName → List Column → Bool
has_column n [] = false
has_column n (column ∷ rest) = if is_column n column then true else has_column n rest

abbrev pub exists_with : (List Column → Bool) → Option (List Column) → Bool
exists_with p none = false
exists_with p (some columns) = p columns

-- Whether SQLite can run the command: a table that is named exists, a column that is added does
-- not, and a column that an index is made for does.
abbrev pub possible_command : SqlCommand → Contents → Bool
possible_command (create_table t columns) c = true
possible_command (create_index i t n) c = exists_with (has_column n) (table_of t c)
possible_command (add_column t column) c =
    exists_with (λ old. not (has_column (name_of column) old)) (table_of t c)
possible_command (insert_version n) c = exists_with (λ old. true) c.schema_migrations
possible_command (set_user_version n) c = true
possible_command begin_immediate c = true
possible_command commit c = true
possible_command rollback c = true

abbrev pub possible : Statement → Contents → Bool
possible [] c = true
possible (command ∷ rest) c = possible_command command c && possible rest (apply_command command c)

abbrev pub no_marks : Marks
no_marks = record { first = false; second = false; third = false; fourth = false }

abbrev pub all_marks : Marks
all_marks = record { first = true; second = true; third = true; fourth = true }

abbrev pub no_indexes : Indexes
no_indexes = record {
  jobs_state = false;
  jobs_assigned_worker = false;
  jobs_lease_expiration = false;
  worker_tags_tag = false;
  job_required_tags_tag = false;
  workers_last_heartbeat = false;
}

abbrev pub all_indexes : Indexes
all_indexes = record {
  jobs_state = true;
  jobs_assigned_worker = true;
  jobs_lease_expiration = true;
  worker_tags_tag = true;
  job_required_tags_tag = true;
  workers_last_heartbeat = true;
}

-- The columns of the versions of the schema.
abbrev pub first_workers : List Column
first_workers =
    needs worker_id_column text_type
    ∷ needs state_column integer_type
    ∷ needs total_cpu_cores_column real_type
    ∷ needs available_cpu_cores_column real_type
    ∷ needs total_memory_bytes_column integer_type
    ∷ needs available_memory_bytes_column integer_type
    ∷ needs total_disk_bytes_column integer_type
    ∷ needs available_disk_bytes_column integer_type
    ∷ needs gpu_available_column integer_type
    ∷ needs running_jobs_column integer_type
    ∷ needs max_concurrent_jobs_column integer_type
    ∷ []

abbrev pub latest_workers : List Column
latest_workers = first_workers ++ needs last_heartbeat_unix_ms_column integer_type ∷ []

abbrev pub first_jobs : List Column
first_jobs =
    needs job_id_column text_type
    ∷ needs name_column text_type
    ∷ needs priority_column integer_type
    ∷ needs state_column integer_type
    ∷ needs cpu_cores_column real_type
    ∷ needs memory_bytes_column integer_type
    ∷ needs disk_bytes_column integer_type
    ∷ needs requires_gpu_column integer_type
    ∷ needs workload_kind_column integer_type
    ∷ needs sleep_duration_ms_column integer_type
    ∷ needs created_at_unix_ms_column integer_type
    ∷ allows assigned_worker_id_column text_type
    ∷ []

abbrev pub leased_jobs : List Column
leased_jobs = first_jobs ++ allows lease_expires_at_unix_ms_column integer_type ∷ []

abbrev pub latest_jobs : List Column
latest_jobs =
    leased_jobs
    ++ needs attempt_count_column integer_type ∷ needs max_attempts_column integer_type ∷ []

abbrev pub tables : ℕ → Option (List Column) → Option (List Column) → Indexes → Marks → Contents
tables version w j i m = record {
  user_version = version;
  workers = w;
  worker_tags = some (needs worker_id_column text_type ∷ needs tag_column text_type ∷ []);
  jobs = j;
  job_required_tags = some (needs job_id_column text_type ∷ needs tag_column text_type ∷ []);
  schema_migrations =
      some (needs version_column integer_type ∷ needs applied_at_unix_ms_column integer_type ∷ []);
  indexes = i;
  marks = m;
}

-- The versions of the schema; a new database has none.
pub data Version : Type 0 where
  nothing version_1 version_2 version_3 version_4 : Version

abbrev pub contents_at : Version → Indexes → Marks → Contents
contents_at nothing i m = record {
  user_version = 0;
  workers = none;
  worker_tags = none;
  jobs = none;
  job_required_tags = none;
  schema_migrations = none;
  indexes = no_indexes;
  marks = no_marks;
}
contents_at version_1 i m = tables 1 (some first_workers) (some first_jobs) i m
contents_at version_2 i m = tables 2 (some latest_workers) (some first_jobs) i m
contents_at version_3 i m = tables 3 (some latest_workers) (some leased_jobs) i m
contents_at version_4 i m = tables 4 (some latest_workers) (some latest_jobs) i m
