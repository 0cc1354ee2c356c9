-- ===== src/Persistence/Sqlite/JobRow.antt =====
-- The rows of the table `jobs`: what `insert` and `update` bind, and `record_from_row`.
pub mod RoundTrip
use radahn.Common.{
  ℕ, ltb, ◌==◌, ℤ, pos, negsuc, ltb_ℤ, eqb_ℤ, Bool, true, false, ◌||◌, not, Option, none, some,
  List, [], ◌∷◌, Str, word_mod, ◌-◌, if◌then◌else◌, ok, err, throw_if, ◌>>=◌, ◌>>◌,
}
use radahn.Domain.Double.{Double}
use radahn.Domain.Error.{Outcome, priority_range, retry_metadata_range}
use radahn.Domain.Id.{JobId, WorkerId, make_id, job}
use radahn.Domain.JobState.{JobState}
use radahn.Domain.Job.{Job, restore}
use radahn.Domain.Resource.{make_requirements}
use radahn.Persistence.JobRepository.{JobRecord}
use radahn.Persistence.Sqlite.Values.{
  max_int, to_ms, from_ms, cast_uint64, bind_text, text_column, checked_sql_integer,
  checked_unsigned_column, bind_optional_worker_id, bind_optional_lease, worker_column,
  lease_column, job_state_to_integer, job_state_from_integer, workload_kind_to_integer,
  workload_from_columns,
}

-- The columns in the order of the statements; `none` is NULL.
pub record JobRow (F : Type 0) : Type 0 where
  pub job_id : Option Str
  pub name : Option Str
  pub priority : ℤ
  pub state : ℤ
  pub cpu_cores : F
  pub memory_bytes : ℤ
  pub disk_bytes : ℤ
  pub requires_gpu : ℤ
  pub workload_kind : ℤ
  pub sleep_duration_ms : ℤ
  pub created_at_unix_ms : ℤ
  pub assigned_worker_id : Option Str
  pub lease_expires_at_unix_ms : Option ℤ
  pub attempt_count : ℤ
  pub max_attempts : ℤ

abbrev pub outside_int : ℤ → Bool
outside_int (pos n) = ltb max_int n
outside_int (negsuc n) = ltb max_int n

module _ {F : Type 0} where
  abbrev pub created_at_unix_ms : Job F → ℤ
  created_at_unix_ms stored = to_ms stored.created_at

  -- The columns that `insert` and `update` bind alike, after the name.
  unfoldable pub bind_columns : Option Str → Option Str → JobRecord F → Outcome (JobRow F)
  bind_columns job_id name r = do
    memory_bytes ← checked_sql_integer r.job.requirements.memory_bytes
    disk_bytes ← checked_sql_integer r.job.requirements.disk_bytes
    sleep_duration_ms ← checked_sql_integer (cast_uint64 r.job.workload.sleep_duration)
    assigned_worker_id ← bind_optional_worker_id r.assigned_worker_id
    lease_expires_at_unix_ms ← bind_optional_lease r.lease_expires_at
    attempt_count ← checked_sql_integer r.job.attempt_count
    max_attempts ← checked_sql_integer r.job.max_attempts
    ok (record {
      job_id = job_id;
      name = name;
      priority = r.job.priority;
      state = job_state_to_integer r.job.state;
      cpu_cores = r.job.requirements.cpu_cores;
      memory_bytes = memory_bytes;
      disk_bytes = disk_bytes;
      requires_gpu = (if r.job.requirements.requires_gpu then pos 1 else pos 0);
      workload_kind = workload_kind_to_integer r.job.workload.kind;
      sleep_duration_ms = sleep_duration_ms;
      created_at_unix_ms = created_at_unix_ms r.job;
      assigned_worker_id = assigned_worker_id;
      lease_expires_at_unix_ms = lease_expires_at_unix_ms;
      attempt_count = attempt_count;
      max_attempts = max_attempts;
    })

  -- What `insert` binds.
  unfoldable pub insert_row : JobRecord F → Outcome (JobRow F)
  unfolding bind_columns
  insert_row r = do
    job_id ← bind_text r.job.id.value
    name ← bind_text r.job.name
    bind_columns job_id name r

  -- What `update` binds: the identifier comes last.
  unfoldable pub update_row : JobRecord F → Outcome (JobRow F)
  unfolding bind_columns
  update_row r = do
    name ← bind_text r.job.name
    row ← bind_columns none name r
    job_id ← bind_text r.job.id.value
    ok (record row { job_id = job_id })

module _ {F : Type 0} ⦃d : Double F⦄ where
  -- From the identifier on: the values of the domain, out of what the columns hold.
  -- `load_tags` is `load_required_tags` on the same database.
  unfoldable pub restore_record :
      (JobId → Outcome (List Str))
      → JobRow F
      → Str
      → Str
      → JobState
      → ℕ
      → ℕ
      → ℕ
      → Option WorkerId
      → Option ℤ
      → ℕ
      → ℕ
      → Outcome (JobRecord F)
  restore_record load_tags row job_id name state memory_bytes disk_bytes sleep_duration_ms
        assigned_worker_id lease_expires_at stored_attempt_count stored_max_attempts =
      do
        domain_job_id ← make_id job job_id
        required_tags ← load_tags domain_job_id
        requirements ← make_requirements (record {
          cpu_cores = row.cpu_cores;
          memory_bytes = memory_bytes;
          disk_bytes = disk_bytes;
          requires_gpu = not (eqb_ℤ row.requires_gpu (pos 0));
          required_tags = required_tags;
        })
        workload ← workload_from_columns row.workload_kind sleep_duration_ms
        restored ←
            restore domain_job_id name row.priority requirements workload state
              (from_ms row.created_at_unix_ms) stored_attempt_count stored_max_attempts
        ok (record {
          job = restored;
          assigned_worker_id = assigned_worker_id;
          lease_expires_at = lease_expires_at;
        })

  unfoldable pub record_from_row : (JobId → Outcome (List Str)) → JobRow F → Outcome (JobRecord F)
  unfolding restore_record
  record_from_row load_tags row = do
    job_id ← text_column row.job_id
    name ← text_column row.name
    throw_if (outside_int row.priority) priority_range
    state ← job_state_from_integer row.state
    memory_bytes ← checked_unsigned_column row.memory_bytes
    disk_bytes ← checked_unsigned_column row.disk_bytes
    sleep_duration_ms ← checked_unsigned_column row.sleep_duration_ms
    assigned_worker_id ← worker_column row.assigned_worker_id
    lease_expires_at ← lease_column row.lease_expires_at_unix_ms
    stored_attempt_count ← checked_unsigned_column row.attempt_count
    stored_max_attempts ← checked_unsigned_column row.max_attempts
    throw_if (ltb (word_mod - 1) stored_attempt_count || ltb (word_mod - 1) stored_max_attempts)
        retry_metadata_range
    restore_record load_tags row job_id name state memory_bytes disk_bytes sleep_duration_ms
        assigned_worker_id lease_expires_at stored_attempt_count stored_max_attempts
