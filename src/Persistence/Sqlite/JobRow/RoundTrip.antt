-- ===== src/Persistence/Sqlite/JobRow/RoundTrip.antt =====
-- A record that fits the columns comes back from its row.
use radahn.Common.{
  ℕ, ◌≤◌, ◌<◌, ℤ, pos, ltb_ℤ, false, ◌≡◌, refl, ap, Option, none, some, Str, length, is_empty,
  if◌then◌else◌, ok, arith,
}
use radahn.Domain.Double.{Double}
use radahn.Domain.Id.{WorkerId, make_id}
use radahn.Domain.Job.{restore}
use radahn.Domain.Job.Attempts.{IsValidJob, make_job-eq}
use radahn.Domain.Resource.Validity.{IsValidRequirements, make_requirements_iff}
use radahn.Domain.Workload.{sleep, make_workload, sleeping}
use radahn.Persistence.JobRepository.{JobRecord}
use radahn.Persistence.Sqlite.Values.{
  max_int, max_int64, to_ms, from_ms, bind_text, c_string, text_column, checked_sql_integer,
  checked_unsigned_column, bind_optional_worker_id, bind_optional_lease, worker_column,
  lease_column, lease_to_unix_ms, lease_from_unix_ms, job_state_to_integer,
  job_state_from_integer_iff, workload_kind_to_integer, workload_from_columns,
}
use radahn.Persistence.Sqlite.JobRow.{
  JobRow, insert_row, bind_columns, outside_int, record_from_row, restore_record,
}

-- A text that SQLite stores and hands out whole.
pub record IsWhole (text : Str) : Type 0 where
  pub fits : length text ≤ max_int
  pub no_zero : c_string text ≡ text

pub whole-eq :
    (text : Str)
    → IsWhole text
    → (bind_text text ≡ ok (some text)) × (text_column (some text) ≡ ok text)
unfolding bind_text text_column
whole-eq text w = (ground arith, ap ok w.no_zero)

-- A whole number of milliseconds.
abbrev pub IsWholeMs : ℤ → Type 0
IsWholeMs t = from_ms (to_ms t) ≡ t

abbrev pub FitsWorker : Option WorkerId → Type 0
FitsWorker none = Unit
FitsWorker (some id) = IsWhole id.value × (is_empty id.value ≡ false)

-- A lease that is a whole number of milliseconds, and not before the epoch.
abbrev pub FitsLease : Option ℤ → Type 0
FitsLease none = Unit
FitsLease (some lease) = IsWholeMs lease × (ltb_ℤ (to_ms lease) (pos 0) ≡ false)

worker_round :
    (id : Option WorkerId)
    → FitsWorker id
    → (text : Option Str) × (bind_optional_worker_id id ≡ ok text) × (worker_column text ≡ ok id)
unfolding bind_optional_worker_id worker_column make_id
worker_round none f = (none, refl, refl)
worker_round (some id) f =
    let (bound, read) = whole-eq id.value f.0 in (some id.value, bound, ground (arith, read, f.1))

lease_round :
    (lease : Option ℤ)
    → FitsLease lease
    → (ms : Option ℤ) × (bind_optional_lease lease ≡ ok ms) × (lease_column ms ≡ ok lease)
unfolding bind_optional_lease lease_column lease_to_unix_ms lease_from_unix_ms
lease_round none f = (none, refl, refl)
lease_round (some lease) f = (some (to_ms lease), ground (arith, f.1), ground (arith, f.0, f.1))

pub integer_round :
    (n : ℕ)
    → n ≤ max_int64
    → (checked_sql_integer n ≡ ok (pos n)) × (checked_unsigned_column (pos n) ≡ ok n)
unfolding checked_sql_integer checked_unsigned_column
integer_round n h = (ground arith, refl)

module _ {F : Type 0} ⦃d : Double F⦄ where
  -- What a record needs to be stored without loss.
  pub record FitsRow (r : JobRecord F) : Type 0 where
    pub job_valid : IsValidJob r.job
    pub requirements_valid : IsValidRequirements r.job.requirements
    pub id_nonempty : is_empty r.job.id.value ≡ false
    pub id_whole : IsWhole r.job.id.value
    pub name_whole : IsWhole r.job.name
    pub priority_fits : outside_int r.job.priority ≡ false
    pub memory_fits : r.job.requirements.memory_bytes ≤ max_int64
    pub disk_fits : r.job.requirements.disk_bytes ≤ max_int64
    pub sleep_ms : ℕ
    pub sleep_positive : 0 < sleep_ms
    pub sleep_fits : sleep_ms ≤ max_int64
    pub sleep_is : r.job.workload ≡ record { kind = sleeping; sleep_duration = pos sleep_ms }
    pub created_whole : IsWholeMs r.job.created_at
    pub worker_fits : FitsWorker r.assigned_worker_id
    pub lease_fits : FitsLease r.lease_expires_at
    pub max_fits : r.job.max_attempts ≤ max_int64

  attempts_fit : (r : JobRecord F) → FitsRow r → r.job.attempt_count ≤ max_int64
  attempts_fit r f = omega (arith, f.max_fits, f.job_valid.attempts_le_max)

  abbrev row_of : Option Str → Option ℤ → ℕ → JobRecord F → JobRow F
  row_of worker lease sleep_ms r = record {
    job_id = some r.job.id.value;
    name = some r.job.name;
    priority = r.job.priority;
    state = job_state_to_integer r.job.state;
    cpu_cores = r.job.requirements.cpu_cores;
    memory_bytes = pos r.job.requirements.memory_bytes;
    disk_bytes = pos r.job.requirements.disk_bytes;
    requires_gpu = (if r.job.requirements.requires_gpu then pos 1 else pos 0);
    workload_kind = pos 1;
    sleep_duration_ms = pos sleep_ms;
    created_at_unix_ms = to_ms r.job.created_at;
    assigned_worker_id = worker;
    lease_expires_at_unix_ms = lease;
    attempt_count = pos r.job.attempt_count;
    max_attempts = pos r.job.max_attempts;
  }

  insert_row-eq :
      (r : JobRecord F) (f : FitsRow r) (worker : Option Str) (lease : Option ℤ)
      → bind_optional_worker_id r.assigned_worker_id ≡ ok worker
      → bind_optional_lease r.lease_expires_at ≡ ok lease
      → insert_row r ≡ ok (row_of worker lease f.sleep_ms r)
  unfolding insert_row bind_columns workload_kind_to_integer
  insert_row-eq r f worker lease bound_worker bound_lease = ground (
    arith,
    (whole-eq r.job.id.value f.id_whole).0,
    (whole-eq r.job.name f.name_whole).0,
    (integer_round r.job.requirements.memory_bytes f.memory_fits).0,
    (integer_round r.job.requirements.disk_bytes f.disk_fits).0,
    (integer_round f.sleep_ms f.sleep_fits).0,
    (integer_round r.job.attempt_count (attempts_fit r f)).0,
    (integer_round r.job.max_attempts f.max_fits).0,
    f.sleep_is,
    bound_worker,
    bound_lease,
  )

  workload_round :
      (r : JobRecord F) (f : FitsRow r)
      → workload_from_columns (pos 1) f.sleep_ms ≡ ok r.job.workload
  unfolding workload_from_columns sleep make_workload
  workload_round r f = ground (arith, f.sleep_is, f.sleep_fits, f.sleep_positive)

  record_from_row-eq :
      (r : JobRecord F) (f : FitsRow r) (worker : Option Str) (lease : Option ℤ)
      → worker_column worker ≡ ok r.assigned_worker_id
      → lease_column lease ≡ ok r.lease_expires_at
      → record_from_row
          (λ id. ok r.job.requirements.required_tags)
          (row_of worker lease f.sleep_ms r)
        ≡ ok r
  unfolding record_from_row restore_record restore make_id
  record_from_row-eq r f worker lease read_worker read_lease = ground (
    arith,
    (whole-eq r.job.id.value f.id_whole).1,
    (whole-eq r.job.name f.name_whole).1,
    f.priority_fits,
    (job_state_from_integer_iff (job_state_to_integer r.job.state) r.job.state).1 refl,
    (integer_round r.job.requirements.memory_bytes f.memory_fits).1,
    (integer_round r.job.requirements.disk_bytes f.disk_fits).1,
    (integer_round f.sleep_ms f.sleep_fits).1,
    (integer_round r.job.attempt_count (attempts_fit r f)).1,
    (integer_round r.job.max_attempts f.max_fits).1,
    read_worker,
    read_lease,
    f.id_nonempty,
    f.job_valid.max_word,
    f.job_valid.attempts_le_max,
    (make_requirements_iff r.job.requirements).1 f.requirements_valid,
    workload_round r f,
    f.created_whole,
    make_job-eq r.job f.job_valid,
  )

  -- A valid record whose texts have no zero byte and fit an `int`, whose numbers fit the signed
  -- columns and whose times are whole milliseconds, the lease not before the epoch, has a row,
  -- and `record_from_row` makes of this row and the record's tags the record itself.
  pub record_from_row-insert_row :
      (r : JobRecord F)
      → FitsRow r
      → (row : JobRow F) × (insert_row r ≡ ok row)
        × (record_from_row (λ id. ok r.job.requirements.required_tags) row ≡ ok r)
  record_from_row-insert_row r f =
      let (worker, bound_worker, read_worker) = worker_round r.assigned_worker_id f.worker_fits in
      let (lease, bound_lease, read_lease) = lease_round r.lease_expires_at f.lease_fits in
      (
        row_of worker lease f.sleep_ms r,
        insert_row-eq r f worker lease bound_worker bound_lease,
        record_from_row-eq r f worker lease read_worker read_lease,
      )
