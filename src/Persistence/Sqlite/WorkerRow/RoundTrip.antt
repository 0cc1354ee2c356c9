-- ===== src/Persistence/Sqlite/WorkerRow/RoundTrip.antt =====
-- A worker that fits the columns comes back from its row.
use radahn.Common.{ℕ, ◌≤◌, ℤ, pos, false, ◌≡◌, some, is_empty, if◌then◌else◌, ok, arith}
use radahn.Domain.Double.{Double}
use radahn.Domain.Id.{make_id}
use radahn.Domain.Worker.{WorkerState}
use radahn.Domain.Resource.Validity.{make_resources_iff}
use radahn.Domain.Worker.Validity.{make_snapshot_iff}
use radahn.Domain.WorkerRecord.{WorkerRecord, of_snapshot}
use radahn.Domain.WorkerRecord.Accounts.{IsValidWorker, view, resources_of, snapshot-eq}
use radahn.Persistence.Sqlite.Values.{max_int64, checked_unsigned_column}
use radahn.Persistence.Sqlite.JobRow.RoundTrip.{IsWhole, whole-eq, integer_round}
use radahn.Persistence.Sqlite.WorkerRow.{
  WorkerRow, heartbeat_to_unix_ms, worker_state_to_integer, worker_state_from_integer,
  checked_size_column, insert_worker_row, worker_from_row,
}

state_round :
    (other : ℤ → WorkerState) (s : WorkerState)
    → worker_state_from_integer other (worker_state_to_integer s) ≡ s
unfolding worker_state_from_integer worker_state_to_integer
state_round other s = ground arith

size_round : (n : ℕ) → n ≤ max_int64 → checked_size_column (pos n) ≡ ok n
unfolding checked_size_column checked_unsigned_column
size_round n h = ground arith

module _ {F : Type 0} ⦃d : Double F⦄ where
  -- What a worker needs to be stored without loss.
  pub record FitsWorkerRow (w : WorkerRecord F) : Type 0 where
    pub valid : IsValidWorker w
    pub id_nonempty : is_empty w.id.value ≡ false
    pub id_whole : IsWhole w.id.value
    pub memory_fits : w.total_memory_bytes ≤ max_int64
    pub disk_fits : w.total_disk_bytes ≤ max_int64
    pub max_fits : w.max_concurrent_jobs ≤ max_int64

  record Bounded (w : WorkerRecord F) : Type 0 where
    memory : w.available_memory_bytes ≤ max_int64
    disk : w.available_disk_bytes ≤ max_int64
    running : w.running_jobs ≤ max_int64

  bounded : (w : WorkerRecord F) → FitsWorkerRow w → Bounded w
  bounded w f = ground (arith, f, f.valid)

  abbrev row_of : ℤ → WorkerRecord F → WorkerRow F
  row_of now w = record {
    worker_id = some w.id.value;
    state = worker_state_to_integer w.state;
    total_cpu_cores = w.total_cpu_cores;
    available_cpu_cores = w.available_cpu_cores;
    total_memory_bytes = pos w.total_memory_bytes;
    available_memory_bytes = pos w.available_memory_bytes;
    total_disk_bytes = pos w.total_disk_bytes;
    available_disk_bytes = pos w.available_disk_bytes;
    gpu_available = (if w.gpu_available then pos 1 else pos 0);
    running_jobs = pos w.running_jobs;
    max_concurrent_jobs = pos w.max_concurrent_jobs;
    last_heartbeat_unix_ms = heartbeat_to_unix_ms now;
  }

  insert_worker_row-eq :
      (now : ℤ) (w : WorkerRecord F) → FitsWorkerRow w → insert_worker_row now w ≡ ok (row_of now w)
  unfolding insert_worker_row
  insert_worker_row-eq now w f =
      let b = bounded w f in
      ground (
        arith,
        snapshot-eq w f.valid,
        (whole-eq w.id.value f.id_whole).0,
        (integer_round w.total_memory_bytes f.memory_fits).0,
        (integer_round w.available_memory_bytes b.memory).0,
        (integer_round w.total_disk_bytes f.disk_fits).0,
        (integer_round w.available_disk_bytes b.disk).0,
        (integer_round w.running_jobs b.running).0,
        (integer_round w.max_concurrent_jobs f.max_fits).0,
      )

  worker_from_row-eq :
      (other : ℤ → WorkerState) (now : ℤ) (w : WorkerRecord F)
      → FitsWorkerRow w
      → worker_from_row other (λ id. ok w.tags) (row_of now w) ≡ ok w
  unfolding worker_from_row make_id of_snapshot
  worker_from_row-eq other now w f =
      let b = bounded w f in
      ground (
        arith,
        (whole-eq w.id.value f.id_whole).1,
        f.id_nonempty,
        state_round other w.state,
        (integer_round w.total_memory_bytes f.memory_fits).1,
        (integer_round w.available_memory_bytes b.memory).1,
        (integer_round w.total_disk_bytes f.disk_fits).1,
        (integer_round w.available_disk_bytes b.disk).1,
        size_round w.running_jobs b.running,
        size_round w.max_concurrent_jobs f.max_fits,
        (make_resources_iff (resources_of w)).1 f.valid.resources_valid,
        (make_snapshot_iff (view w)).1 f.valid.snapshot_valid,
      )

  -- A valid worker with a non-empty identifier that has no zero byte and fits an `int`, and whose
  -- totals and slots fit the signed columns, has a row, and `worker_from_row` makes of this row
  -- and the worker's tags the worker itself.
  pub worker_from_row-insert_worker_row :
      (other : ℤ → WorkerState) (now : ℤ) (w : WorkerRecord F)
      → FitsWorkerRow w
      → (row : WorkerRow F) × (insert_worker_row now w ≡ ok row)
        × (worker_from_row other (λ id. ok w.tags) row ≡ ok w)
  worker_from_row-insert_worker_row other now w f =
      (row_of now w, insert_worker_row-eq now w f, worker_from_row-eq other now w f)
