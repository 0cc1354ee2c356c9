-- ===== src/Persistence/Sqlite/WorkerRow.antt =====
-- libs/persistence/src/sqlite_worker_repository.cpp: the rows of the table `workers`, what `insert`
-- binds, and `worker_from_row`.
pub mod RoundTrip
use radahn.Common.{
  ℕ, ltb, ◌-◌, ◌==◌, ℤ, pos, negsuc, ltb_ℤ, eqb_ℤ, not, Option, List, Str, word_mod, if◌then◌else◌,
  ok, throw_if, ◌>>=◌, ◌>>◌,
}
use radahn.Domain.Double.{Double}
use radahn.Domain.Error.{Outcome, size_range, stored_heartbeat_negative}
use radahn.Domain.Id.{WorkerId, make_id, worker}
use radahn.Domain.Resource.{make_resources}
use radahn.Domain.Worker.{WorkerState, online, draining, offline, disabled, make_snapshot}
use radahn.Domain.WorkerRecord.{WorkerRecord, snapshot, of_snapshot}
use radahn.Persistence.Sqlite.Values.{
  to_ms, from_ms, bind_text, text_column, checked_sql_integer, checked_unsigned_column,
}

-- The columns in the order of the statements; `none` is NULL.
pub record WorkerRow (F : Type 0) : Type 0 where
  pub worker_id : Option Str
  pub state : ℤ
  pub total_cpu_cores : F
  pub available_cpu_cores : F
  pub total_memory_bytes : ℤ
  pub available_memory_bytes : ℤ
  pub total_disk_bytes : ℤ
  pub available_disk_bytes : ℤ
  pub gpu_available : ℤ
  pub running_jobs : ℤ
  pub max_concurrent_jobs : ℤ
  pub last_heartbeat_unix_ms : ℤ

unfoldable pub heartbeat_to_unix_ms : ℤ → ℤ
heartbeat_to_unix_ms heartbeat_time = to_ms heartbeat_time

unfoldable pub heartbeat_from_unix_ms : ℤ → Outcome ℤ
heartbeat_from_unix_ms unix_ms = do
  throw_if (ltb_ℤ unix_ms (pos 0)) stored_heartbeat_negative
  ok (from_ms unix_ms)

unfoldable pub worker_state_to_integer : WorkerState → ℤ
worker_state_to_integer online = pos 0
worker_state_to_integer draining = pos 1
worker_state_to_integer offline = pos 2
worker_state_to_integer disabled = pos 3

-- `other` is what a cast makes of an integer that is no enumerator.
unfoldable pub worker_state_from_integer : (ℤ → WorkerState) → ℤ → WorkerState
worker_state_from_integer other (negsuc n) = other (negsuc n)
worker_state_from_integer other (pos n) =
    if n == 0
    then online
    else if n == 1
    then draining
    else if n == 2
    then offline
    else if n == 3
    then disabled
    else other (pos n)

unfoldable pub checked_size_column : ℤ → Outcome ℕ
checked_size_column column = do
  value ← checked_unsigned_column column
  throw_if (ltb (word_mod - 1) value) size_range
  ok value

module _ {F : Type 0} ⦃d : Double F⦄ where
  -- What `insert` binds; `now` is what the clock gives.
  unfoldable pub insert_worker_row : ℤ → WorkerRecord F → Outcome (WorkerRow F)
  insert_worker_row now w = do
    s ← snapshot w
    worker_id ← bind_text w.id.value
    total_memory_bytes ← checked_sql_integer s.resources.total_memory_bytes
    available_memory_bytes ← checked_sql_integer s.resources.available_memory_bytes
    total_disk_bytes ← checked_sql_integer s.resources.total_disk_bytes
    available_disk_bytes ← checked_sql_integer s.resources.available_disk_bytes
    running_jobs ← checked_sql_integer s.running_jobs
    max_concurrent_jobs ← checked_sql_integer s.max_concurrent_jobs
    ok (record {
      worker_id = worker_id;
      state = worker_state_to_integer s.state;
      total_cpu_cores = s.resources.total_cpu_cores;
      available_cpu_cores = s.resources.available_cpu_cores;
      total_memory_bytes = total_memory_bytes;
      available_memory_bytes = available_memory_bytes;
      total_disk_bytes = total_disk_bytes;
      available_disk_bytes = available_disk_bytes;
      gpu_available = (if s.resources.gpu_available then pos 1 else pos 0);
      running_jobs = running_jobs;
      max_concurrent_jobs = max_concurrent_jobs;
      last_heartbeat_unix_ms = heartbeat_to_unix_ms now;
    })

  -- What `update` binds: the identifier comes last, and the heartbeat, which the statement leaves
  -- alone, stays out.
  unfoldable pub update_worker_row : WorkerRecord F → Outcome (ℤ → WorkerRow F)
  update_worker_row w = do
    s ← snapshot w
    total_memory_bytes ← checked_sql_integer s.resources.total_memory_bytes
    available_memory_bytes ← checked_sql_integer s.resources.available_memory_bytes
    total_disk_bytes ← checked_sql_integer s.resources.total_disk_bytes
    available_disk_bytes ← checked_sql_integer s.resources.available_disk_bytes
    running_jobs ← checked_sql_integer s.running_jobs
    max_concurrent_jobs ← checked_sql_integer s.max_concurrent_jobs
    worker_id ← bind_text w.id.value
    ok (λ last_heartbeat_unix_ms. record {
      worker_id = worker_id;
      state = worker_state_to_integer s.state;
      total_cpu_cores = s.resources.total_cpu_cores;
      available_cpu_cores = s.resources.available_cpu_cores;
      total_memory_bytes = total_memory_bytes;
      available_memory_bytes = available_memory_bytes;
      total_disk_bytes = total_disk_bytes;
      available_disk_bytes = available_disk_bytes;
      gpu_available = (if s.resources.gpu_available then pos 1 else pos 0);
      running_jobs = running_jobs;
      max_concurrent_jobs = max_concurrent_jobs;
      last_heartbeat_unix_ms = last_heartbeat_unix_ms;
    })

  -- `load_tags` is `load_worker_tags` on the same database.
  unfoldable pub worker_from_row :
      (ℤ → WorkerState) → (WorkerId → Outcome (List Str)) → WorkerRow F → Outcome (WorkerRecord F)
  worker_from_row other load_tags row = do
    worker_id ← text_column row.worker_id
    total_memory_bytes ← checked_unsigned_column row.total_memory_bytes
    available_memory_bytes ← checked_unsigned_column row.available_memory_bytes
    total_disk_bytes ← checked_unsigned_column row.total_disk_bytes
    available_disk_bytes ← checked_unsigned_column row.available_disk_bytes
    running_jobs ← checked_size_column row.running_jobs
    max_concurrent_jobs ← checked_size_column row.max_concurrent_jobs
    domain_worker_id ← make_id worker worker_id
    tags ← load_tags domain_worker_id
    resources ← make_resources (record {
      total_cpu_cores = row.total_cpu_cores;
      available_cpu_cores = row.available_cpu_cores;
      total_memory_bytes = total_memory_bytes;
      available_memory_bytes = available_memory_bytes;
      total_disk_bytes = total_disk_bytes;
      available_disk_bytes = available_disk_bytes;
      gpu_available = not (eqb_ℤ row.gpu_available (pos 0));
    })
    stored ← make_snapshot (record {
      id = domain_worker_id;
      state = worker_state_from_integer other row.state;
      resources = resources;
      running_jobs = running_jobs;
      max_concurrent_jobs = max_concurrent_jobs;
      tags = tags;
    })
    ok (of_snapshot stored)
