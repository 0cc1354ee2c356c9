-- ===== src/Persistence/Sqlite/WorkerReads.antt =====
-- The statements on workers, and what `SqliteWorkerRepository` makes of the rows of a query.
use radahn.Common.{ℤ, Bool, true, false, Option, none, some, List, [], ◌∷◌, Str, ok, err, ◌>>=◌}
use radahn.Domain.Double.{Double}
use radahn.Domain.Error.{Outcome, database_failure}
use radahn.Domain.Id.{WorkerId}
use radahn.Domain.Worker.{WorkerState}
use radahn.Domain.WorkerRecord.{WorkerRecord}
use radahn.Persistence.Sqlite.Values.{bind_text}
use radahn.Persistence.Sqlite.WorkerRow.{WorkerRow, worker_from_row, heartbeat_from_unix_ms}
use radahn.Persistence.Sqlite.Session.{Step, Fetch, Rows, row, no_row, fetch_failed}
use radahn.Persistence.Sqlite.Reads.{read_tags}

-- `D` is the state of the connection, as for the jobs.
pub record WorkerSqlite (D F : Type 0) : Type 0 where
  pub begin_immediate : D → Outcome (Unit {0}) × D
  pub commit : D → Outcome (Unit {0}) × D
  pub rollback : D → Outcome (Unit {0}) × D
  pub insert_worker : WorkerRow F → D → Step × D
  -- The statement keeps the column that the row is a function of.
  pub update_worker : (ℤ → WorkerRow F) → D → Step × D
  pub delete_worker : Str → D → Step × D
  pub insert_tag : Str → Str → D → Step × D
  pub delete_tags : Str → D → Step × D
  pub set_heartbeat : ℤ → Str → D → Step × D
  pub select_worker : Str → D → Fetch (WorkerRow F)
  pub select_one : Str → D → Fetch (Unit {0})
  pub select_heartbeat : Str → D → Fetch ℤ
  pub select_workers : D → Rows (WorkerRow F)
  pub select_tags : Str → D → Rows (Option Str)
  pub count_workers : D → Outcome ℤ

unfoldable pub load_worker_tags :
    {D F : Type 0} → WorkerSqlite D F → D → WorkerId → Outcome (List Str)
unfolding read_tags
load_worker_tags sql d worker_id = do
  bound ← bind_text worker_id.value
  read_tags (sql.select_tags worker_id.value d).rows (sql.select_tags worker_id.value d).completed

unfoldable pub read_heartbeat : Fetch ℤ → Outcome (Option ℤ)
unfolding heartbeat_from_unix_ms
read_heartbeat (row unix_ms) = do time ← heartbeat_from_unix_ms unix_ms; ok (some time)
read_heartbeat no_row = ok none
read_heartbeat fetch_failed = err database_failure

module _ {F : Type 0} ⦃f : Double F⦄ (other : ℤ → WorkerState) where
  unfoldable pub read_worker :
      (WorkerId → Outcome (List Str)) → Fetch (WorkerRow F) → Outcome (Option (WorkerRecord F))
  unfolding worker_from_row
  read_worker load_tags (row stored) = do w ← worker_from_row other load_tags stored; ok (some w)
  read_worker load_tags no_row = ok none
  read_worker load_tags fetch_failed = err database_failure

  -- The loop of `list`.
  unfoldable pub read_workers :
      (WorkerId → Outcome (List Str)) → List (WorkerRow F) → Bool → Outcome (List (WorkerRecord F))
  unfolding worker_from_row
  read_workers load_tags [] true = ok []
  read_workers load_tags [] false = err database_failure
  read_workers load_tags (stored ∷ rows) completed = do
    w ← worker_from_row other load_tags stored
    workers ← read_workers load_tags rows completed
    ok (w ∷ workers)
