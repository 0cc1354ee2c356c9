-- ===== src/Persistence/Sqlite/WorkerTable.antt =====
-- `SqliteWorkerRepository`.
pub mod Atomic
use radahn.Common.{ℕ, ℤ, Bool, true, false, not, Option, List, [], ◌∷◌, Str, ok, err, throw_if}
use radahn.Domain.Double.{Double}
use radahn.Domain.Error.{
  tags_constraint, insert_constraint, update_constraint, database_failure, update_unknown_worker,
  erase_unknown_worker, heartbeat_unknown_worker,
}
use radahn.Domain.Id.{WorkerId}
use radahn.Domain.Worker.{WorkerState}
use radahn.Domain.WorkerRecord.{WorkerRecord, snapshot}
use radahn.Persistence.Sqlite.Values.{bind_text}
use radahn.Persistence.Sqlite.WorkerRow.{insert_worker_row, update_worker_row, heartbeat_to_unix_ms}
use radahn.Persistence.Sqlite.Reads.{sql_count}
use radahn.Persistence.Sqlite.WorkerReads.{
  WorkerSqlite, load_worker_tags, read_heartbeat, read_worker, read_workers,
}
use radahn.Persistence.Sqlite.Session.{
  Session, row, no_row, fetch_failed, lift, ◌>>=◌, ◌>>◌, run, guarded,
}

module _ {D F : Type 0} (sql : WorkerSqlite D F) where
  -- The loop of `insert_worker_tags`.
  unfoldable pub insert_each_tag : Str → List Str → Session D (Unit {0})
  insert_each_tag worker_id [] = lift (ok tt)
  insert_each_tag worker_id (tag ∷ tags) = do
    bound_id ← lift (bind_text worker_id)
    bound_tag ← lift (bind_text tag)
    run tags_constraint (sql.insert_tag worker_id tag)
    insert_each_tag worker_id tags

  -- A violated constraint has no message of its own here.
  unfoldable pub delete_worker_tags : WorkerId → Session D (Unit {0})
  delete_worker_tags worker_id = do
    bound ← lift (bind_text worker_id.value)
    run database_failure (sql.delete_tags worker_id.value)

  unfoldable pub contains : WorkerId → Session D Bool
  contains worker_id = do
    bound ← lift (bind_text worker_id.value)
    (λ d. (
      elim (sql.select_one worker_id.value d) [
        | row one ↦ ok true
        | no_row ↦ ok false
        | fetch_failed ↦ err database_failure
      ],
      d,
    ))

  unfoldable pub erase : WorkerId → Session D (Unit {0})
  unfolding contains
  erase worker_id = do
    found ← contains worker_id
    lift (throw_if (not found) erase_unknown_worker)
    bound ← lift (bind_text worker_id.value)
    run database_failure (sql.delete_worker worker_id.value)

  unfoldable pub record_heartbeat : WorkerId → ℤ → Session D (Unit {0})
  unfolding contains heartbeat_to_unix_ms
  record_heartbeat worker_id heartbeat_time = do
    found ← contains worker_id
    lift (throw_if (not found) heartbeat_unknown_worker)
    bound ← lift (bind_text worker_id.value)
    run database_failure (sql.set_heartbeat (heartbeat_to_unix_ms heartbeat_time) worker_id.value)

  unfoldable pub last_heartbeat : WorkerId → Session D (Option ℤ)
  unfolding read_heartbeat
  last_heartbeat worker_id = do
    bound ← lift (bind_text worker_id.value)
    (λ d. (read_heartbeat (sql.select_heartbeat worker_id.value d), d))

  unfoldable pub size : Session D ℕ
  size d = (sql_count (sql.count_workers d), d)

  module _ ⦃f : Double F⦄ where
    unfoldable pub insert_worker_tags : WorkerRecord F → Session D (Unit {0})
    unfolding insert_each_tag
    insert_worker_tags w = do s ← lift (snapshot w); insert_each_tag w.id.value s.tags

    -- The body of `insert`'s `try` block; `now` is what the clock gives.
    unfoldable pub insert_worker_body : ℤ → WorkerRecord F → Session D (Unit {0})
    unfolding insert_worker_tags
    insert_worker_body now w = do
      bound ← lift (insert_worker_row now w)
      run insert_constraint (sql.insert_worker bound)
      insert_worker_tags w
      sql.commit

    unfoldable pub insert : ℤ → WorkerRecord F → Session D (Unit {0})
    unfolding insert_worker_body
    insert now w = do sql.begin_immediate; guarded (insert_worker_body now w) sql.rollback

    -- The body of `update`'s `try` block.
    unfoldable pub update_worker_body : WorkerRecord F → Session D (Unit {0})
    unfolding insert_worker_tags delete_worker_tags
    update_worker_body w = do
      bound ← lift (update_worker_row w)
      run update_constraint (sql.update_worker bound)
      delete_worker_tags w.id
      insert_worker_tags w
      sql.commit

    unfoldable pub update : WorkerRecord F → Session D (Unit {0})
    unfolding contains update_worker_body
    update w = do
      found ← contains w.id
      lift (throw_if (not found) update_unknown_worker)
      sql.begin_immediate
      guarded (update_worker_body w) sql.rollback

    unfoldable pub get : (ℤ → WorkerState) → WorkerId → Session D (Option (WorkerRecord F))
    get other worker_id = do
      bound ← lift (bind_text worker_id.value)
      (λ d. (read_worker other (load_worker_tags sql d) (sql.select_worker worker_id.value d), d))

    unfoldable pub list : (ℤ → WorkerState) → Session D (List (WorkerRecord F))
    list other d = (
      read_workers other (load_worker_tags sql d) (sql.select_workers d).rows
          (sql.select_workers d).completed,
      d,
    )
