-- ===== src/Examples/Workers.antt =====
-- The theorem about the stored workers at a small database.
use radahn.Common.{
  ℕ, ◌≡◌, refl, inl, pos, Option, none, some, List, [], ◌∷◌, ◌++◌, length, ok, err, true,
}
use radahn.Domain.Error.{tags_constraint}
use radahn.Domain.WorkerRecord.{snapshot}
use radahn.Domain.Resource.{make_resources, check_tags}
use radahn.Domain.Worker.{make_snapshot}
use radahn.Persistence.Sqlite.Values.{bind_text, checked_sql_integer}
use radahn.Persistence.Sqlite.Session.{Fetch, step_done, step_constraint, row, no_row}
use radahn.Persistence.Sqlite.WorkerRow.{WorkerRow, update_worker_row, worker_state_to_integer}
use radahn.Persistence.Sqlite.WorkerReads.{WorkerSqlite}
use radahn.Persistence.Sqlite.WorkerTable.{
  insert_worker_tags, insert_each_tag, delete_worker_tags, update, update_worker_body, contains,
}
use radahn.Persistence.Sqlite.WorkerTable.Atomic.{IsTransactionalForWorkers, update_worker-atomic}
use radahn.Persistence.Sqlite.Transactions.{Settled}
use radahn.Examples.Values.{idle_worker, nat_double}

-- The rows, and those that a rollback restores; every tag is refused.
record Workers : Type 0 where
  rows : List (WorkerRow ℕ)
  before : Option (List (WorkerRow ℕ))

abbrev undone : Option (List (WorkerRow ℕ)) → Workers → Workers
undone none d = d
undone (some rows) d = record { rows = rows; before = none }

abbrev fetched : List (WorkerRow ℕ) → Fetch (Unit {0})
fetched [] = no_row
fetched (r ∷ rows) = row tt

abbrev first_row : List (WorkerRow ℕ) → Fetch (WorkerRow ℕ)
first_row [] = no_row
first_row (r ∷ rows) = row r

abbrev worker_sqlite : WorkerSqlite Workers ℕ
worker_sqlite = record {
  begin_immediate = λ d. (ok tt, record d { before = some d.rows });
  commit = λ d. (ok tt, record d { before = none });
  rollback = λ d. (ok tt, undone d.before d);
  insert_worker = λ r d. (step_done, record d { rows = d.rows ++ r ∷ [] });
  update_worker = λ r d. (step_done, record d { rows = r (pos 1) ∷ [] });
  delete_worker = λ k d. (step_done, record d { rows = [] });
  insert_tag = λ k t d. (step_constraint, d);
  delete_tags = λ k d. (step_done, d);
  set_heartbeat = λ time k d. (step_done, d);
  select_worker = λ k d. first_row d.rows;
  select_one = λ k d. fetched d.rows;
  select_heartbeat = λ k d. no_row;
  select_workers = λ d. record { rows = d.rows; completed = true };
  select_tags = λ k d. record { rows = []; completed = true };
  count_workers = λ d. ok (pos (length d.rows));
}

worker_sqlite-IsTransactional :
    IsTransactionalForWorkers worker_sqlite (λ (d : Workers). d.rows) (λ d. d.before)
worker_sqlite-IsTransactional = record {
  transaction = record {
    begin_opens = λ d i h. refl;
    begin_refused = λ e d i h. cc;
    commit_refused = λ t e d o h. cc;
    rollback_restores = λ t d o. rw o (refl, refl);
    rollback_idle = λ d i. rw i (refl, refl);
  };
  insert_worker_inside = λ r. record { step_holds = λ t d o. inl o; step_stays = λ t d o h. o };
  update_worker_inside = λ r. record { step_holds = λ t d o. inl o; step_stays = λ t d o h. o };
  insert_tag_inside = λ k tag. record { step_holds = λ t d o. inl o; step_stays = λ t d o h. o };
  delete_tags_inside = λ k. record { step_holds = λ t d o. inl o; step_stays = λ t d o h. o };
}

abbrev stored_row : WorkerRow ℕ
stored_row = record {
  worker_id = some (idle_worker 1).id.value;
  state = pos 0;
  total_cpu_cores = 8;
  available_cpu_cores = 8;
  total_memory_bytes = pos 500;
  available_memory_bytes = pos 500;
  total_disk_bytes = pos 500;
  available_disk_bytes = pos 500;
  gpu_available = pos 0;
  running_jobs = pos 0;
  max_concurrent_jobs = pos 1;
  last_heartbeat_unix_ms = pos 7;
}

abbrev with_row : Workers
with_row = record { rows = stored_row ∷ []; before = none }

-- The update fails at the tags, after the row was changed.
tags_refused : (update worker_sqlite (idle_worker 1) with_row).0 ≡ err tags_constraint
unfolding update update_worker_body contains bind_text update_worker_row delete_worker_tags
    insert_worker_tags insert_each_tag snapshot make_resources make_snapshot check_tags
    checked_sql_integer worker_state_to_integer
tags_refused = refl

update_worker-atomic_example :
    Settled
      (λ (d : Workers). d.rows)
      (λ d. d.before)
      (stored_row ∷ [])
      (update worker_sqlite (idle_worker 1) with_row).1
update_worker-atomic_example =
    update_worker-atomic worker_sqlite (λ (d : Workers). d.rows) (λ d. d.before)
      worker_sqlite-IsTransactional (idle_worker 1) with_row tags_constraint refl tags_refused
