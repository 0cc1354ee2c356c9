-- ===== src/Examples/Sqlite.antt =====
-- A small database in place of SQLite, and the theorems about the job repository over it.
use radahn.Common.{
  ℕ, ◌≤◌, ◌<◌, ◌+◌, ◌*◌, ◌≡◌, refl, ◌∙◌, inl, map, if◌then◌else◌, pos, Option, some, none, List, [],
  ◌∷◌, ◌++◌, Str, ok, err, arith, Bool, true, false, length, str_eq,
}
use radahn.Domain.Error.{insert_constraint, tags_constraint}
use radahn.Domain.JobState.{running}
use radahn.Persistence.JobRepository.{JobRecord}
use radahn.Persistence.Sqlite.Values.{
  lease_to_unix_ms, lease_from_unix_ms, lease_from_unix_ms-lease_to_unix_ms, ticks_per_ms,
  bind_text, c_string, checked_sql_integer, to_ms, from_ms, bind_optional_worker_id,
  bind_optional_lease,
}
use radahn.Persistence.Sqlite.JobRow.{JobRow, insert_row, update_row, bind_columns, record_from_row}
use radahn.Persistence.Sqlite.JobRow.RoundTrip.{FitsRow, record_from_row-insert_row}
use radahn.Persistence.Sqlite.Session.{
  Sqlite, Step, Fetch, step_done, step_constraint, row, no_row, fetch_failed,
}
use radahn.Persistence.Sqlite.JobTable.{
  insert, insert_body, insert_tags, update, update_body, contains, delete_required_tags,
}
use radahn.Persistence.Sqlite.Transactions.{Settled}
use radahn.Persistence.Sqlite.JobTable.Atomic.{IsTransactional, update-atomic}
use radahn.Domain.Worker.{offline}
use radahn.Persistence.Sqlite.WorkerRow.{WorkerRow, insert_worker_row, worker_from_row}
use radahn.Persistence.Sqlite.WorkerRow.RoundTrip.{FitsWorkerRow, worker_from_row-insert_worker_row}
use radahn.Examples.Values.{
  idle_worker, idle_worker-IsValidWorker, nat_double, worker_id, small, small-IsValidRequirements,
  job_in,
}

-- The rows and the tags, and those that a rollback restores.
record SmallDatabase : Type 0 where
  rows : List (JobRow ℕ)
  tags : List Str
  before : Option (List (JobRow ℕ) × List Str)

abbrev stored : SmallDatabase → List (JobRow ℕ) × List Str
stored d = (d.rows, d.tags)

abbrev undone : Option (List (JobRow ℕ) × List Str) → SmallDatabase → SmallDatabase
undone none d = d
undone (some (rows, tags)) d = record { rows = rows; tags = tags; before = none }

abbrev same_id : Option Str → Str → Bool
same_id none k = false
same_id (some id) k = str_eq id k

abbrev find_row : Str → List (JobRow ℕ) → Fetch (JobRow ℕ)
find_row k [] = no_row
find_row k (r ∷ rows) = elim (same_id r.job_id k) [ true ↦ row r | false ↦ find_row k rows ]

abbrev add_row : JobRow ℕ → SmallDatabase → Fetch (JobRow ℕ) → Step × SmallDatabase
add_row r d no_row = (step_done, record d { rows = d.rows ++ r ∷ [] })
add_row r d _ = (step_constraint, d)

abbrev is_tagged : Str → List Str → Bool
is_tagged t [] = false
is_tagged t (x ∷ tags) = if str_eq x t then true else is_tagged t tags

abbrev add_tag : Bool → Str → SmallDatabase → Step × SmallDatabase
add_tag true t d = (step_constraint, d)
add_tag false t d = (step_done, record d { tags = t ∷ d.tags })

abbrev id_of : JobRow ℕ → Str
id_of r = elim r.job_id [ none ↦ [] | some id ↦ id ]

abbrev is_found : Fetch (JobRow ℕ) → Fetch (Unit {0})
is_found (row r) = row tt
is_found _ = no_row

abbrev small_sqlite : Sqlite SmallDatabase ℕ
small_sqlite = record {
  begin_immediate = λ d. (ok tt, record d { before = some (stored d) });
  commit = λ d. (ok tt, record d { before = none });
  rollback = λ d. (ok tt, undone d.before d);
  insert_job = λ r d. add_row r d (find_row (id_of r) d.rows);
  update_job = λ r d. (step_done, record d { rows = r ∷ [] });
  delete_job = λ k d. (step_done, record d { rows = [] });
  insert_tag = λ k t d. add_tag (is_tagged t d.tags) t d;
  delete_tags = λ k d. (step_done, record d { tags = [] });
  select_job = λ k d. find_row k d.rows;
  select_one = λ k d. is_found (find_row k d.rows);
  select_jobs = λ d. record { rows = d.rows; completed = true };
  select_tags = λ k d. record { rows = map some d.tags; completed = true };
  count_jobs = λ d. ok (pos (length d.rows));
}

add_row-before :
    (r : JobRow ℕ) (d : SmallDatabase) (f : Fetch (JobRow ℕ)) → (add_row r d f).1.before ≡ d.before
add_row-before r d (row old) = refl
add_row-before r d no_row = refl
add_row-before r d fetch_failed = refl

add_tag-before :
    (taken : Bool) (t : Str) (d : SmallDatabase) → (add_tag taken t d).1.before ≡ d.before
add_tag-before true t d = refl
add_tag-before false t d = refl

small_sqlite-IsTransactional : IsTransactional small_sqlite stored (λ d. d.before)
small_sqlite-IsTransactional = record {
  transaction = record {
    begin_opens = λ d i h. refl;
    begin_refused = λ e d i h. cc;
    commit_refused = λ t e d o h. cc;
    rollback_restores = λ t d o. rw o (refl, refl);
    rollback_idle = λ d i. rw i (refl, refl);
  };
  insert_job_inside = λ r. record {
    step_holds = λ t d o. inl (add_row-before r d (find_row (id_of r) d.rows) ∙ o);
    step_stays = λ t d o h. add_row-before r d (find_row (id_of r) d.rows) ∙ o;
  };
  update_job_inside = λ r. record { step_holds = λ t d o. inl o; step_stays = λ t d o h. o };
  insert_tag_inside = λ k tag. record {
    step_holds = λ t d o. inl (add_tag-before (is_tagged tag d.tags) tag d ∙ o);
    step_stays = λ t d o h. add_tag-before (is_tagged tag d.tags) tag d ∙ o;
  };
  delete_tags_inside = λ k. record { step_holds = λ t d o. inl o; step_stays = λ t d o h. o };
}

-- A running job, to be stored.
abbrev running_record : JobRecord ℕ
running_record = record {
  job = record (job_in running 2 7) { attempt_count = 1; created_at = pos 3000000 };
  assigned_worker_id = some (worker_id 1);
  lease_expires_at = some (pos 5000000);
}

running_record-FitsRow : FitsRow running_record
unfolding c_string to_ms from_ms
running_record-FitsRow = record {
  job_valid = ground arith;
  requirements_valid = small-IsValidRequirements;
  id_nonempty = refl;
  id_whole = record { fits = omega arith; no_zero = refl };
  name_whole = record { fits = omega arith; no_zero = refl };
  priority_fits = refl;
  memory_fits = omega arith;
  disk_fits = omega arith;
  sleep_ms = 1000;
  sleep_positive = omega arith;
  sleep_fits = omega arith;
  sleep_is = refl;
  created_whole = refl;
  worker_fits = (record { fits = omega arith; no_zero = refl }, refl);
  lease_fits = (refl, refl);
  max_fits = omega arith;
}

record_from_row-insert_row_example :
    (stored : JobRow ℕ) × (insert_row running_record ≡ ok stored)
    × (record_from_row (λ id. ok small.required_tags) stored ≡ ok running_record)
record_from_row-insert_row_example =
    record_from_row-insert_row running_record running_record-FitsRow

lease_from_unix_ms-lease_to_unix_ms_example :
    (ms : ℕ) × (lease_to_unix_ms (pos 5999999) ≡ ok (pos ms))
    × (lease_from_unix_ms (pos ms) ≡ ok (pos (ms * ticks_per_ms)))
    × (ms * ticks_per_ms ≤ 5999999)
    × (5999999 < ms * ticks_per_ms + ticks_per_ms)
    × (lease_to_unix_ms (pos (ms * ticks_per_ms)) ≡ ok (pos ms))
lease_from_unix_ms-lease_to_unix_ms_example = lease_from_unix_ms-lease_to_unix_ms 5999999

abbrev empty_database : SmallDatabase
empty_database = record { rows = []; tags = []; before = none }

abbrev filled : SmallDatabase
filled = (insert small_sqlite running_record empty_database).1

-- The identifier is taken.
insert_again : (insert small_sqlite running_record filled).0 ≡ err insert_constraint
unfolding insert insert_body insert_tags insert_row bind_columns bind_text checked_sql_integer
    bind_optional_worker_id bind_optional_lease lease_to_unix_ms to_ms str_eq
insert_again = refl

-- The same job with a tag that it names twice.
abbrev twice_tagged : JobRecord ℕ
twice_tagged = record running_record {
  job = record running_record.job {
    priority = pos 9;
    requirements = record running_record.job.requirements {
      required_tags = (b'x' ∷ []) ∷ (b'x' ∷ []) ∷ [];
    };
  };
}

-- The update fails at the second tag, after the row and the tags were changed.
tag_refused : (update small_sqlite twice_tagged filled).0 ≡ err tags_constraint
unfolding insert insert_body update update_body contains delete_required_tags insert_tags insert_row
    update_row bind_columns bind_text checked_sql_integer bind_optional_worker_id
    bind_optional_lease lease_to_unix_ms to_ms str_eq
tag_refused = refl

filled-before : filled.before ≡ none
unfolding insert insert_body insert_tags insert_row bind_columns bind_text checked_sql_integer
    bind_optional_worker_id bind_optional_lease lease_to_unix_ms to_ms str_eq
filled-before = refl

update-atomic_example :
    Settled stored
      (λ (d : SmallDatabase). d.before)
      (stored filled)
      (update small_sqlite twice_tagged filled).1
update-atomic_example =
    update-atomic small_sqlite stored (λ (d : SmallDatabase). d.before) small_sqlite-IsTransactional
      twice_tagged filled tags_constraint filled-before tag_refused

idle_worker-FitsWorkerRow : FitsWorkerRow (idle_worker 1)
unfolding c_string
idle_worker-FitsWorkerRow = record {
  valid = idle_worker-IsValidWorker 1;
  id_nonempty = refl;
  id_whole = record { fits = omega arith; no_zero = refl };
  memory_fits = omega arith;
  disk_fits = omega arith;
  max_fits = omega arith;
}

worker_from_row-insert_worker_row_example :
    (written : WorkerRow ℕ) × (insert_worker_row (pos 5000000) (idle_worker 1) ≡ ok written)
    × (worker_from_row (λ n. offline) (λ id. ok (idle_worker 1).tags) written ≡ ok (idle_worker 1))
worker_from_row-insert_worker_row_example =
    worker_from_row-insert_worker_row (λ n. offline) (pos 5000000) (idle_worker 1)
      idle_worker-FitsWorkerRow
