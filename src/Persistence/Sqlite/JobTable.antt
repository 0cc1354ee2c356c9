-- ===== src/Persistence/Sqlite/JobTable.antt =====
-- `SqliteJobRepository`.
pub mod Atomic
use radahn.Common.{
  ℕ, ltb, ◌-◌, ℤ, pos, negsuc, Bool, true, false, not, Option, none, some, List, [], ◌∷◌, ◌++◌, Str,
  word_mod, ok, err, throw_if, if◌then◌else◌,
}
use radahn.Domain.Double.{Double}
use radahn.Domain.Error.{
  Outcome, tags_constraint, insert_constraint, update_constraint, database_failure,
  update_unknown_job, erase_unknown_job, negative_count, count_range,
}
use radahn.Domain.Id.{JobId}
use radahn.Persistence.JobRepository.{JobRecord}
use radahn.Persistence.Sqlite.Values.{bind_text, text_column}
use radahn.Persistence.Sqlite.JobRow.{JobRow, insert_row, update_row, record_from_row}
use radahn.Persistence.Sqlite.Reads.{load_required_tags, read_found, read_jobs, sql_count}
use radahn.Persistence.Sqlite.Session.{
  Sqlite, Session, Step, Fetch, Rows, row, no_row, fetch_failed, lift, ◌>>=◌, ◌>>◌, run, guarded,
}

module _ {D F : Type 0} (sql : Sqlite D F) where
  -- The loop of `insert_required_tags`.
  unfoldable pub insert_tags : Str → List Str → Session D (Unit {0})
  insert_tags job_id [] = lift (ok tt)
  insert_tags job_id (tag ∷ tags) = do
    bound_id ← lift (bind_text job_id)
    bound_tag ← lift (bind_text tag)
    run tags_constraint (sql.insert_tag job_id tag)
    insert_tags job_id tags

  abbrev pub insert_required_tags : JobRecord F → Session D (Unit {0})
  insert_required_tags r = insert_tags r.job.id.value r.job.requirements.required_tags

  -- A violated constraint has no message of its own here.
  unfoldable pub delete_required_tags : JobId → Session D (Unit {0})
  delete_required_tags job_id = do
    bound ← lift (bind_text job_id.value)
    run database_failure (sql.delete_tags job_id.value)

  -- The body of `insert`'s `try` block.
  unfoldable pub insert_body : JobRecord F → Session D (Unit {0})
  unfolding insert_tags
  insert_body r = do
    bound ← lift (insert_row r)
    run insert_constraint (sql.insert_job bound)
    insert_required_tags r
    sql.commit

  unfoldable pub insert : JobRecord F → Session D (Unit {0})
  unfolding insert_body
  insert r = do sql.begin_immediate; guarded (insert_body r) sql.rollback

  unfoldable pub contains : JobId → Session D Bool
  contains job_id = do
    bound ← lift (bind_text job_id.value)
    (λ d. (
      elim (sql.select_one job_id.value d) [
        | row one ↦ ok true
        | no_row ↦ ok false
        | fetch_failed ↦ err database_failure
      ],
      d,
    ))

  -- The body of `update`'s `try` block.
  unfoldable pub update_body : JobRecord F → Session D (Unit {0})
  unfolding delete_required_tags insert_tags
  update_body r = do
    bound ← lift (update_row r)
    run update_constraint (sql.update_job bound)
    delete_required_tags r.job.id
    insert_required_tags r
    sql.commit

  unfoldable pub update : JobRecord F → Session D (Unit {0})
  unfolding contains update_body
  update r = do
    found ← contains r.job.id
    lift (throw_if (not found) update_unknown_job)
    sql.begin_immediate
    guarded (update_body r) sql.rollback

  unfoldable pub erase : JobId → Session D (Unit {0})
  unfolding contains
  erase job_id = do
    found ← contains job_id
    lift (throw_if (not found) erase_unknown_job)
    bound ← lift (bind_text job_id.value)
    run database_failure (sql.delete_job job_id.value)

  unfoldable pub size : Session D ℕ
  size d = (sql_count (sql.count_jobs d), d)

  module _ ⦃f : Double F⦄ where
    unfoldable pub get : JobId → Session D (Option (JobRecord F))
    get job_id = do
      bound ← lift (bind_text job_id.value)
      (λ d. (read_found (load_required_tags sql d) (sql.select_job job_id.value d), d))

    unfoldable pub list : Session D (List (JobRecord F))
    list d = (
      read_jobs (load_required_tags sql d) (sql.select_jobs d).rows (sql.select_jobs d).completed,
      d,
    )
