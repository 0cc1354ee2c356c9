-- ===== src/Service/Stored.antt =====
-- What the service's repository of jobs, libs/persistence/src/sqlite_job_repository.cpp, makes of a
-- job: the insertion refuses some, and what is read back has its tags in order and its texts up to
-- their first zero byte. Identifiers are keys, and taken whole.
use radahn.Common.{
  Bool, true, false, List, [], ◌∷◌, map, Str, str_eq, str_lt, ltb, length, throw_if, ◌>>=◌, ◌>>◌,
  if◌then◌else◌,
}
use radahn.Common.Sorting
use radahn.Domain.Error.{Outcome, text_too_large, tags_constraint}
use radahn.Domain.Job.{Job}
use radahn.Persistence.Sqlite.Values.{max_int, c_string}
use radahn.Persistence.Sqlite.JobRow.{insert_row}
use radahn.Coordinator.Submit.{unassigned}
use radahn.Service.Messages.{JobInfo, job_info}

abbrev has_equal : Str → List Str → Bool
has_equal tag [] = false
has_equal tag (x ∷ tags) = if str_eq x tag then true else has_equal tag tags

unfoldable pub has_too_long : List Str → Bool
has_too_long [] = false
has_too_long (tag ∷ tags) = if ltb max_int (length tag) then true else has_too_long tags

-- The primary key of `job_required_tags` is the pair of the job's identifier and the tag.
unfoldable pub has_twice : List Str → Bool
has_twice [] = false
has_twice (tag ∷ tags) = if has_equal tag tags then true else has_twice tags

module _ {F : Type 0} where
  -- The insertion's checks: of the values that are bound, and of the tags.
  unfoldable pub check_insertion : Job F → Outcome (Unit {0})
  unfolding insert_row has_too_long has_twice
  check_insertion job = do
    row ← insert_row (unassigned job)
    throw_if (has_too_long job.requirements.required_tags) text_too_large
    throw_if (has_twice job.requirements.required_tags) tags_constraint

  -- `ORDER BY tag`, and `sqlite3_column_text`.
  unfoldable pub as_read : JobInfo F → JobInfo F
  unfolding c_string Sorting.sort
  as_read info = record info {
    name = c_string info.name;
    requirements = record info.requirements {
      required_tags = map c_string (Sorting.sort str_lt info.requirements.required_tags);
    };
  }

  -- A job of the repository, as an answer.
  unfoldable pub stored_info : Job F → JobInfo F
  unfolding as_read
  stored_info job = as_read (job_info job)
