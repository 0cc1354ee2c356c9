-- ===== src/Persistence/Sqlite/Reads.antt =====
-- What `SqliteJobRepository` makes of the rows that a query gives.
use radahn.Common.{
  ℕ, ltb, ◌-◌, ℤ, pos, negsuc, Bool, true, false, Option, none, some, List, [], ◌∷◌, Str, word_mod,
  ok, err, throw_if, ◌>>=◌, ◌>>◌,
}
use radahn.Domain.Double.{Double}
use radahn.Domain.Error.{Outcome, database_failure, negative_count, count_range}
use radahn.Domain.Id.{JobId}
use radahn.Persistence.JobRepository.{JobRecord}
use radahn.Persistence.Sqlite.Values.{bind_text, text_column}
use radahn.Persistence.Sqlite.JobRow.{JobRow, record_from_row}
use radahn.Persistence.Sqlite.Session.{Sqlite, Fetch, row, no_row, fetch_failed}

-- The loop that collects the tags.
unfoldable pub read_tags : List (Option Str) → Bool → Outcome (List Str)
read_tags [] true = ok []
read_tags [] false = err database_failure
read_tags (column ∷ columns) completed = do
  tag ← text_column column
  tags ← read_tags columns completed
  ok (tag ∷ tags)

unfoldable pub load_required_tags : {D F : Type 0} → Sqlite D F → D → JobId → Outcome (List Str)
unfolding read_tags
load_required_tags sql d job_id = do
  bound ← bind_text job_id.value
  read_tags (sql.select_tags job_id.value d).rows (sql.select_tags job_id.value d).completed

-- The conversion of the number of rows.
unfoldable pub row_count : ℤ → Outcome ℕ
row_count (negsuc n) = err negative_count
row_count (pos n) = do throw_if (ltb (word_mod - 1) n) count_range; ok n

unfoldable pub sql_count : Outcome ℤ → Outcome ℕ
unfolding row_count
sql_count counted = do count ← counted; row_count count

module _ {F : Type 0} ⦃f : Double F⦄ where
  unfoldable pub read_found :
      (JobId → Outcome (List Str)) → Fetch (JobRow F) → Outcome (Option (JobRecord F))
  unfolding record_from_row
  read_found load_tags (row stored) = do r ← record_from_row load_tags stored; ok (some r)
  read_found load_tags no_row = ok none
  read_found load_tags fetch_failed = err database_failure

  -- The loop of `list`.
  unfoldable pub read_jobs :
      (JobId → Outcome (List Str)) → List (JobRow F) → Bool → Outcome (List (JobRecord F))
  unfolding record_from_row
  read_jobs load_tags [] true = ok []
  read_jobs load_tags [] false = err database_failure
  read_jobs load_tags (stored ∷ rows) completed = do
    r ← record_from_row load_tags stored
    records ← read_jobs load_tags rows completed
    ok (r ∷ records)
