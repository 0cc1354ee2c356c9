-- ===== src/Persistence/Sqlite/Session.antt =====
-- A connection to SQLite, which is not part of the repository: its operations are a parameter.
use radahn.Common.{ℤ, Option, List, Str, Bool, ok, err}
use radahn.Domain.Error.{Error, Outcome, database_failure}
use radahn.Persistence.Sqlite.JobRow.{JobRow}

-- What a statement that gives no row comes to; a bind call that SQLite refuses counts as a failure
-- of the statement.
pub data Step : Type 0 where
  step_done step_constraint step_failed : Step

-- What a query for one row comes to.
pub data Fetch (A : Type 0) : Type 0 where
  row : A → Fetch A
  no_row : Fetch A
  fetch_failed : Fetch A

-- The rows of a query up to its end or up to a failure.
pub record Rows (A : Type 0) : Type 0 where
  pub rows : List A
  pub completed : Bool

-- `D` is the state of the connection: the database, and the transaction that is open.
pub record Sqlite (D F : Type 0) : Type 0 where
  pub begin_immediate : D → Outcome (Unit {0}) × D
  pub commit : D → Outcome (Unit {0}) × D
  pub rollback : D → Outcome (Unit {0}) × D
  pub insert_job : JobRow F → D → Step × D
  pub update_job : JobRow F → D → Step × D
  pub delete_job : Str → D → Step × D
  pub insert_tag : Str → Str → D → Step × D
  pub delete_tags : Str → D → Step × D
  pub select_job : Str → D → Fetch (JobRow F)
  pub select_one : Str → D → Fetch (Unit {0})
  pub select_jobs : D → Rows (JobRow F)
  pub select_tags : Str → D → Rows (Option Str)
  pub count_jobs : D → Outcome ℤ

-- A call on the connection, which returns or throws.
abbrev pub Session : Type 0 → Type 0 → Type 0
Session D A = D → Outcome A × D

abbrev pub check_step : Error → Step → Outcome (Unit {0})
check_step violated step_done = ok tt
check_step violated step_constraint = err violated
check_step violated step_failed = err database_failure

module _ {D : Type 0} where
  abbrev pub lift : {A : Type 0} → Outcome A → Session D A
  lift r d = (r, d)

  abbrev pub and_then : {A B : Type 0} → Outcome A → (A → Session D B) → Session D B
  and_then (ok a) f d = f a d
  and_then (err e) f d = (err e, d)

  infixl 5 ◌>>=◌ ◌>>◌
  abbrev pub ◌>>=◌ : {A B : Type 0} → Session D A → (A → Session D B) → Session D B
  ◌>>=◌ m f d = and_then (m d).0 f (m d).1

  abbrev pub ◌>>◌ : {B : Type 0} → Session D (Unit {0}) → Session D B → Session D B
  m >> k = m >>= λ _. k

  -- `sqlite3_step` and the tests of its result.
  abbrev pub run : Error → (D → Step × D) → Session D (Unit {0})
  run violated statement d = (check_step violated (statement d).0, (statement d).1)

  abbrev pub undo : {A : Type 0} → Outcome A → Session D (Unit {0}) → Session D A
  undo (ok a) rollback d = (ok a, d)
  undo (err e) rollback d = (err e, (rollback d).1)

  -- `try { body; commit } catch (...) { rollback_preserving_original_error; throw; }`.
  abbrev pub guarded : Session D (Unit {0}) → Session D (Unit {0}) → Session D (Unit {0})
  guarded body rollback d = undo (body d).0 rollback (body d).1
