-- ===== src/Examples/Schema.antt =====
-- The theorems about the schema at a small database.
use radahn.Common.{
  ◌≡◌, refl, inl, ◌∙◌, if◌then◌else◌, arith, true, false, Bool, [], ◌∷◌, some, none, is_some,
  Option, ok, err, pos,
}
use radahn.Domain.Error.{Outcome, database_failure}
use radahn.Persistence.Sqlite.SchemaText.{begin_immediate, commit, rollback, Statement}
use radahn.Persistence.Sqlite.Transactions.{Settled}
use radahn.Persistence.Sqlite.Schema.{
  Database, upgrade_version_one_to_two, upgrades, upgrade_version_two_to_three,
  record_schema_migration, apply_migrations, initialize_body, initialize_sqlite_schema,
}
use radahn.Persistence.Sqlite.Schema.Contents.{
  Contents, apply, possible, version_1, version_4, contents_at, no_marks, all_marks, no_indexes,
  all_indexes,
}
use radahn.Persistence.Sqlite.Schema.Refused.{is_work, IsTransactional, initialize-atomic}
use radahn.Persistence.Sqlite.Schema.Upgraded.{IsReliable, initialize-upgrades}

-- The contents, and those that a rollback restores.
record Store : Type 0 where
  contents : Contents
  before : Option Contents

abbrev try_work : Bool → Contents → Store → Outcome (Unit {0}) × Store
try_work true c s = (ok tt, record s { contents = c })
try_work false c s = (err database_failure, s)

abbrev undone : Option Contents → Store → Store
undone none s = s
undone (some c) s = record { contents = c; before = none }

abbrev control : Statement → Store → Outcome (Unit {0}) × Store
control (begin_immediate ∷ []) s = (ok tt, record s { before = some s.contents })
control (commit ∷ []) s = (ok tt, record s { before = none })
control (rollback ∷ []) s = (ok tt, undone s.before s)
control _ s = (err database_failure, s)

abbrev perform : Statement → Store → Outcome (Unit {0}) × Store
perform work s =
    if is_work work
    then try_work (possible work s.contents) (apply work s.contents) s
    else control work s

abbrev small_database : Database Store
small_database = record { execute = perform; user_version = λ s. ok (pos s.contents.user_version) }

abbrev stored : Store → Contents
stored s = s.contents

abbrev saved : Store → Option Contents
saved s = s.before

abbrev IsOpen : Store → Type 0
IsOpen s = is_some s.before ≡ true

abbrev IsIdle : Store → Type 0
IsIdle s = s.before ≡ none

perform_work :
    (s : Statement) (d : Store)
    → is_work s ≡ true
    → perform s d ≡ try_work (possible s d.contents) (apply s d.contents) d
perform_work s d w = rw w refl

try_work-before : (b : Bool) (c : Contents) (d : Store) → (try_work b c d).1.before ≡ d.before
try_work-before true c d = refl
try_work-before false c d = refl

work-before : (s : Statement) (d : Store) → is_work s ≡ true → (perform s d).1.before ≡ d.before
work-before s d w =
    ground
      (arith, perform_work s d w, try_work-before (possible s d.contents) (apply s d.contents) d)

small_database-IsTransactional : IsTransactional small_database stored saved
small_database-IsTransactional = record {
  transaction = record {
    begin_opens = λ d i h. refl;
    begin_refused = λ e d i h. cc;
    commit_refused = λ t e d o h. cc;
    rollback_restores = λ t d o. rw o (refl, refl);
    rollback_idle = λ d i. rw i (refl, refl);
  };
  work_inside = λ s w. record {
    holds = λ t d o. inl (work-before s d w ∙ o);
    stays = λ t d o h. work-before s d w ∙ o;
  };
}

small_database-IsReliable : IsReliable small_database stored IsOpen IsIdle
small_database-IsReliable = record {
  version_read = λ d. refl;
  begins = λ d i. (refl, refl, refl);
  works = λ s d w o p. ground (arith, perform_work s d w, p);
  commits = λ d o. (refl, refl, refl);
}

-- A database of the first version that has lost its jobs.
abbrev odd_database : Store
odd_database = record {
  contents = record (contents_at version_1 no_indexes no_marks) { jobs = none };
  before = none;
}

-- The upgrade to version 2 has changed the workers when the one to version 3 fails.
odd_refused : (initialize_sqlite_schema small_database odd_database).0 ≡ err database_failure
unfolding initialize_sqlite_schema initialize_body upgrades apply_migrations
    upgrade_version_one_to_two upgrade_version_two_to_three record_schema_migration
odd_refused = refl

initialize-atomic_example :
    Settled stored saved odd_database.contents
      (initialize_sqlite_schema small_database odd_database).1
initialize-atomic_example =
    initialize-atomic small_database stored saved small_database-IsTransactional odd_database
      database_failure refl odd_refused

abbrev first_database : Store
first_database = record { contents = contents_at version_1 no_indexes no_marks; before = none }

initialize-upgrades_example :
    ((initialize_sqlite_schema small_database first_database).0 ≡ ok tt)
    × IsIdle (initialize_sqlite_schema small_database first_database).1
    × (stored (initialize_sqlite_schema small_database first_database).1
        ≡ contents_at version_4 all_indexes all_marks)
initialize-upgrades_example =
    initialize-upgrades small_database stored IsOpen IsIdle small_database-IsReliable version_1
      no_indexes no_marks first_database refl refl
