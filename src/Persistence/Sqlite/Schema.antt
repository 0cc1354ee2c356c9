-- ===== src/Persistence/Sqlite/Schema.antt =====
-- libs/persistence/src/sqlite_schema.cpp: the schema of a database, and its upgrades. What SQLite
-- makes of a statement is a parameter.
pub mod Refused
pub mod Contents
pub mod Upgraded
use radahn.Common.{ℕ, ◌==◌, ltb, ℤ, pos, ltb_ℤ, eqb_ℤ, Bool, true, false, ok, err, if◌then◌else◌}
use radahn.Domain.Error.{Outcome, schema_too_new, unknown_migration}
use radahn.Persistence.Sqlite.SchemaText.{
  Statement, begin_immediate_transaction, create_latest, insert_migration, add_last_heartbeat,
  add_lease_expires_at, add_attempt_count, add_max_attempts, set_user_version_4, commit_transaction,
  rollback_transaction,
}
use radahn.Persistence.Sqlite.Session.{Session, lift, ◌>>=◌, ◌>>◌, guarded}

-- `SqliteDatabase`: `D` is the state of the database and its connection.
pub record Database (D : Type 0) : Type 0 where
  pub execute : Statement → Session D (Unit {0})
  pub user_version : D → Outcome ℤ

abbrev pub current_schema_version : ℤ
current_schema_version = pos 4

module _ {D : Type 0} (db : Database D) where
  unfoldable pub create_latest_schema : Session D (Unit {0})
  create_latest_schema = db.execute create_latest

  unfoldable pub record_schema_migration : ℕ → Session D (Unit {0})
  record_schema_migration version =
      if version == 1
      then db.execute (insert_migration 1)
      else if version == 2
      then db.execute (insert_migration 2)
      else if version == 3
      then db.execute (insert_migration 3)
      else if version == 4
      then db.execute (insert_migration 4)
      else lift (err unknown_migration)

  unfoldable pub upgrade_version_one_to_two : Session D (Unit {0})
  unfolding record_schema_migration
  upgrade_version_one_to_two = do db.execute add_last_heartbeat; record_schema_migration 2

  unfoldable pub upgrade_version_two_to_three : Session D (Unit {0})
  unfolding record_schema_migration
  upgrade_version_two_to_three = do db.execute add_lease_expires_at; record_schema_migration 3

  unfoldable pub upgrade_version_three_to_four : Session D (Unit {0})
  unfolding record_schema_migration
  upgrade_version_three_to_four = do
    db.execute add_attempt_count
    db.execute add_max_attempts
    record_schema_migration 4

  -- `if (test) step;`
  abbrev pub only_if : Bool → Session D (Unit {0}) → Session D (Unit {0})
  only_if false step = lift (ok tt)
  only_if true step = step

  -- What both branches end with.
  unfoldable pub ensure_latest : Session D (Unit {0})
  unfolding create_latest_schema record_schema_migration
  ensure_latest = do
    create_latest_schema
    record_schema_migration 1
    record_schema_migration 2
    record_schema_migration 3
    record_schema_migration 4

  unfoldable pub apply_migrations : ℤ → Session D (Unit {0})
  unfolding upgrade_version_one_to_two upgrade_version_two_to_three upgrade_version_three_to_four
      ensure_latest
  apply_migrations existing_version = do
    only_if (ltb_ℤ existing_version (pos 2)) upgrade_version_one_to_two
    only_if (ltb_ℤ existing_version (pos 3)) upgrade_version_two_to_three
    only_if (ltb_ℤ existing_version (pos 4)) upgrade_version_three_to_four
    ensure_latest

  unfoldable pub upgrades : ℤ → Session D (Unit {0})
  unfolding apply_migrations ensure_latest
  upgrades existing_version =
      if eqb_ℤ existing_version (pos 0) then ensure_latest else apply_migrations existing_version

  -- The `try` block.
  unfoldable pub initialize_body : ℤ → Session D (Unit {0})
  unfolding upgrades
  initialize_body existing_version = do
    upgrades existing_version
    db.execute set_user_version_4
    db.execute commit_transaction

  unfoldable pub initialize_sqlite_schema : Session D (Unit {0})
  unfolding initialize_body
  initialize_sqlite_schema = do
    existing_version ← (λ d. (db.user_version d, d))
    if ltb_ℤ current_schema_version existing_version
        then lift (err schema_too_new)
        else (db.execute begin_immediate_transaction
            >> guarded (initialize_body existing_version) (db.execute rollback_transaction))
