-- ===== src/Persistence/Sqlite/Schema/Refused.antt =====
-- An initialization that throws changes nothing that is stored.
use radahn.Common.{
  ℤ, pos, ltb_ℤ, eqb_ℤ, ◌≡◌, refl, inl, inr, Option, none, [], ◌∷◌, ◌&&◌, Bool, true, false, err,
  Result-cases, Bool-cases, if◌then◌else◌,
}
use radahn.Domain.Error.{Error}
use radahn.Persistence.Sqlite.Session.{Session, ◌>>◌}
use radahn.Persistence.Sqlite.Transactions.{
  Inside, Careful, IsTransaction, Settled, nothing-Inside, after-Inside, after-Careful,
  transaction-Careful,
}
use radahn.Persistence.Sqlite.SchemaText.{
  SqlCommand, begin_immediate, commit, rollback, Statement, begin_immediate_transaction,
  create_latest, insert_migration, add_last_heartbeat, add_lease_expires_at, add_attempt_count,
  add_max_attempts, set_user_version_4, commit_transaction, rollback_transaction,
}
use radahn.Persistence.Sqlite.Schema.{
  Database, current_schema_version, create_latest_schema, record_schema_migration,
  upgrade_version_one_to_two, upgrade_version_two_to_three, upgrade_version_three_to_four, only_if,
  ensure_latest, apply_migrations, upgrades, initialize_body, initialize_sqlite_schema,
}

-- The commands other than those that begin or end a transaction, and the texts of these only.
abbrev is_work_command : SqlCommand → Bool
is_work_command begin_immediate = false
is_work_command commit = false
is_work_command rollback = false
is_work_command _ = true

abbrev pub is_work : Statement → Bool
is_work [] = true
is_work (command ∷ rest) = is_work_command command && is_work rest

module _ {D T : Type 0} (db : Database D) (stored : D → T) (saved : D → Option T) where
  -- SQLite's transactions, and the statements inside them.
  pub record IsTransactional : Type 0 where
    pub transaction :
        IsTransaction stored saved
          (db.execute begin_immediate_transaction)
          (db.execute commit_transaction)
          (db.execute rollback_transaction)
    pub work_inside : (s : Statement) → is_work s ≡ true → Inside stored saved (db.execute s)

  module _ (t : IsTransactional) where
    only_if-Inside :
        (test : Bool) (step : Session D (Unit {0}))
        → Inside stored saved step
        → Inside stored saved (only_if db test step)
    only_if-Inside false step p = nothing-Inside stored saved
    only_if-Inside true step p = p

    ensure_latest-Inside : Inside stored saved (ensure_latest db)
    unfolding ensure_latest create_latest_schema record_schema_migration
    ensure_latest-Inside =
        after-Inside stored saved (db.execute create_latest) _ (t.work_inside create_latest refl) (
          after-Inside stored saved (db.execute (insert_migration 1)) _ (t.work_inside _ refl) (
            after-Inside stored saved (db.execute (insert_migration 2)) _ (t.work_inside _ refl) (
              after-Inside stored saved (db.execute (insert_migration 3)) _ (t.work_inside _ refl)
                (t.work_inside (insert_migration 4) refl))))

    two-Inside :
        (s : Statement) (m : Session D (Unit {0}))
        → is_work s ≡ true
        → Inside stored saved m
        → Inside stored saved (db.execute s >> m)
    two-Inside s m w p = after-Inside stored saved (db.execute s) m (t.work_inside s w) p

    apply_migrations-Inside : (v : ℤ) → Inside stored saved (apply_migrations db v)
    unfolding apply_migrations upgrade_version_one_to_two upgrade_version_two_to_three
        upgrade_version_three_to_four record_schema_migration
    apply_migrations-Inside v =
        after-Inside stored saved (only_if db (ltb_ℤ v (pos 2)) (upgrade_version_one_to_two db)) _
          (only_if-Inside _ _
            (two-Inside add_last_heartbeat _ refl (t.work_inside (insert_migration 2) refl)))
          (after-Inside stored saved
            (only_if db (ltb_ℤ v (pos 3)) (upgrade_version_two_to_three db)) _
            (only_if-Inside _ _
              (two-Inside add_lease_expires_at _ refl (t.work_inside (insert_migration 3) refl)))
            (after-Inside stored saved
              (only_if db (ltb_ℤ v (pos 4)) (upgrade_version_three_to_four db)) _
              (only_if-Inside _ _ (
                two-Inside add_attempt_count _ refl
                  (two-Inside add_max_attempts _ refl (t.work_inside (insert_migration 4) refl))))
              ensure_latest-Inside))

    choice-Inside :
        (test : Bool) (first second : Session D (Unit {0}))
        → Inside stored saved first
        → Inside stored saved second
        → Inside stored saved (if test then first else second)
    choice-Inside true first second p q = p
    choice-Inside false first second p q = q

    initialize_body-Careful : (v : ℤ) → Careful stored saved (initialize_body db v)
    unfolding initialize_body upgrades
    initialize_body-Careful v =
        after-Careful stored saved (upgrades db v) _
          (choice-Inside (eqb_ℤ v (pos 0)) _ _ ensure_latest-Inside (apply_migrations-Inside v))
          (after-Careful stored saved (db.execute set_user_version_4) _
            (t.work_inside set_user_version_4 refl)
            (λ x d e o h. t.transaction.commit_refused x e d o h))

    -- Over any database whose rollback restores what was stored when the transaction began, an
    -- initialization of the schema outside a transaction that throws, because the version is
    -- newer or at whatever statement, leaves what is stored as it was, and no transaction open.
    pub initialize-atomic :
        (d : D) (e : Error)
        → saved d ≡ none
        → (initialize_sqlite_schema db d).0 ≡ err e
        → Settled stored saved (stored d) (initialize_sqlite_schema db d).1
    unfolding initialize_sqlite_schema
    initialize-atomic d e idle h = elim (Result-cases (db.user_version d)) [
      | inr (e', thrown) ↦ rw thrown (refl, idle)
      | inl (v, read) ↦ elim (Bool-cases (ltb_ℤ current_schema_version v)) [
        | inl newer ↦ rw (read, newer) (refl, idle)
        | inr known ↦
            rw (read, known)
              (transaction-Careful stored saved (db.execute begin_immediate_transaction)
                (db.execute commit_transaction) (db.execute rollback_transaction)
                (initialize_body db v) t.transaction (initialize_body-Careful v) d e idle
                (rw (read, known) at h))
      ]
    ]
