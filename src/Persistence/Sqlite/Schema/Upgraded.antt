-- ===== src/Persistence/Sqlite/Schema/Upgraded.antt =====
-- An initialization over a database of any earlier version leaves the latest schema.
use radahn.Common.{ℕ, pos, ltb_ℤ, ◌≡◌, refl, ap, ◌∙◌, true, false, Option, some, List, ok}
use radahn.Persistence.Sqlite.Session.{Session, lift, ◌>>◌}
use radahn.Persistence.Sqlite.SchemaText.{
  Column, Statement, begin_immediate_transaction, create_latest, insert_migration,
  add_last_heartbeat, add_lease_expires_at, add_attempt_count, add_max_attempts, set_user_version_4,
  commit_transaction,
}
use radahn.Persistence.Sqlite.Schema.{
  Database, current_schema_version, create_latest_schema, record_schema_migration,
  upgrade_version_one_to_two, upgrade_version_two_to_three, upgrade_version_three_to_four, upgrades,
  ensure_latest, apply_migrations, initialize_body, initialize_sqlite_schema,
}
use radahn.Persistence.Sqlite.Schema.Refused.{is_work}
use radahn.Persistence.Sqlite.Schema.Contents.{
  Marks, Indexes, Contents, marked, tables, no_marks, all_marks, all_indexes, first_workers,
  latest_workers, first_jobs, leased_jobs, latest_jobs, apply, possible, Version, nothing,
  version_1, version_2, version_3, version_4, contents_at,
}

module _ {D : Type 0} (db : Database D) (view : D → Contents) (Open Idle : D → Type 0) where
  -- A database whose statements do what SQLite documents, where no input or output fails.
  pub record IsReliable : Type 0 where
    pub version_read : (d : D) → db.user_version d ≡ ok (pos (view d).user_version)
    pub begins :
        (d : D)
        → Idle d
        → ((db.execute begin_immediate_transaction d).0 ≡ ok tt)
          × Open (db.execute begin_immediate_transaction d).1
          × (view (db.execute begin_immediate_transaction d).1 ≡ view d)
    pub works :
        (s : Statement) (d : D)
        → is_work s ≡ true
        → Open d
        → possible s (view d) ≡ true
        → ((db.execute s d).0 ≡ ok tt)
          × Open (db.execute s d).1
          × (view (db.execute s d).1 ≡ apply s (view d))
    pub commits :
        (d : D)
        → Open d
        → ((db.execute commit_transaction d).0 ≡ ok tt)
          × Idle (db.execute commit_transaction d).1
          × (view (db.execute commit_transaction d).1 ≡ view d)

  -- Inside a transaction, the session returns, and turns the first contents into the second.
  abbrev Turns : Session D (Unit {0}) → Contents → Contents → Type 0
  Turns m before after =
      (d : D) → Open d → view d ≡ before → ((m d).0 ≡ ok tt) × Open (m d).1 × (view (m d).1 ≡ after)

  Turns-trans :
      (m k : Session D (Unit {0})) {a b c : Contents}
      → Turns m a b
      → Turns k b c
      → Turns (m >> k) a c
  Turns-trans m k p q d o v =
      let (returned, opened, seen) = p d o v in rw returned (q (m d).1 opened seen)

  nothing-Turns : {c : Contents} → Turns (lift (ok tt)) c c
  nothing-Turns d o v = (refl, o, v)

  abbrev record_all : Session D (Unit {0})
  record_all = do
    record_schema_migration db 1
    record_schema_migration db 2
    record_schema_migration db 3
    record_schema_migration db 4

  module _ (r : IsReliable) where
    work-Turns :
        (s : Statement) {c : Contents}
        → is_work s ≡ true
        → possible s c ≡ true
        → Turns (db.execute s) c (apply s c)
    work-Turns s w p d o v =
        let (returned, opened, seen) = r.works s d w o (ap (possible s) v ∙ p) in
        (returned, opened, seen ∙ ap (apply s) v)

    mark-Turns :
        (n : ℕ) {v : ℕ} {w j : Option (List Column)} {i : Indexes} {m : Marks}
        → Turns (db.execute (insert_migration n)) (tables v w j i m) (tables v w j i (marked n m))
    mark-Turns n = work-Turns (insert_migration n) refl refl

    marks-Turns :
        {v : ℕ} {w j : Option (List Column)} {i : Indexes} (m : Marks)
        → Turns (record_all) (tables v w j i m) (tables v w j i all_marks)
    unfolding record_schema_migration
    marks-Turns m = Turns-trans (db.execute (insert_migration 1)) _ (mark-Turns 1) (
        Turns-trans (db.execute (insert_migration 2)) _ (mark-Turns 2)
          (Turns-trans (db.execute (insert_migration 3)) _ (mark-Turns 3) (mark-Turns 4)))

    -- The tables are made, or are there.
    create_new-Turns :
        (i : Indexes) (m : Marks)
        → Turns
            (ensure_latest db)
            (contents_at nothing i m)
            (tables 0 (some latest_workers) (some latest_jobs) all_indexes all_marks)
    unfolding ensure_latest create_latest_schema record_schema_migration
    create_new-Turns i m =
        Turns-trans (db.execute create_latest) _ (work-Turns create_latest refl refl)
          (marks-Turns no_marks)

    ensure_latest-Turns :
        (v : ℕ) (i : Indexes) (m : Marks)
        → Turns
            (ensure_latest db)
            (tables v (some latest_workers) (some latest_jobs) i m)
            (tables v (some latest_workers) (some latest_jobs) all_indexes all_marks)
    unfolding ensure_latest create_latest_schema record_schema_migration
    ensure_latest-Turns v i m =
        Turns-trans (db.execute create_latest) _ (work-Turns create_latest refl refl)
          (marks-Turns m)

    to_two-Turns :
        (v : ℕ) (i : Indexes) (m : Marks)
        → Turns
            (upgrade_version_one_to_two db)
            (tables v (some first_workers) (some first_jobs) i m)
            (tables v (some latest_workers) (some first_jobs) i (marked 2 m))
    unfolding upgrade_version_one_to_two record_schema_migration
    to_two-Turns v i m =
        Turns-trans (db.execute add_last_heartbeat) _ (work-Turns add_last_heartbeat refl refl)
          (mark-Turns 2)

    to_three-Turns :
        (v : ℕ) (i : Indexes) (m : Marks)
        → Turns
            (upgrade_version_two_to_three db)
            (tables v (some latest_workers) (some first_jobs) i m)
            (tables v (some latest_workers) (some leased_jobs) i (marked 3 m))
    unfolding upgrade_version_two_to_three record_schema_migration
    to_three-Turns v i m =
        Turns-trans (db.execute add_lease_expires_at) _ (work-Turns add_lease_expires_at refl refl)
          (mark-Turns 3)

    to_four-Turns :
        (v : ℕ) (i : Indexes) (m : Marks)
        → Turns
            (upgrade_version_three_to_four db)
            (tables v (some latest_workers) (some leased_jobs) i m)
            (tables v (some latest_workers) (some latest_jobs) i (marked 4 m))
    unfolding upgrade_version_three_to_four record_schema_migration
    to_four-Turns v i m =
        Turns-trans (db.execute add_attempt_count) _ (work-Turns add_attempt_count refl refl) (
          Turns-trans (db.execute add_max_attempts) _ (work-Turns add_max_attempts refl refl)
            (mark-Turns 4))

    from_three-Turns :
        (v : ℕ) (i : Indexes) (m : Marks)
        → Turns
            (upgrade_version_three_to_four db >> ensure_latest db)
            (tables v (some latest_workers) (some leased_jobs) i m)
            (tables v (some latest_workers) (some latest_jobs) all_indexes all_marks)
    from_three-Turns v i m =
        Turns-trans (upgrade_version_three_to_four db) _ (to_four-Turns v i m)
          (ensure_latest-Turns v i (marked 4 m))

    from_two-Turns :
        (v : ℕ) (i : Indexes) (m : Marks)
        → Turns
            (upgrade_version_two_to_three db
              >> (upgrade_version_three_to_four db >> ensure_latest db))
            (tables v (some latest_workers) (some first_jobs) i m)
            (tables v (some latest_workers) (some latest_jobs) all_indexes all_marks)
    from_two-Turns v i m =
        Turns-trans (upgrade_version_two_to_three db) _ (to_three-Turns v i m)
          (from_three-Turns v i (marked 3 m))

    body-Turns :
        (x : Version) (i : Indexes) (m : Marks)
        → Turns (upgrades db (pos (contents_at x i m).user_version)) (contents_at x i m) (
            tables
              (contents_at x i m).user_version
              (some latest_workers)
              (some latest_jobs)
              all_indexes
              all_marks)
    unfolding upgrades apply_migrations
    body-Turns nothing i m = create_new-Turns i m
    body-Turns version_1 i m =
        Turns-trans (upgrade_version_one_to_two db) _ (to_two-Turns 1 i m)
          (from_two-Turns 1 i (marked 2 m))
    body-Turns version_2 i m = from_two-Turns 2 i m
    body-Turns version_3 i m = from_three-Turns 3 i m
    body-Turns version_4 i m = ensure_latest-Turns 4 i m

    known_version :
        (x : Version) (i : Indexes) (m : Marks)
        → ltb_ℤ current_schema_version (pos (contents_at x i m).user_version) ≡ false
    known_version nothing i m = refl
    known_version version_1 i m = refl
    known_version version_2 i m = refl
    known_version version_3 i m = refl
    known_version version_4 i m = refl

    initialize_body-lem :
        (x : Version) (i : Indexes) (m : Marks) (d : D)
        → Open d
        → view d ≡ contents_at x i m
        → ((initialize_body db (pos (contents_at x i m).user_version) d).0 ≡ ok tt)
          × Idle (initialize_body db (pos (contents_at x i m).user_version) d).1
          × (view (initialize_body db (pos (contents_at x i m).user_version) d).1
              ≡ contents_at version_4 all_indexes all_marks)
    unfolding initialize_body
    initialize_body-lem x i m d o v =
        let (changed, opened, seen) = body-Turns x i m d o v in
        let d' = (upgrades db (pos (contents_at x i m).user_version) d).1 in
        let (noted, still, seen') = work-Turns set_user_version_4 refl refl d' opened seen in
        let (committed, closed, same) = r.commits (db.execute set_user_version_4 d').1 still in
        rw (changed, noted) (committed, closed, same ∙ seen')

    pub initialize-upgrades :
        (x : Version) (i : Indexes) (m : Marks) (d : D)
        → Idle d
        → view d ≡ contents_at x i m
        → ((initialize_sqlite_schema db d).0 ≡ ok tt)
          × Idle (initialize_sqlite_schema db d).1
          × (view (initialize_sqlite_schema db d).1 ≡ contents_at version_4 all_indexes all_marks)
    unfolding initialize_sqlite_schema
    initialize-upgrades x i m d idle v =
        let (began, opened, seen) = r.begins d idle in
        let (returned, closed, made) =
          initialize_body-lem x i m (db.execute begin_immediate_transaction d).1 opened
            (seen ∙ v) in
        let read : db.user_version d ≡ ok (pos (contents_at x i m).user_version) =
          r.version_read d ∙ ap (λ c. ok (pos c.user_version)) v in
        rw (read, known_version x i m, began, returned) (refl, closed, made)
