-- ===== src/Persistence/Sqlite/WorkerTable/Atomic.antt =====
-- A call that throws leaves the stored workers as they were.
use radahn.Common.{
  ℤ, ◌≡◌, refl, ap, ◌∙◌, inl, inr, List, [], ◌∷◌, Str, Option, none, err, Result-cases, Bool-cases,
}
use radahn.Domain.Double.{Double}
use radahn.Domain.Error.{
  Error, insert_constraint, update_constraint, tags_constraint, database_failure,
}
use radahn.Domain.Id.{WorkerId}
use radahn.Domain.WorkerRecord.{WorkerRecord, snapshot}
use radahn.Persistence.Sqlite.WorkerRow.{WorkerRow, insert_worker_row, update_worker_row}
use radahn.Persistence.Sqlite.WorkerReads.{WorkerSqlite}
use radahn.Persistence.Sqlite.Values.{bind_text}
use radahn.Persistence.Sqlite.Session.{run}
use radahn.Persistence.Sqlite.Transactions.{
  Inside, Careful, StaysInside, IsTransaction, Settled, nothing-Inside, run-Inside, after-Inside,
  lift-Inside, after-Careful, lift-Careful, transaction-Careful,
}
use radahn.Persistence.Sqlite.WorkerTable.{
  insert_each_tag, insert_worker_tags, delete_worker_tags, insert_worker_body, insert,
  update_worker_body, update, contains,
}

module _ {D F T : Type 0} ⦃f : Double F⦄ (sql : WorkerSqlite D F) (stored : D → T)
    (saved : D → Option T) where
  -- SQLite's transactions, and the statements inside them.
  pub record IsTransactionalForWorkers : Type 0 where
    pub transaction : IsTransaction stored saved sql.begin_immediate sql.commit sql.rollback
    pub insert_worker_inside : (r : WorkerRow F) → StaysInside stored saved (sql.insert_worker r)
    pub update_worker_inside :
        (r : ℤ → WorkerRow F) → StaysInside stored saved (sql.update_worker r)
    pub insert_tag_inside : (k tag : Str) → StaysInside stored saved (sql.insert_tag k tag)
    pub delete_tags_inside : (k : Str) → StaysInside stored saved (sql.delete_tags k)

  module _ (t : IsTransactionalForWorkers) where
    insert_each_tag-Inside :
        (worker_id : Str) (tags : List Str)
        → Inside stored saved (insert_each_tag sql worker_id tags)
    unfolding insert_each_tag
    insert_each_tag-Inside worker_id [] = nothing-Inside stored saved
    insert_each_tag-Inside worker_id (tag ∷ tags) =
        lift-Inside stored saved (bind_text worker_id) _ (λ a.
          lift-Inside stored saved (bind_text tag) _ (λ b.
            after-Inside stored saved (run tags_constraint (sql.insert_tag worker_id tag))
              (insert_each_tag sql worker_id tags)
              (run-Inside stored saved tags_constraint (sql.insert_tag worker_id tag)
                (t.insert_tag_inside worker_id tag))
              (insert_each_tag-Inside worker_id tags)))

    delete_worker_tags-Inside :
        (worker_id : WorkerId) → Inside stored saved (delete_worker_tags sql worker_id)
    unfolding delete_worker_tags
    delete_worker_tags-Inside worker_id =
        lift-Inside stored saved (bind_text worker_id.value) _ (λ a.
          run-Inside stored saved database_failure (sql.delete_tags worker_id.value)
            (t.delete_tags_inside worker_id.value))

    commit-Careful : Careful stored saved sql.commit
    commit-Careful x d e o h = t.transaction.commit_refused x e d o h

    insert_worker_tags-Inside :
        (w : WorkerRecord F) → Inside stored saved (insert_worker_tags sql w)
    unfolding insert_worker_tags
    insert_worker_tags-Inside w =
        lift-Inside stored saved (snapshot w) _ (λ s. insert_each_tag-Inside w.id.value s.tags)

    insert_worker_body-Careful :
        (now : ℤ) (w : WorkerRecord F) → Careful stored saved (insert_worker_body sql now w)
    unfolding insert_worker_body
    insert_worker_body-Careful now w = lift-Careful stored saved (insert_worker_row now w) _ (λ row.
        after-Careful stored saved (run insert_constraint (sql.insert_worker row)) _
          (run-Inside stored saved insert_constraint (sql.insert_worker row)
            (t.insert_worker_inside row))
          (after-Careful stored saved (insert_worker_tags sql w) sql.commit
            (insert_worker_tags-Inside w) commit-Careful))

    update_worker_body-Careful :
        (w : WorkerRecord F) → Careful stored saved (update_worker_body sql w)
    unfolding update_worker_body
    update_worker_body-Careful w = lift-Careful stored saved (update_worker_row w) _ (λ row.
        after-Careful stored saved (run update_constraint (sql.update_worker row)) _
          (run-Inside stored saved update_constraint (sql.update_worker row)
            (t.update_worker_inside row))
          (after-Careful stored saved (delete_worker_tags sql w.id) _
            (delete_worker_tags-Inside w.id)
            (after-Careful stored saved (insert_worker_tags sql w) sql.commit
              (insert_worker_tags-Inside w) commit-Careful)))

    -- Over any database whose rollback restores what was stored when the transaction began, an insertion
    -- outside a transaction that throws, at whatever step, leaves what is stored as it was, and no
    -- transaction open.
    insert_worker-atomic :
        (now : ℤ) (w : WorkerRecord F) (d : D) (e : Error)
        → saved d ≡ none
        → (insert sql now w d).0 ≡ err e
        → Settled stored saved (stored d) (insert sql now w d).1
    unfolding insert
    insert_worker-atomic now w d e idle h =
        transaction-Careful stored saved sql.begin_immediate sql.commit sql.rollback
          (insert_worker_body sql now w) t.transaction (insert_worker_body-Careful now w) d e idle h

    contains_state : (worker_id : WorkerId) (d : D) → (contains sql worker_id d).1 ≡ d
    unfolding contains
    contains_state worker_id d = elim (Result-cases (bind_text worker_id.value)) [
      | inl (bound, returned) ↦ rw returned refl
      | inr (e, thrown) ↦ rw thrown refl
    ]

    -- Over any database whose rollback restores what was stored when the transaction began, an
    -- update of a worker outside a transaction that throws, at whatever step, leaves what is
    -- stored as it was, and no transaction open.
    pub update_worker-atomic :
        (w : WorkerRecord F) (d : D) (e : Error)
        → saved d ≡ none
        → (update sql w d).0 ≡ err e
        → Settled stored saved (stored d) (update sql w d).1
    unfolding update
    update_worker-atomic w d e idle h =
        let d' = (contains sql w.id d).1 in
        let same = contains_state w.id d in
        let there : Settled stored saved (stored d) d' = (ap stored same, ap saved same ∙ idle) in
        elim (Result-cases (contains sql w.id d).0) [
          | inr (e', thrown) ↦ rw thrown there
          | inl (found, returned) ↦ elim (Bool-cases found) [
            | inr unknown ↦ rw (returned, unknown) there
            | inl known ↦
                let (kept, closed) =
                  transaction-Careful stored saved sql.begin_immediate sql.commit sql.rollback
                    (update_worker_body sql w) t.transaction (update_worker_body-Careful w) d' e
                    there.1 (rw (returned, known) at h) in
                rw (returned, known) (kept ∙ there.0, closed)
          ]
        ]
