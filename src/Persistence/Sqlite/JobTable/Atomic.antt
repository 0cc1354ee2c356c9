-- ===== src/Persistence/Sqlite/JobTable/Atomic.antt =====
-- A call that throws leaves the stored jobs as they were.
use radahn.Common.{
  ◌≡◌, refl, ap, ◌∙◌, inl, inr, List, [], ◌∷◌, Str, Option, none, err, Result-cases, Bool-cases,
}
use radahn.Domain.Error.{
  Error, insert_constraint, update_constraint, tags_constraint, database_failure,
}
use radahn.Domain.Id.{JobId}
use radahn.Persistence.JobRepository.{JobRecord}
use radahn.Persistence.Sqlite.JobRow.{JobRow, insert_row, update_row}
use radahn.Persistence.Sqlite.Values.{bind_text}
use radahn.Persistence.Sqlite.Session.{Sqlite, run}
use radahn.Persistence.Sqlite.Transactions.{
  Inside, Careful, StaysInside, IsTransaction, Settled, nothing-Inside, run-Inside, after-Inside,
  lift-Inside, after-Careful, lift-Careful, transaction-Careful,
}
use radahn.Persistence.Sqlite.JobTable.{
  insert_tags, insert_required_tags, delete_required_tags, insert_body, insert, update_body, update,
  contains,
}

module _ {D F T : Type 0} (sql : Sqlite D F) (stored : D → T) (saved : D → Option T) where
  -- SQLite's transactions, and the statements inside them.
  pub record IsTransactional : Type 0 where
    pub transaction : IsTransaction stored saved sql.begin_immediate sql.commit sql.rollback
    pub insert_job_inside : (r : JobRow F) → StaysInside stored saved (sql.insert_job r)
    pub update_job_inside : (r : JobRow F) → StaysInside stored saved (sql.update_job r)
    pub insert_tag_inside : (k tag : Str) → StaysInside stored saved (sql.insert_tag k tag)
    pub delete_tags_inside : (k : Str) → StaysInside stored saved (sql.delete_tags k)

  module _ (t : IsTransactional) where
    insert_tags-Inside :
        (job_id : Str) (tags : List Str) → Inside stored saved (insert_tags sql job_id tags)
    unfolding insert_tags
    insert_tags-Inside job_id [] = nothing-Inside stored saved
    insert_tags-Inside job_id (tag ∷ tags) = lift-Inside stored saved (bind_text job_id) _ (λ a.
        lift-Inside stored saved (bind_text tag) _ (λ b.
          after-Inside stored saved (run tags_constraint (sql.insert_tag job_id tag))
            (insert_tags sql job_id tags)
            (run-Inside stored saved tags_constraint (sql.insert_tag job_id tag)
              (t.insert_tag_inside job_id tag))
            (insert_tags-Inside job_id tags)))

    delete_required_tags-Inside :
        (job_id : JobId) → Inside stored saved (delete_required_tags sql job_id)
    unfolding delete_required_tags
    delete_required_tags-Inside job_id = lift-Inside stored saved (bind_text job_id.value) _ (λ a.
        run-Inside stored saved database_failure (sql.delete_tags job_id.value)
          (t.delete_tags_inside job_id.value))

    commit-Careful : Careful stored saved sql.commit
    commit-Careful x d e o h = t.transaction.commit_refused x e d o h

    insert_body-Careful : (r : JobRecord F) → Careful stored saved (insert_body sql r)
    unfolding insert_body
    insert_body-Careful r = lift-Careful stored saved (insert_row r) _ (λ row.
        after-Careful stored saved (run insert_constraint (sql.insert_job row)) _
          (run-Inside stored saved insert_constraint (sql.insert_job row) (t.insert_job_inside row))
          (after-Careful stored saved (insert_required_tags sql r) sql.commit
            (insert_tags-Inside r.job.id.value r.job.requirements.required_tags) commit-Careful))

    update_body-Careful : (r : JobRecord F) → Careful stored saved (update_body sql r)
    unfolding update_body
    update_body-Careful r = lift-Careful stored saved (update_row r) _ (λ row.
        after-Careful stored saved (run update_constraint (sql.update_job row)) _
          (run-Inside stored saved update_constraint (sql.update_job row) (t.update_job_inside row))
          (after-Careful stored saved (delete_required_tags sql r.job.id) _
            (delete_required_tags-Inside r.job.id)
            (after-Careful stored saved (insert_required_tags sql r) sql.commit
              (insert_tags-Inside r.job.id.value r.job.requirements.required_tags) commit-Careful)))

    -- Over any database whose rollback restores what was stored when the transaction began, an insertion
    -- outside a transaction that throws, at whatever step, leaves what is stored as it was, and no
    -- transaction open.
    pub insert-atomic :
        (r : JobRecord F) (d : D) (e : Error)
        → saved d ≡ none
        → (insert sql r d).0 ≡ err e
        → Settled stored saved (stored d) (insert sql r d).1
    unfolding insert
    insert-atomic r d e idle h =
        transaction-Careful stored saved sql.begin_immediate sql.commit sql.rollback
          (insert_body sql r) t.transaction (insert_body-Careful r) d e idle h

    contains_state : (job_id : JobId) (d : D) → (contains sql job_id d).1 ≡ d
    unfolding contains
    contains_state job_id d = elim (Result-cases (bind_text job_id.value)) [
      | inl (bound, returned) ↦ rw returned refl
      | inr (e, thrown) ↦ rw thrown refl
    ]

    -- Over any database whose rollback restores what was stored when the transaction began, an
    -- update outside a transaction that throws, at whatever step, leaves what is stored as it
    -- was, and no transaction open.
    pub update-atomic :
        (r : JobRecord F) (d : D) (e : Error)
        → saved d ≡ none
        → (update sql r d).0 ≡ err e
        → Settled stored saved (stored d) (update sql r d).1
    unfolding update
    update-atomic r d e idle h =
        let d' = (contains sql r.job.id d).1 in
        let same = contains_state r.job.id d in
        let there : Settled stored saved (stored d) d' = (ap stored same, ap saved same ∙ idle) in
        elim (Result-cases (contains sql r.job.id d).0) [
          | inr (e', thrown) ↦ rw thrown there
          | inl (found, returned) ↦ elim (Bool-cases found) [
            | inr unknown ↦ rw (returned, unknown) there
            | inl known ↦
                let (kept, closed) =
                  transaction-Careful stored saved sql.begin_immediate sql.commit sql.rollback
                    (update_body sql r) t.transaction (update_body-Careful r) d' e there.1
                    (rw (returned, known) at h) in
                rw (returned, known) (kept ∙ there.0, closed)
          ]
        ]
