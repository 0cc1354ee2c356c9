-- ===== src/Persistence/Sqlite/Transactions.antt =====
-- Calls inside a transaction: what the connection saw when it began is restored by a rollback.
use radahn.Common.{◌≡◌, ◌∙◌, ◌⊎◌, inl, inr, Option, none, some, ok, err, Result-cases, arith}
use radahn.Domain.Error.{Error, Outcome}
use radahn.Persistence.Sqlite.Session.{
  Session, Step, step_done, check_step, lift, run, guarded, ◌>>=◌, ◌>>◌,
}

check_step_done : (e : Error) (s : Step) → check_step e s ≡ ok tt → s ≡ step_done
check_step_done e s h = ground arith

-- `stored d` is what the connection reads, with the changes of an open transaction, and `saved d`
-- is what a rollback restores: `none` if no transaction is open.
module _ {D T : Type 0} (stored : D → T) (saved : D → Option T) where
  -- `t` is what a rollback restores, or a failure has restored it.
  abbrev pub Held : T → D → Type 0
  Held t d = (saved d ≡ some t) ⊎ ((saved d ≡ none) × (stored d ≡ t))

  -- `t` is what is stored, and no transaction is open.
  abbrev pub Settled : T → D → Type 0
  Settled t d = (stored d ≡ t) × (saved d ≡ none)

  -- A statement inside a transaction, which stays open if the statement succeeds. A failure may
  -- end it, and then restores what it had changed.
  pub record StaysInside (statement : D → Step × D) : Type 0 where
    pub step_holds : (t : T) (d : D) → saved d ≡ some t → Held t (statement d).1
    pub step_stays :
        (t : T) (d : D)
        → saved d ≡ some t
        → (statement d).0 ≡ step_done
        → saved (statement d).1 ≡ some t

  -- The statements that begin and end a transaction. A commit that fails leaves it open, or has
  -- restored what it had changed.
  pub record IsTransaction (begin commit rollback : Session D (Unit {0})) : Type 0 where
    pub begin_opens :
        (d : D) → saved d ≡ none → (begin d).0 ≡ ok tt → saved (begin d).1 ≡ some (stored d)
    pub begin_refused :
        (e : Error) (d : D) → saved d ≡ none → (begin d).0 ≡ err e → Settled (stored d) (begin d).1
    pub commit_refused :
        (t : T) (e : Error) (d : D) → saved d ≡ some t → (commit d).0 ≡ err e → Held t (commit d).1
    pub rollback_restores : (t : T) (d : D) → saved d ≡ some t → Settled t (rollback d).1
    pub rollback_idle : (d : D) → saved d ≡ none → Settled (stored d) (rollback d).1

  -- A session inside a transaction, which stays open if the session returns.
  pub record Inside (m : Session D (Unit {0})) : Type 0 where
    pub holds : (t : T) (d : D) → saved d ≡ some t → Held t (m d).1
    pub stays : (t : T) (d : D) → saved d ≡ some t → (m d).0 ≡ ok tt → saved (m d).1 ≡ some t

  -- A session of which a rollback undoes the changes if it throws.
  abbrev pub Careful : Session D (Unit {0}) → Type 0
  Careful m = (t : T) (d : D) (e : Error) → saved d ≡ some t → (m d).0 ≡ err e → Held t (m d).1

  pub run-Inside :
      (e : Error) (statement : D → Step × D) → StaysInside statement → Inside (run e statement)
  run-Inside e statement s = record {
    holds = s.step_holds;
    stays = λ t d o h. s.step_stays t d o (check_step_done e (statement d).0 h);
  }

  pub after-Inside : (m k : Session D (Unit {0})) → Inside m → Inside k → Inside (m >> k)
  after-Inside m k p q = record {
    holds = λ t d o. elim (Result-cases (m d).0) [
      | inl (done, returned) ↦ rw returned (q.holds t (m d).1 (p.stays t d o returned))
      | inr (e, thrown) ↦ rw thrown (p.holds t d o)
    ];
    stays = λ t d o h. elim (Result-cases (m d).0) [
      | inl (done, returned) ↦
          rw returned (q.stays t (m d).1 (p.stays t d o returned) (rw returned at h))
      | inr (e, thrown) ↦ ground (arith, h, thrown)
    ];
  }

  pub nothing-Inside : Inside (lift (ok tt))
  nothing-Inside = record { holds = λ t d o. inl o; stays = λ t d o h. o }

  pub lift-Inside :
      {A : Type 0} (x : Outcome A) (k : A → Session D (Unit {0}))
      → ((a : A) → Inside (k a))
      → Inside (lift x >>= k)
  lift-Inside (ok a) k f = f a
  lift-Inside (err e) k f = record { holds = λ t d o. inl o; stays = λ t d o h. cc }

  pub after-Careful : (m k : Session D (Unit {0})) → Inside m → Careful k → Careful (m >> k)
  after-Careful m k p q t d e o h = elim (Result-cases (m d).0) [
    | inl (done, returned) ↦ rw returned (q t (m d).1 e (p.stays t d o returned) (rw returned at h))
    | inr (e', thrown) ↦ rw thrown (p.holds t d o)
  ]

  pub lift-Careful :
      {A : Type 0} (x : Outcome A) (k : A → Session D (Unit {0}))
      → ((a : A) → Careful (k a))
      → Careful (lift x >>= k)
  lift-Careful (ok a) k f t d e' o h = f a t d e' o h
  lift-Careful (err e) k f t d e' o h = inl o

  -- The rollback of the `catch` block restores what was stored at first.
  rollback-Settled :
      {begin commit rollback : Session D (Unit {0})} (t : T) (d : D)
      → IsTransaction begin commit rollback
      → Held t d
      → Settled t (rollback d).1
  rollback-Settled t d i (inl opened) = i.rollback_restores t d opened
  rollback-Settled t d i (inr (closed, same)) =
      let (kept, idle) = i.rollback_idle d closed in (kept ∙ same, idle)

  -- `BEGIN`, and the body under its `try`.
  pub transaction-Careful :
      (begin commit rollback body : Session D (Unit {0}))
      → IsTransaction begin commit rollback
      → Careful body
      → (d : D) (e : Error) → saved d ≡ none
      → ((begin >> guarded body rollback) d).0 ≡ err e
      → Settled (stored d) ((begin >> guarded body rollback) d).1
  transaction-Careful begin commit rollback body i careful d e idle h =
      elim (Result-cases (begin d).0) [
        | inr (e', thrown) ↦ rw thrown (i.begin_refused e' d idle thrown)
        | inl (done, began) ↦
            let d' = (begin d).1 in
            elim (Result-cases (body d').0) [
              | inl (done', returned) ↦ ground (arith, h, began, returned)
              | inr (e', thrown) ↦
                  rw (began, thrown)
                    (rollback-Settled (stored d) (body d').1 i
                      (careful (stored d) d' e' (i.begin_opens d idle began) thrown))
            ]
      ]
