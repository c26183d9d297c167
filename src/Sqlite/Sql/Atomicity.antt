-- ===== src/Sqlite/Sql/Atomicity.antt =====
-- A transaction leaves either the tables it began with or all that its work has done.
use outbox.Base.{sym, ◌∙◌, ap, ◌≡◌, refl, true, false, Option, none, some, inl, inr, ◌⊎◌}
use outbox.Core.Errors.{Error}
use outbox.Core.Retry.{Result, ok, err}
use outbox.Sqlite.Sql.{
  Db, Session, Fault, fails, unread, left_open, EndTransactions, rolled_back, Faults, Sql, finish,
  committed, close, closed, begun, managed, finish_managed, begun_managed, command, next_ok,
  with_immediate_transaction, run_in_tx, counted, answer,
}

-- From `start`, the work ran in full and its tables stand, or the tables are those of the start; the
-- first where there is no error.
abbrev pub Atomic : {A : Type 0} → Db → Sql A → Result A × Session → Type 0
Atomic start work (ok a, s') =
    (t : Session) × (t.db ≡ start) × ((work t).0 ≡ ok a) × (s'.db ≡ (work t).1.db)
Atomic {A} start work (err e, s') =
    (s'.db ≡ start)
    ⊎ ((t : Session) × (a : A) × (t.db ≡ start) × ((work t).0 ≡ ok a) × (s'.db ≡ (work t).1.db))

rolled_back_start :
    (start : Db) (f : Option Fault) (reached : Db)
    → ((e : Error) → ¬ (f ≡ some (left_open e)))
    → rolled_back start reached f ≡ start
rolled_back_start start none reached ends = refl
rolled_back_start start (some (fails e)) reached ends = refl
rolled_back_start start (some (unread e)) reached ends = refl
rolled_back_start start (some (left_open e)) reached ends = absurd (ends e refl)

module _ {A : Type 0} (faults : Faults) (start : Db) (work : Sql A) where
  committed-Atomic :
      (a : A) (f : Option Fault) (t s : Session)
      → t.db ≡ start
      → (work t).0 ≡ ok a
      → s ≡ (work t).1
      → Atomic start work (committed faults start a f s)
  committed-Atomic a none t s h k e = (t, h, k, ap (λ (u : Session). u.db) e)
  committed-Atomic a (some (fails f)) t s h k e = inl refl
  committed-Atomic a (some (unread f)) t s h k e = inr (t, a, h, k, ap (λ (u : Session). u.db) e)
  committed-Atomic a (some (left_open f)) t s h k e = inl refl

  finish-Atomic :
      (r : Result A × Session) (t : Session)
      → t.db ≡ start
      → work t ≡ r
      → Atomic start work (finish faults start r)
  finish-Atomic (ok a, s) t h k =
      committed-Atomic a (faults s.calls) t s h (ap (λ (p : Result A × Session). p.0) k)
        (sym (ap (λ (p : Result A × Session). p.1) k))
  finish-Atomic (err e, s) t h k = inl refl

  begun-Atomic :
      (r : Result (Unit {0})) (t : Session)
      → t.db ≡ start
      → Atomic start work (begun faults start work r t)
  begun-Atomic (err e) t h = inl h
  begun-Atomic (ok u) t h = finish-Atomic (work t) t h refl

  managed-Atomic :
      (a : A) (f : Option Fault) (t s : Session)
      → t.db ≡ start
      → (work t).0 ≡ ok a
      → s ≡ (work t).1
      → Atomic start work (managed faults start a f s)
  managed-Atomic a none t s h k e = (t, h, k, ap (λ (u : Session). u.db) e)
  managed-Atomic a (some (fails f)) t s h k e = inl refl
  managed-Atomic a (some (unread f)) t s h k e = inr (t, a, h, k, ap (λ (u : Session). u.db) e)
  managed-Atomic a (some (left_open f)) t s h k e = inr (t, a, h, k, ap (λ (u : Session). u.db) e)

  finish_managed-Atomic :
      (r : Result A × Session) (t : Session)
      → EndTransactions faults
      → t.db ≡ start
      → work t ≡ r
      → Atomic start work (finish_managed faults start r)
  finish_managed-Atomic (ok a, s) t ends h k =
      managed-Atomic a (faults s.calls) t s h (ap (λ (p : Result A × Session). p.0) k)
        (sym (ap (λ (p : Result A × Session). p.1) k))
  finish_managed-Atomic (err e, s) t ends h k =
      inl (rolled_back_start start (faults s.calls) s.db (ends s.calls))

  begun_managed-Atomic :
      (r : Result (Unit {0})) (t : Session)
      → EndTransactions faults
      → t.db ≡ start
      → Atomic start work (begun_managed faults start work r t)
  begun_managed-Atomic (err e) t ends h = inl h
  begun_managed-Atomic (ok u) t ends h = finish_managed-Atomic (work t) t ends h refl

  close-Atomic : (r : Result A × Session) → Atomic start work r → Atomic start work (close faults r)
  close-Atomic (ok a, s) h = go (faults s.calls)
    where
      go : (f : Option Fault) → Atomic start work (closed faults f (ok a), counted s)
      go none = h
      go (some (fails f)) = inr (h.0, a, h.1, h.2, h.3)
      go (some (unread f)) = inr (h.0, a, h.1, h.2, h.3)
      go (some (left_open f)) = inr (h.0, a, h.1, h.2, h.3)
  close-Atomic (err e, s) h = go (faults s.calls)
    where
      go : (f : Option Fault) → Atomic start work (closed faults f (err e), counted s)
      go none = h
      go (some (fails f)) = h
      go (some (unread f)) = h
      go (some (left_open f)) = h

pub command_same : (faults : Faults) (s : Session) → (command faults s).1.db ≡ s.db
command_same faults s = go (faults s.calls)
  where
    go : (f : Option Fault) → (answer {A = Unit {0}} f (λ db. (ok tt, db)) s).1.db ≡ s.db
    go none = refl
    go (some (fails e)) = refl
    go (some (unread e)) = refl
    go (some (left_open e)) = refl

module _ {A : Type 0} (faults : Faults) (work : Sql A) (s : Session) where
  -- A transaction of its own is atomic.
  pub with_immediate_transaction-Atomic :
      Atomic s.db work (with_immediate_transaction faults false work s)
  unfolding with_immediate_transaction
  with_immediate_transaction-Atomic =
      close-Atomic faults s.db work _
        (go (command faults s).0 (command faults s).1 (command_same faults s))
    where
      go :
          (r : Result (Unit {0})) (t : Session)
          → t.db ≡ s.db
          → Atomic s.db work (
              next_ok
                (λ (u : Unit {0}) v.
                  let (r', t') = command faults v in begun faults s.db work r' t')
                r
                t)
      go (err e) t h = inl h
      go (ok u) t h =
          begun-Atomic faults s.db work (command faults t).0 (command faults t).1
            (command_same faults t ∙ h)

  -- So is one of `Manager.RunInTx`, where its ends are ends.
  pub run_in_tx-Atomic : EndTransactions faults → Atomic s.db work (run_in_tx faults false work s)
  unfolding run_in_tx
  run_in_tx-Atomic ends =
      begun_managed-Atomic faults s.db work (command faults s).0 (command faults s).1 ends
        (command_same faults s)

  -- In a transaction of the caller's the work is all there is.
  pub run_in_tx-joined : run_in_tx faults true work s ≡ work s
  unfolding run_in_tx
  run_in_tx-joined = refl
