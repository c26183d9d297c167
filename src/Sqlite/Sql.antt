-- ===== src/Sqlite/Sql.antt =====
-- Statements and transactions: what the repositories of backends/sqlite call of database/sql, and
-- backends/sqlite/repositories/jobsrepo/immediate_transaction.go and
-- backends/sqlite/storage/transaction/manager.go. A statement does what its SQL says, unless the engine
-- fails it; which calls fail, and how, is a parameter. A connection is to be had. `errors.Join` of one
-- error is a `wrapped` one. Panics and `runtime.Goexit` are not modelled.
pub mod Atomicity
pub mod Success
pub mod Preservation
use outbox.Base.{ℕ, suc, ◌≡◌, Bool, true, false, Option, none, some, List, Text}
use outbox.Core.Errors.{Error, wrapped, joined}
use outbox.Core.Model.{JobId, SchemaVersion}
use outbox.Core.Retry.{Result, ok, err}
use outbox.Core.Errors.{Reason}
use outbox.Sqlite.Table.{Row}

-- A row of `outbox_job_idempotency_keys`
pub record KeyRow : Type 0 where
  pub deduplication_key : Text
  pub job_id : JobId
  pub fingerprint : Text
  pub created_at : ℕ

-- A row of `jobs_failed`
pub record FailedRow : Type 0 where
  pub id : JobId
  pub job_id : JobId
  pub connection : Text
  pub queue : Text
  pub name : Text
  pub schema_version : SchemaVersion
  pub payload : Text
  pub reason : Reason
  pub exception : Text
  pub failed_at : ℕ
  pub created_at : ℕ

pub record Db : Type 0 where
  pub jobs : List Row
  pub failed : List FailedRow
  pub keys : List KeyRow

-- The database and the count of the calls so far.
pub record Session : Type 0 where
  pub db : Db
  pub calls : ℕ

-- A call that fails has no effect, or has its effect and fails afterwards, as when its count of rows
-- cannot be read or its context ends. A COMMIT or ROLLBACK that fails may also leave its transaction open on
-- the connection, with all that it has written; any other call that is `left_open` has no effect.
pub data Fault : Type 0 where
  fails : Error → Fault
  unread : Error → Fault
  left_open : Error → Fault

abbrev pub Faults : Type 0
Faults = ℕ → Option Fault

abbrev pub Sql : Type 0 → Type 0
Sql A = Session → Result A × Session

abbrev pub done : {A : Type 0} → A → Sql A
done a s = (ok a, s)

abbrev pub refuse : {A : Type 0} → Error → Sql A
refuse e s = (err e, s)

abbrev pub next_ok : {A B : Type 0} → (A → Sql B) → Result A → Sql B
next_ok k (ok a) = k a
next_ok k (err e) = refuse e

infixl 5 ◌>>=◌
abbrev pub ◌>>=◌ : {A B : Type 0} → Sql A → (A → Sql B) → Sql B
◌>>=◌ m k s = let (r, s') = m s in next_ok k r s'

-- `if err := ...; err != nil { return err }`
abbrev pub unless_error : {A : Type 0} → Option Error → Sql A → Sql A
unless_error none m = m
unless_error (some e) m = refuse e

abbrev pub counted : Session → Session
counted s = record s { calls = suc s.calls }

abbrev pub answer : {A : Type 0} → Option Fault → (Db → Result A × Db) → Sql A
answer none f s = let (r, db) = f s.db in (r, record (counted s) { db = db })
answer (some (fails e)) f s = (err e, counted s)
answer (some (unread e)) f s = (err e, record (counted s) { db = (f s.db).1 })
answer (some (left_open e)) f s = (err e, counted s)

-- `Commit` and `Rollback` of database/sql end the transaction, whatever they answer.
abbrev pub EndTransactions : Faults → Type 0
EndTransactions faults = (n : ℕ) (e : Error) → ¬ (faults n ≡ some (left_open e))

-- The tables after ROLLBACK of `Manager.RunInTx`, which does not discard the connection.
abbrev pub rolled_back : Db → Db → Option Fault → Db
rolled_back start reached none = start
rolled_back start reached (some (fails e)) = start
rolled_back start reached (some (unread e)) = start
rolled_back start reached (some (left_open e)) = reached

module _ (faults : Faults) where
  -- One call of the engine.
  abbrev pub statement : {A : Type 0} → (Db → Result A × Db) → Sql A
  statement f s = answer (faults s.calls) f s

  abbrev pub query : {A : Type 0} → (Db → A) → Sql A
  query f = statement (λ db. (ok (f db), db))

  -- A statement that leaves the tables alone.
  abbrev pub command : Sql (Unit {0})
  command = query (λ db. tt)

  abbrev pub joined_if : Error → Option Fault → Error
  joined_if e none = e
  joined_if e (some (fails f)) = joined e (wrapped f)
  joined_if e (some (unread f)) = joined e (wrapped f)
  joined_if e (some (left_open f)) = joined e (wrapped f)

  -- ROLLBACK of `runImmediateTransaction`; where it fails the connection is discarded, and the engine rolls back.
  abbrev pub roll_back : {A : Type 0} → Db → Error → Sql A
  roll_back start e s = (err (joined_if e (faults s.calls)), record (counted s) { db = start })

  abbrev pub closed : {A : Type 0} → Option Fault → Result A → Result A
  closed none r = r
  closed (some (fails f)) (ok a) = err (wrapped f)
  closed (some (fails f)) (err e) = err (joined e (wrapped f))
  closed (some (unread f)) (ok a) = err (wrapped f)
  closed (some (unread f)) (err e) = err (joined e (wrapped f))
  closed (some (left_open f)) (ok a) = err (wrapped f)
  closed (some (left_open f)) (err e) = err (joined e (wrapped f))

  -- `conn.Close`
  abbrev pub close : {A : Type 0} → Result A × Session → Result A × Session
  close (r, s) = (closed (faults s.calls) r, counted s)

  -- COMMIT, which is rolled back if it fails without effect.
  abbrev pub committed : {A : Type 0} → Db → A → Option Fault → Sql A
  committed start a none s = (ok a, counted s)
  committed start a (some (fails e)) s = roll_back start e (counted s)
  committed start a (some (unread e)) s = (err e, counted s)
  committed start a (some (left_open e)) s = roll_back start e (counted s)

  abbrev pub finish : {A : Type 0} → Db → Result A × Session → Result A × Session
  finish start (ok a, s) = committed start a (faults s.calls) s
  finish start (err e, s) = roll_back start e s

  -- COMMIT of `Manager.RunInTx`, after which no ROLLBACK can reach the engine.
  abbrev pub managed : {A : Type 0} → Db → A → Option Fault → Sql A
  managed start a none s = (ok a, counted s)
  managed start a (some (fails e)) s = (err (wrapped e), record (counted s) { db = start })
  managed start a (some (unread e)) s = (err (wrapped e), counted s)
  managed start a (some (left_open e)) s = (err (wrapped e), counted s)

  abbrev pub finish_managed : {A : Type 0} → Db → Result A × Session → Result A × Session
  finish_managed start (ok a, s) = managed start a (faults s.calls) s
  finish_managed start (err e, s) = (
    err (joined_if e (faults s.calls)),
    record (counted s) { db = rolled_back start s.db (faults s.calls) },
  )

  abbrev pub begun : {A : Type 0} → Db → Sql A → Result (Unit {0}) → Sql A
  begun start work (err e) s = (err (wrapped e), s)
  begun start work (ok u) s = finish start (work s)

  abbrev pub begun_managed : {A : Type 0} → Db → Sql A → Result (Unit {0}) → Sql A
  begun_managed start work (err e) s = (err (wrapped e), s)
  begun_managed start work (ok u) s = finish_managed start (work s)

  -- `withImmediateTransaction` with `runImmediateTransaction`: a PRAGMA, BEGIN IMMEDIATE, the work and
  -- COMMIT; `in_tx` says that the context carries a transaction, which then stays its owner's.
  unfoldable pub with_immediate_transaction : {A : Type 0} → Bool → Sql A → Sql A
  with_immediate_transaction true work s = work s
  with_immediate_transaction false work s = close (
      let (r, s') = command s in
      next_ok (λ u t. let (r', t') = command t in begun s.db work r' t') r s')

  -- `Manager.RunInTx`: begin, commit and roll back are each one call.
  pub run_in_tx : {A : Type 0} → Bool → Sql A → Sql A
  run_in_tx true work s = work s
  run_in_tx false work s = let (r, s') = command s in begun_managed s.db work r s'
