-- ===== src/Sqlite/Sql/Preservation.antt =====
-- A property of the database that each part keeps is kept by the whole, whatever calls of the engine fail.
use outbox.Base.{Bool, true, false, Option, none, some, if◌then◌else◌}
use outbox.Core.Errors.{Error}
use outbox.Core.Retry.{Result, ok, err}
use outbox.Sqlite.Sql.{
  Db, Session, Fault, fails, unread, left_open, rolled_back, Faults, Sql, next_ok, ◌>>=◌,
  unless_error, answer, statement, query, command, counted, committed, finish, begun, managed,
  finish_managed, begun_managed, with_immediate_transaction, run_in_tx,
}

module _ (I : Db → Type 0) where
  abbrev pub Preserves : {A : Type 0} → Sql A → Type 0
  Preserves m = (s : Session) → I s.db → I (m s).1.db

  rolled_back-Preserves :
      (start reached : Db) (fault : Option Fault)
      → I start
      → I reached
      → I (rolled_back start reached fault)
  rolled_back-Preserves start reached none h i = h
  rolled_back-Preserves start reached (some (fails e)) h i = h
  rolled_back-Preserves start reached (some (unread e)) h i = h
  rolled_back-Preserves start reached (some (left_open e)) h i = i

  module _ {A : Type 0} where
    next_ok-Preserves :
        {B : Type 0} (k : A → Sql B) (r : Result A) (s : Session)
        → ((a : A) → Preserves (k a))
        → I s.db
        → I (next_ok k r s).1.db
    next_ok-Preserves k (ok a) s h i = h a s i
    next_ok-Preserves k (err e) s h i = i

    pub bind-Preserves :
        {B : Type 0} (m : Sql A) (k : A → Sql B)
        → Preserves m
        → ((a : A) → Preserves (k a))
        → Preserves (m >>= k)
    bind-Preserves m k h hk s i = next_ok-Preserves k (m s).0 (m s).1 hk (h s i)

    -- The same at one state.
    pub bind-at :
        {B : Type 0} (m : Sql A) (k : A → Sql B) (s : Session)
        → I (m s).1.db
        → ((a : A) → Preserves (k a))
        → I ((m >>= k) s).1.db
    bind-at m k s i hk = next_ok-Preserves k (m s).0 (m s).1 hk i

    pub if-at :
        (b : Bool) (m n : Sql A) (s : Session)
        → I (m s).1.db
        → I (n s).1.db
        → I ((if b then m else n) s).1.db
    if-at true m n s hm hn = hm
    if-at false m n s hm hn = hn

    pub unless_error-Preserves :
        (e : Option Error) (m : Sql A) → Preserves m → Preserves (unless_error e m)
    unless_error-Preserves none m h s i = h s i
    unless_error-Preserves (some e) m h s i = i

    pub if-Preserves :
        (b : Bool) (m n : Sql A) → Preserves m → Preserves n → Preserves (if b then m else n)
    if-Preserves true m n hm hn s i = hm s i
    if-Preserves false m n hm hn s i = hn s i

    answer-Preserves :
        (fault : Option Fault) (f : Db → Result A × Db) (s : Session)
        → I (f s.db).1
        → I s.db
        → I (answer fault f s).1.db
    answer-Preserves none f s h i = h
    answer-Preserves (some (fails e)) f s h i = i
    answer-Preserves (some (unread e)) f s h i = h
    answer-Preserves (some (left_open e)) f s h i = i

  module _ {A : Type 0} (faults : Faults) where
    pub statement-Preserves :
        (f : Db → Result A × Db) → ((db : Db) → I db → I (f db).1) → Preserves (statement faults f)
    statement-Preserves f h s i = answer-Preserves (faults s.calls) f s (h s.db i) i

    pub statement-at :
        (f : Db → Result A × Db) (s : Session)
        → I (f s.db).1
        → I s.db
        → I (statement faults f s).1.db
    statement-at f s h i = answer-Preserves (faults s.calls) f s h i

    answer-read :
        {B : Type 0} (fault : Option Fault) (f : Db → A) (k : A → Sql B) (s : Session)
        → ((t : Session) → I t.db → I (k (f t.db) t).1.db)
        → I s.db
        → I (let (r, t) = answer fault (λ db. (ok (f db), db)) s in next_ok k r t).1.db
    answer-read none f k s h i = h (counted s) i
    answer-read (some (fails e)) f k s h i = i
    answer-read (some (unread e)) f k s h i = i
    answer-read (some (left_open e)) f k s h i = i

    -- What follows a query may use that its answer is true of the database.
    pub query-Preserves :
        {B : Type 0} (f : Db → A) (k : A → Sql B)
        → ((t : Session) → I t.db → I (k (f t.db) t).1.db)
        → Preserves (query faults f >>= k)
    query-Preserves f k h s i = answer-read (faults s.calls) f k s h i

    committed-Preserves :
        (start : Db) (a : A) (fault : Option Fault) (s : Session)
        → I start
        → I s.db
        → I (committed faults start a fault s).1.db
    committed-Preserves start a none s h i = i
    committed-Preserves start a (some (fails e)) s h i = h
    committed-Preserves start a (some (unread e)) s h i = i
    committed-Preserves start a (some (left_open e)) s h i = h

    finish-Preserves :
        (start : Db) (r : Result A × Session) → I start → I r.1.db → I (finish faults start r).1.db
    finish-Preserves start (ok a, s) h i = committed-Preserves start a (faults s.calls) s h i
    finish-Preserves start (err e, s) h i = h

    managed-Preserves :
        (start : Db) (a : A) (fault : Option Fault) (s : Session)
        → I start
        → I s.db
        → I (managed faults start a fault s).1.db
    managed-Preserves start a none s h i = i
    managed-Preserves start a (some (fails e)) s h i = h
    managed-Preserves start a (some (unread e)) s h i = i
    managed-Preserves start a (some (left_open e)) s h i = i

    finish_managed-Preserves :
        (start : Db) (r : Result A × Session)
        → I start
        → I r.1.db
        → I (finish_managed faults start r).1.db
    finish_managed-Preserves start (ok a, s) h i = managed-Preserves start a (faults s.calls) s h i
    finish_managed-Preserves start (err e, s) h i =
        rolled_back-Preserves start s.db (faults s.calls) h i

    begun-Preserves :
        (start : Db) (work : Sql A) (r : Result (Unit {0})) (s : Session)
        → Preserves work
        → I start
        → I s.db
        → I (begun faults start work r s).1.db
    begun-Preserves start work (ok u) s w h i = finish-Preserves start (work s) h (w s i)
    begun-Preserves start work (err e) s w h i = i

    begun_managed-Preserves :
        (start : Db) (work : Sql A) (r : Result (Unit {0})) (s : Session)
        → Preserves work
        → I start
        → I s.db
        → I (begun_managed faults start work r s).1.db
    begun_managed-Preserves start work (ok u) s w h i =
        finish_managed-Preserves start (work s) h (w s i)
    begun_managed-Preserves start work (err e) s w h i = i

  command-Preserves : (faults : Faults) → Preserves (command faults)
  command-Preserves faults = statement-Preserves faults (λ db. (ok tt, db)) (λ db i. i)

  module _ {A : Type 0} (faults : Faults) where
    pub with_immediate_transaction-Preserves :
        (in_tx : Bool) (work : Sql A)
        → Preserves work
        → Preserves (with_immediate_transaction faults in_tx work)
    unfolding with_immediate_transaction
    with_immediate_transaction-Preserves true work w s i = w s i
    with_immediate_transaction-Preserves false work w s i =
        bind-Preserves (command faults)
          (λ u t. begun faults s.db work (command faults t).0 (command faults t).1)
          (command-Preserves faults)
          (λ u t j.
            begun-Preserves faults s.db work (command faults t).0 (command faults t).1 w i
              (command-Preserves faults t j))
          s i

    pub run_in_tx-Preserves :
        (in_tx : Bool) (work : Sql A) → Preserves work → Preserves (run_in_tx faults in_tx work)
    unfolding run_in_tx
    run_in_tx-Preserves true work w s i = w s i
    run_in_tx-Preserves false work w s i =
        begun_managed-Preserves faults s.db work (command faults s).0 (command faults s).1 w i
          (command-Preserves faults s i)
