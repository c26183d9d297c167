-- ===== src/Sqlite/Sql/Success.antt =====
-- What a success tells of its parts: each call before it has succeeded.
use outbox.Base.{◌≡◌, refl, Option, none, some, Bool, true, false, if◌then◌else◌}
use outbox.Core.Errors.{Error}
use outbox.Core.Retry.{Result, ok, err}
use outbox.Sqlite.Sql.{
  Db, Session, Fault, fails, unread, left_open, Faults, Sql, refuse, next_ok, ◌>>=◌, unless_error,
  answer, statement, counted, with_immediate_transaction,
}

bind_result-ok :
    {A B : Type 0} (k : A → Sql B) (r : Result A) (t : Session) (b : B)
    → (next_ok k r t).0 ≡ ok b
    → (a : A) × (r ≡ ok a) × (next_ok k r t ≡ k a t)
bind_result-ok k (ok a) t b h = (a, refl, refl)
bind_result-ok k (err e) t b h = cc

pub bind-ok :
    {A B : Type 0} (m : Sql A) (k : A → Sql B) (s : Session) (b : B)
    → ((m >>= k) s).0 ≡ ok b
    → (a : A) × ((m s).0 ≡ ok a) × ((m >>= k) s ≡ k a (m s).1)
bind-ok m k s b h = bind_result-ok k (m s).0 (m s).1 b h

answer-ok :
    {A : Type 0} (fault : Option Fault) (f : Db → Result A × Db) (s : Session) (a : A)
    → (answer fault f s).0 ≡ ok a
    → ((f s.db).0 ≡ ok a) × ((answer fault f s).1.db ≡ (f s.db).1)
answer-ok none f s a h = (h, refl)
answer-ok (some (fails e)) f s a h = cc
answer-ok (some (unread e)) f s a h = cc
answer-ok (some (left_open e)) f s a h = cc

pub statement-ok :
    {A : Type 0} (faults : Faults) (f : Db → Result A × Db) (s : Session) (a : A)
    → (statement faults f s).0 ≡ ok a
    → ((f s.db).0 ≡ ok a) × ((statement faults f s).1.db ≡ (f s.db).1)
statement-ok faults f s a h = answer-ok (faults s.calls) f s a h

pub unless_error-ok :
    {A : Type 0} (e : Option Error) (m : Sql A) (s : Session) (a : A)
    → (unless_error e m s).0 ≡ ok a
    → (e ≡ none) × (unless_error e m s ≡ m s)
unless_error-ok none m s a h = (refl, refl)
unless_error-ok (some e) m s a h = cc

-- A guard that refuses has not done so.
pub guard-ok :
    {A : Type 0} (b : Bool) (e : Error) (m : Sql A) (s : Session) (a : A)
    → ((if b then refuse e else m) s).0 ≡ ok a
    → (b ≡ false) × ((if b then refuse e else m) s ≡ m s)
guard-ok true e m s a h = cc
guard-ok false e m s a h = (refl, refl)

pub test-ok :
    {A : Type 0} (b : Bool) (e : Error) (m : Sql A) (s : Session) (a : A)
    → ((if b then m else refuse e) s).0 ≡ ok a
    → (b ≡ true) × ((if b then m else refuse e) s ≡ m s)
test-ok true e m s a h = (refl, refl)
test-ok false e m s a h = cc

pub ok-injective : {A : Type 0} (a b : A) → ok a ≡ ok b → a ≡ b
ok-injective a b h = cc

abbrev pub no_faults : Faults
no_faults n = none

abbrev pub kept_db : {A : Type 0} → Result A → Db → Db → Db
kept_db (ok a) done_ start = done_
kept_db (err e) done_ start = start

-- Where no call of the engine fails, a transaction's answer is its work's; an error leaves the database as
-- it was.
pub with_immediate_transaction-no_faults :
    {A : Type 0} (work : Sql A) (t u : Session) (r : Result A)
    → work (counted (counted t)) ≡ (r, u)
    → ((with_immediate_transaction no_faults false work t).0 ≡ r)
      × ((with_immediate_transaction no_faults false work t).1.db ≡ kept_db r u.db t.db)
unfolding with_immediate_transaction
with_immediate_transaction-no_faults work t u (ok a) h = rw h (refl, refl)
with_immediate_transaction-no_faults work t u (err e) h = rw h (refl, refl)
