-- ===== src/Sqlite/Integrity/Puts.antt =====
-- `CreateJobVersionedUniqueResult` of backends/sqlite/repositories/jobsrepo/api.go keeps the tables sound.
use outbox.Base.{ℕ, ◌≡◌, refl, Bool, not, Option, none, some, Text, text_eq, ◌==◌, nat_beq}
use outbox.Core.Errors.{Time}
use outbox.Core.Model.{JobId, UniqueBatchPut}
use outbox.Core.Retry.{ok}
use outbox.Sqlite.Table.{Row}
use outbox.Sqlite.Sql.{
  with_immediate_transaction, Db, KeyRow, Session, Fault, fails, unread, left_open, Faults, Sql,
  answer, counted, query, statement, ◌>>=◌,
}
use outbox.Sqlite.Sql.Preservation.{
  Preserves, bind-Preserves, unless_error-Preserves, statement-Preserves, bind-at, if-at,
  statement-at, with_immediate_transaction-Preserves,
}
use outbox.Sqlite.Jobs.{insert_job}
use outbox.Sqlite.Keys.{
  job_fingerprint, find_key, insert_key, key_row, keyed_row, wrapping, put_keyed, put_unique,
  create_job_unique_result,
}
use outbox.Sqlite.Integrity.{IsSound}
use outbox.Sqlite.Integrity.Tables.{insert_job-IsSound, insert_key-IsSound}

-- What follows a wrapped query may use that its answer is true of the database.
pub wrapped_query-Preserves :
    {A B : Type 0} (faults : Faults) (f : Db → A) (k : A → Sql B)
    → ((t : Session) → IsSound t.db → IsSound (k (f t.db) t).1.db)
    → Preserves IsSound (wrapping (query faults f) >>= k)
wrapped_query-Preserves {A} {B} faults f k h s i = go (faults s.calls)
  where
    go :
        (fault : Option Fault)
        → IsSound ((wrapping (answer fault (λ db. (ok (f db), db))) >>= k) s).1.db
    go none = h (counted s) i
    go (some (fails e)) = i
    go (some (unread e)) = i
    go (some (left_open e)) = i

module _ (faults : Faults) (digest : Text → Text) (format : Time → Text) where
  put_keyed-IsSound :
      (created : Time) (put : UniqueBatchPut) (inserted : ℕ) (o : Option KeyRow) (t : Session)
      → find_key put.deduplication_key t.db.keys ≡ o
      → IsSound t.db
      → IsSound (put_keyed faults digest format created put inserted o t).1.db
  unfolding put_keyed
  put_keyed-IsSound created put inserted none t found i = i
  put_keyed-IsSound created put inserted (some stored) t found i =
      if-at IsSound (not (stored.fingerprint == job_fingerprint digest format put)) _ _ t i (
        if-at IsSound (nat_beq inserted 0) _ _ t i (
          bind-at IsSound (wrapping (statement faults (insert_job row))) _ t
            (statement-at IsSound faults (insert_job row) t
              (insert_job-IsSound row t.db (stored, found, refl) i) i)
            (λ u s j. j)))
    where
      row : Row
      row = keyed_row faults digest format stored.job_id created put

  put_unique-IsSound :
      (id : JobId) (created : Time) (put : UniqueBatchPut)
      → Preserves IsSound (put_unique faults digest format id created put)
  unfolding put_unique
  put_unique-IsSound id created put =
      bind-Preserves IsSound
        (wrapping (statement faults (insert_key (key_row faults digest format id created put)))) _
        (λ s i.
          statement-Preserves IsSound faults
            (insert_key (key_row faults digest format id created put))
            (insert_key-IsSound (key_row faults digest format id created put)) s i)
        (λ inserted.
          wrapped_query-Preserves faults (λ db. find_key put.deduplication_key db.keys) _
            (λ t i.
              put_keyed-IsSound created put inserted (find_key put.deduplication_key t.db.keys) t
                refl i))

  pub create_job_unique_result-IsSound :
      (in_tx : Bool) (id : JobId) (created : Time) (put : UniqueBatchPut)
      → Preserves IsSound (create_job_unique_result faults digest format in_tx id created put)
  unfolding create_job_unique_result
  create_job_unique_result-IsSound in_tx id created put =
      unless_error-Preserves IsSound _
        (with_immediate_transaction faults in_tx (put_unique faults digest format id created put))
        (with_immediate_transaction-Preserves IsSound faults in_tx
          (put_unique faults digest format id created put) (put_unique-IsSound id created put))
