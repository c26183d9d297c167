-- ===== src/Sqlite/Integrity/Batches.antt =====
-- `CreateJobVersionedUniqueBatch` of backends/sqlite/repositories/jobsrepo/api.go keeps the tables sound.
use mathlib.Core.Path.{subst}
use outbox.Base.{nat_eq, suc, ◌+◌, ℕ, ◌≡◌, refl, sym, ◌∙◌, Bool, List, [], ◌∷◌, Text, text_eq, All}
use outbox.Core.Errors.{Time}
use outbox.Core.Model.{JobId, UniqueBatchPut, UniquePutResult}
use outbox.Core.Retry.{Result, ok, err}
use outbox.Sqlite.Integrity.Prepared.{IsPrepared, IsCreated, collect_puts-IsCreated}
use outbox.Sqlite.Table.{Row}
use outbox.Sqlite.Sql.{
  run_in_tx, next_ok, Db, KeyRow, Session, Faults, Sql, query, statement, ◌>>=◌,
}
use outbox.Sqlite.Sql.Preservation.{
  run_in_tx-Preserves, Preserves, unless_error-Preserves, bind-at, statement-at,
}
use outbox.Sqlite.Keys.{insert_key, key_row, wrapping}
use outbox.Sqlite.Bulk.{
  key_of, create_job_unique_batch, texts_of, validate_puts, register_keys, job_of, prepare, put_all,
  count_job, finish_puts, insert_jobs, PreparedUniqueBatchPut, insert_each, stored_keys,
  collect_puts,
}
use outbox.Sqlite.Integrity.{IsRegistered, IsSound}
use outbox.Sqlite.Integrity.Tables.{keys_insert_job, insert_job-IsSound, insert_key-IsSound}
use outbox.Sqlite.Integrity.Puts.{wrapped_query-Preserves}

-- One INSERT of several rows.
insert_each-at :
    {A : Type 0} (P : A → Type 0) (keys : List KeyRow → Type 0)
    (insert_one : A → Db → Result ℕ × Db) (rows : List A) (db : Db)
    → ((a : A) (d : Db)
        → P a
        → keys d.keys
        → IsSound d
        → IsSound (insert_one a d).1 × keys (insert_one a d).1.keys)
    → All P rows
    → keys db.keys
    → IsSound db
    → IsSound (insert_each insert_one rows db).1
unfolding insert_each
insert_each-at P keys insert_one [] db one all same i = i
insert_each-at P keys insert_one (a ∷ rows) db one all same i =
    let (sound, same') = one a db all.0 same i in
    go (insert_one a db).0 (insert_each insert_one rows (insert_one a db).1).0
      (insert_each-at P keys insert_one rows (insert_one a db).1 one all.1 same' sound)
  where
    go :
        (r r' : Result ℕ)
        → IsSound (insert_each insert_one rows (insert_one a db).1).1
        → IsSound
            (elim r as (λ x. Result ℕ × Db) [
              | err e ↦ (err e, db)
              | ok n ↦ elim r' as (λ x. Result ℕ × Db) [
                | err e ↦ (err e, db)
                | ok m ↦ (ok (n + m), (insert_each insert_one rows (insert_one a db).1).1)
              ]
            ]).1
    go (err e) r' j = i
    go (ok n) (err e) j = i
    go (ok n) (ok m) j = j

count_job-IsSound :
    (keys : List KeyRow) (r : Row) (db : Db)
    → IsRegistered keys r
    → db.keys ≡ keys
    → IsSound db
    → IsSound (count_job r db).1 × ((count_job r db).1.keys ≡ keys)
count_job-IsSound keys r db new same i = (
  insert_job-IsSound r db (subst (λ ks. IsRegistered ks r) (sym same) new) i,
  keys_insert_job r db ∙ same,
)

insert_key-both : (k : KeyRow) (db : Db) → IsSound db → IsSound (insert_key k db).1 × Unit {0}
insert_key-both k db i = (insert_key-IsSound k db i, tt)

All-trivial : (prepared : List PreparedUniqueBatchPut) → All (λ p. Unit {0}) prepared
All-trivial [] = tt
All-trivial (p ∷ prepared) = (tt, All-trivial prepared)

bind_assoc :
    {A B C : Type 0} (m : Sql A) (k : A → Sql B) (l : B → Sql C) (s : Session)
    → ((m >>= k) >>= l) s ≡ (m >>= λ a. k a >>= l) s
bind_assoc {A} m k l s = go (m s).0 (m s).1
  where
    go : (r : Result A) (t : Session) → (next_ok k r >>= l) t ≡ next_ok (λ a. k a >>= l) r t
    go (ok a) t = refl
    go (err e) t = refl

module _ (faults : Faults) (digest : Text → Text) (format : Time → Text) where
  prepare-IsPrepared :
      (new_id : ℕ → JobId) (created : Time) (index : ℕ) (puts : List UniqueBatchPut)
      → All IsPrepared (prepare faults digest format new_id created index puts)
  unfolding prepare key_row
  prepare-IsPrepared new_id created index [] = tt
  prepare-IsPrepared new_id created index (put ∷ puts) =
      ((refl, refl), prepare-IsPrepared new_id created (suc index) puts)

  insert_jobs-IsSound :
      (created : List PreparedUniqueBatchPut) (t : Session)
      → All (λ q. IsRegistered t.db.keys q.row) created
      → IsSound t.db
      → IsSound (insert_jobs faults digest format created t).1.db
  unfolding insert_jobs
  insert_jobs-IsSound [] t all i = i
  insert_jobs-IsSound (p ∷ created) t all i =
      statement-at IsSound faults (insert_each job_of (p ∷ created)) t
        (insert_each-at (λ q. IsRegistered t.db.keys q.row) (λ keys. keys ≡ t.db.keys) job_of
          (p ∷ created) t.db (λ q d new same j. count_job-IsSound t.db.keys q.row d new same j) all
          refl i)
        i

  finish_puts-IsSound :
      (r : Result (List UniquePutResult × List PreparedUniqueBatchPut)) (t : Session)
      → IsCreated t.db.keys r
      → IsSound t.db
      → IsSound (finish_puts faults digest format r t).1.db
  unfolding finish_puts
  finish_puts-IsSound (err e) t all i = i
  finish_puts-IsSound (ok (results, created)) t all i =
      bind-at IsSound (insert_jobs faults digest format created) _ t
        (insert_jobs-IsSound created t all i) (λ n s j. j)

  put_all-IsSound :
      (prepared : List PreparedUniqueBatchPut)
      → All IsPrepared prepared
      → Preserves IsSound (put_all faults digest format prepared)
  unfolding put_all register_keys
  put_all-IsSound prepared prep s i =
      subst (λ (x : Result (List UniquePutResult) × Session). IsSound x.1.db)
        (sym (
          bind_assoc (wrapping (statement faults (insert_each key_of prepared))) (λ n. stored)
            finish s))
        (bind-at IsSound (wrapping (statement faults (insert_each key_of prepared)))
          (λ n. stored >>= finish) s
          (statement-at IsSound faults (insert_each key_of prepared) s
            (insert_each-at (λ q. Unit {0}) (λ keys. Unit {0}) key_of prepared s.db
              (λ q d u v j. insert_key-both q.key d j) (All-trivial prepared) tt i)
            i)
          (λ n.
            wrapped_query-Preserves faults (λ db. stored_keys (texts_of prepared) db.keys) finish
              (λ t j.
                finish_puts-IsSound
                  (collect_puts (stored_keys (texts_of prepared) t.db.keys) prepared) t
                  (collect_puts-IsCreated (texts_of prepared) t.db.keys prepared prep) j)))
    where
      stored : Sql (List KeyRow)
      stored = wrapping (query faults (λ db. stored_keys (texts_of prepared) db.keys))

      finish : List KeyRow → Sql (List UniquePutResult)
      finish keys = finish_puts faults digest format (collect_puts keys prepared)

  pub create_job_unique_batch-IsSound :
      (in_tx : Bool) (new_id : ℕ → JobId) (created : Time) (puts : List UniqueBatchPut)
      → Preserves IsSound (create_job_unique_batch faults digest format in_tx new_id created puts)
  unfolding create_job_unique_batch
  create_job_unique_batch-IsSound in_tx new_id created puts =
      unless_error-Preserves IsSound (validate_puts puts) (wrapping (run_in_tx faults in_tx work))
        (λ s i.
          run_in_tx-Preserves IsSound faults in_tx work
            (put_all-IsSound prepared (prepare-IsPrepared new_id created 0 puts)) s i)
    where
      prepared : List PreparedUniqueBatchPut
      prepared = prepare faults digest format new_id created 0 puts

      work : Sql (List UniquePutResult)
      work = put_all faults digest format prepared
