-- ===== src/Sqlite/Bulk.antt =====
-- backends/sqlite/repositories/jobsrepo/api.go: `CreateJobVersionedUniqueBatch`. The identifiers that the
-- code draws for the items are given by the items' positions.
use outbox.Base.{
  ℕ, suc, ◌+◌, Bool, true, ◌||◌, Option, none, some, List, [], ◌∷◌, if◌then◌else◌, ltb, nat_beq,
  Text, elem, length, ◌==◌, text_eq,
}
use outbox.Base.Dict.{Dict, contains, insert}
use outbox.Core.Errors.{Time, Error, sentinel, idempotency_conflict}
use outbox.Core.Model.{JobId, validate_capability, UniqueBatchPut, UniquePutResult}
use outbox.Core.Retry.{Result, ok, err}
use outbox.Core.Batch.{max_reservation_batch_size}
use outbox.Core.Publish.{capability_of}
use outbox.Sqlite.Table.{Row}
use outbox.Sqlite.Sql.{
  Db, KeyRow, Faults, Sql, done, refuse, ◌>>=◌, unless_error, statement, query, run_in_tx,
}
use outbox.Sqlite.Jobs.{invalid_argument, wrap, and_then, insert_job}
use outbox.Sqlite.Keys.{find_key, insert_key, key_row, keyed_row, wrapping}

-- The loop over the items that checks them.
pub check_puts : List UniqueBatchPut → Dict Text Bool → Option Error
check_puts [] seen = none
check_puts (put ∷ puts) seen =
    let rest = check_puts puts (insert put.deduplication_key true seen) in
    if nat_beq (length put.deduplication_key) 0
    then some invalid_argument
    else if contains put.deduplication_key seen
    then some invalid_argument
    else and_then (wrap (validate_capability (capability_of put))) rest

pub validate_puts : List UniqueBatchPut → Option Error
unfolding check_puts
validate_puts puts =
    if nat_beq (length puts) 0 || ltb max_reservation_batch_size (length puts)
    then some invalid_argument
    else check_puts puts []

-- `preparedUniqueBatchPut`
pub record PreparedUniqueBatchPut : Type 0 where
  pub put : UniqueBatchPut
  pub key : KeyRow
  pub row : Row

-- The rows of one INSERT, all or none.
unfoldable pub insert_each : {A : Type 0} → (A → Db → Result ℕ × Db) → List A → Db → Result ℕ × Db
insert_each insert_one [] db = (ok 0, db)
insert_each insert_one (a ∷ rest) db =
    let (r, after) = insert_one a db in
    let (r', last) = insert_each insert_one rest after in
    elim r [
      | err e ↦ (err e, db)
      | ok n ↦ elim r' [ err e ↦ (err e, db) | ok m ↦ (ok (n + m), last) ]
    ]

abbrev pub one_row : Result (Unit {0}) → Result ℕ
one_row (ok u) = ok 1
one_row (err e) = err e

abbrev pub count_job : Row → Db → Result ℕ × Db
count_job r db = let (done_, after) = insert_job r db in (one_row done_, after)

abbrev pub key_of : PreparedUniqueBatchPut → Db → Result ℕ × Db
key_of p = insert_key p.key

abbrev pub job_of : PreparedUniqueBatchPut → Db → Result ℕ × Db
job_of p = count_job p.row

-- `SELECT ... WHERE deduplication_key IN (...)`
unfoldable pub stored_keys : List Text → List KeyRow → List KeyRow
stored_keys texts [] = []
stored_keys texts (k ∷ keys) =
    let rest = stored_keys texts keys in if elem k.deduplication_key texts then k ∷ rest else rest

abbrev pub texts_of : List PreparedUniqueBatchPut → List Text
texts_of [] = []
texts_of (p ∷ prepared) = p.put.deduplication_key ∷ texts_of prepared

abbrev pub add_result :
    KeyRow
    → PreparedUniqueBatchPut
    → Result (List UniquePutResult × List PreparedUniqueBatchPut)
    → Result (List UniquePutResult × List PreparedUniqueBatchPut)
add_result k p (err e) = err e
add_result k p (ok (results, created)) = ok (
  record { job_id = k.job_id; created = nat_beq k.job_id p.key.job_id } ∷ results,
  if nat_beq k.job_id p.key.job_id then p ∷ created else created,
)

abbrev pub compare_key :
    Option KeyRow
    → PreparedUniqueBatchPut
    → Result (List UniquePutResult × List PreparedUniqueBatchPut)
    → Result (List UniquePutResult × List PreparedUniqueBatchPut)
compare_key none p rest = err (sentinel idempotency_conflict)
compare_key (some k) p rest =
    if k.fingerprint == p.key.fingerprint
    then add_result k p rest
    else err (sentinel idempotency_conflict)

-- The loop over the prepared items: the results, and the items whose jobs are to be created.
unfoldable pub collect_puts :
    List KeyRow
    → List PreparedUniqueBatchPut
    → Result (List UniquePutResult × List PreparedUniqueBatchPut)
collect_puts stored [] = ok ([], [])
collect_puts stored (p ∷ prepared) =
    compare_key (find_key p.put.deduplication_key stored) p (collect_puts stored prepared)

module _ (faults : Faults) (digest : Text → Text) (format : Time → Text) where
  -- `prepareUniqueBatchPuts`, from position `index` on
  unfoldable pub prepare :
      (ℕ → JobId) → Time → ℕ → List UniqueBatchPut → List PreparedUniqueBatchPut
  prepare new_id created index [] = []
  prepare new_id created index (put ∷ puts) =
      record {
        put = put;
        key = key_row faults digest format (new_id index) created put;
        row = keyed_row faults digest format (new_id index) created put;
      }
      ∷ prepare new_id created (suc index) puts

  -- `registerUniqueBatchKeys`
  unfoldable pub register_keys : List PreparedUniqueBatchPut → Sql (List KeyRow)
  unfolding insert_each stored_keys
  register_keys prepared = wrapping (statement faults (insert_each key_of prepared)) >>= λ n.
      wrapping (query faults (λ db. stored_keys (texts_of prepared) db.keys))

  -- `insertUniqueBatchJobs`
  unfoldable pub insert_jobs : List PreparedUniqueBatchPut → Sql ℕ
  unfolding insert_each
  insert_jobs [] = done 0
  insert_jobs (p ∷ created) = wrapping (statement faults (insert_each job_of (p ∷ created)))

  unfoldable pub finish_puts :
      Result (List UniquePutResult × List PreparedUniqueBatchPut) → Sql (List UniquePutResult)
  unfolding insert_jobs
  finish_puts (err e) = refuse e
  finish_puts (ok (results, created)) = insert_jobs created >>= λ n. done results

  -- The callback of `CreateJobVersionedUniqueBatch`
  unfoldable pub put_all : List PreparedUniqueBatchPut → Sql (List UniquePutResult)
  unfolding register_keys insert_jobs collect_puts
  put_all prepared = register_keys prepared >>= λ stored. finish_puts (collect_puts stored prepared)

  -- `CreateJobVersionedUniqueBatch`
  unfoldable pub create_job_unique_batch :
      Bool → (ℕ → JobId) → Time → List UniqueBatchPut → Sql (List UniquePutResult)
  unfolding validate_puts prepare put_all
  create_job_unique_batch in_tx new_id created puts =
      unless_error (validate_puts puts)
        (wrapping (run_in_tx faults in_tx (put_all (prepare new_id created 0 puts))))
