-- ===== src/Sqlite/Keys.antt =====
-- backends/sqlite/repositories/jobsrepo/api.go: jobs with a deduplication key, one by one and in batches,
-- and the pruning of the keys' registry. `digest` stands for the SHA-256 sum in hexadecimal and `format`
-- for `time.Time.Format` with RFC3339Nano.
pub mod Storage
pub mod Repetition
pub mod Canonical
use outbox.Base.{
  ℕ, zero, suc, ◌+◌, ◌-◌, ◌/◌, ◌%◌, Bool, true, false, not, ◌&&◌, ◌||◌, Option, none, some, List,
  [], ◌∷◌, ◌++◌, if◌then◌else◌, ltb, nat_beq, Text, elem, nat_eq, text_eq, length, ◌==◌, text_lt,
  is_some,
}
use outbox.Base.Int.{ℤ, pos, negsuc}
use outbox.Core.Errors.{Time, Error, sentinel, wrapped, foreign, idempotency_conflict}
use outbox.Core.Model.{JobId, validate_capability, UniqueBatchPut, UniquePutResult}
use outbox.Core.Retry.{Result, ok, err}
use outbox.Core.Publish.{capability_of, wrap_err}
use outbox.Sqlite.Table.{Row, to_ms}
use outbox.Sqlite.Sql.{
  Db, KeyRow, Faults, Sql, done, refuse, ◌>>=◌, unless_error, statement, query,
  with_immediate_transaction,
}
use outbox.Sqlite.Jobs.{
  invalid_argument, constraint_failed, wrap, insert_job, new_row, any_row, has_key,
}

abbrev pub no_rows : Error
no_rows = foreign 43

-- The digits of a number in front of `tail`; as many steps as the number are enough.
unfoldable pub digits : ℕ → ℕ → Text → Text
digits zero n tail = tail
digits (suc fuel) n tail =
    let more = digits fuel (n / 10) ((48 + n % 10) ∷ tail) in
    if ltb n 10 then (48 + n) ∷ tail else more

-- `strconv.Itoa`
unfoldable pub itoa : ℕ → Text
unfolding digits
itoa n = digits (suc n) n []

-- `strconv.FormatInt` in base 10
unfoldable pub format_int : ℤ → Text
unfolding itoa
format_int (pos n) = itoa n
format_int (negsuc n) = 45 ∷ itoa (suc n)

-- A length, a colon and the text.
unfoldable pub framed : Text → Text
unfolding itoa
framed text = itoa (length text) ++ 58 ∷ text

-- `canonical` of `jobFingerprint`
unfoldable pub canonical : (Time → Text) → UniqueBatchPut → Text
unfolding itoa format_int
canonical format put =
    framed put.name
    ++ framed (format_int put.schema_version)
    ++ framed put.payload
    ++ framed (format put.available_at)

-- `jobFingerprint`
unfoldable pub job_fingerprint : (Text → Text) → (Time → Text) → UniqueBatchPut → Text
unfolding canonical
job_fingerprint digest format put = digest (canonical format put)

abbrev pub find_key : Text → List KeyRow → Option KeyRow
find_key key [] = none
find_key key (k ∷ keys) = if k.deduplication_key == key then some k else find_key key keys

abbrev pub has_job : JobId → List KeyRow → Bool
has_job id [] = false
has_job id (k ∷ keys) = nat_beq k.job_id id || has_job id keys

-- INSERT with ON CONFLICT(deduplication_key) DO NOTHING; the identifiers of jobs are unique too.
abbrev pub insert_key : KeyRow → Db → Result ℕ × Db
insert_key k db =
    if is_some (find_key k.deduplication_key db.keys)
    then (ok 0, db)
    else if has_job k.job_id db.keys
    then (err constraint_failed, db)
    else (ok 1, record db { keys = db.keys ++ k ∷ [] })

-- The statement's error within `fmt.Errorf`.
abbrev pub wrapping : {A : Type 0} → Sql A → Sql A
wrapping m s = let (r, s') = m s in (wrap_err r, s')

abbrev pub empty_key_or : Text → Option Error → Option Error
empty_key_or key rest = if length key == 0 then some invalid_argument else rest

module _ (faults : Faults) (digest : Text → Text) (format : Time → Text) where
  unfoldable pub key_row : JobId → Time → UniqueBatchPut → KeyRow
  unfolding job_fingerprint
  key_row id created put = record {
    deduplication_key = put.deduplication_key;
    job_id = id;
    fingerprint = job_fingerprint digest format put;
    created_at = to_ms created;
  }

  abbrev pub keyed_row : JobId → Time → UniqueBatchPut → Row
  keyed_row id created put =
      new_row id (some put.deduplication_key) put.name put.schema_version put.payload
        put.available_at created

  -- The rest of `createJobVersionedUnique`, from the key that it has read on.
  unfoldable pub put_keyed : Time → UniqueBatchPut → ℕ → Option KeyRow → Sql UniquePutResult
  unfolding job_fingerprint
  put_keyed created put inserted none = refuse (wrapped no_rows)
  put_keyed created put inserted (some stored) =
      if not (stored.fingerprint == job_fingerprint digest format put)
      then refuse (sentinel idempotency_conflict)
      else if nat_beq inserted 0
      then done (record { job_id = stored.job_id; created = false })
      else (wrapping (statement faults (insert_job (keyed_row stored.job_id created put))) >>= λ u.
          done (record { job_id = stored.job_id; created = true }))

  -- `createJobVersionedUnique`
  unfoldable pub put_unique : JobId → Time → UniqueBatchPut → Sql UniquePutResult
  put_unique id created put =
      wrapping (statement faults (insert_key (key_row id created put))) >>= λ inserted.
      wrapping (query faults (λ db. find_key put.deduplication_key db.keys))
      >>= put_keyed created put inserted

  -- `CreateJobVersionedUniqueResult`
  unfoldable pub create_job_unique_result :
      Bool → JobId → Time → UniqueBatchPut → Sql UniquePutResult
  unfolding put_unique
  create_job_unique_result in_tx id created put =
      unless_error
        (empty_key_or put.deduplication_key (wrap (validate_capability (capability_of put))))
        (with_immediate_transaction faults in_tx (put_unique id created put))

  -- `CreateJobVersionedUnique`
  unfoldable pub create_job_unique : Bool → JobId → Time → UniqueBatchPut → Sql JobId
  unfolding create_job_unique_result
  create_job_unique in_tx id created put =
      create_job_unique_result in_tx id created put >>= λ r. done r.job_id

-- The rows of `jobs` with the key.
abbrev pub is_active : Db → KeyRow → Bool
is_active db k = any_row (has_key (some k.deduplication_key)) db.jobs

abbrev pub key_precedes : KeyRow → KeyRow → Bool
key_precedes k j =
    if nat_beq k.created_at j.created_at
    then text_lt k.deduplication_key j.deduplication_key
    else ltb k.created_at j.created_at

-- `registry.created_at < ?` and no active job
abbrev pub is_prunable : ℕ → Db → KeyRow → Bool
is_prunable ms db k = ltb k.created_at ms && not (is_active db k)

unfoldable pub insert_key_by : KeyRow → List KeyRow → List KeyRow
insert_key_by k [] = k ∷ []
insert_key_by k (j ∷ keys) =
    let rest = insert_key_by k keys in if key_precedes j k then j ∷ rest else k ∷ j ∷ keys

unfoldable pub prunable : (KeyRow → Bool) → List KeyRow → List KeyRow
unfolding insert_key_by
prunable p [] = []
prunable p (k ∷ keys) = let rest = prunable p keys in if p k then insert_key_by k rest else rest

abbrev pub first_keys : ℕ → List KeyRow → List Text
first_keys zero keys = []
first_keys (suc n) [] = []
first_keys (suc n) (k ∷ keys) = k.deduplication_key ∷ first_keys n keys

unfoldable pub delete_keys : List Text → List KeyRow → List KeyRow
delete_keys texts [] = []
delete_keys texts (k ∷ keys) =
    let rest = delete_keys texts keys in if elem k.deduplication_key texts then rest else k ∷ rest

unfoldable pub prune_keys : ℕ → ℕ → Db → Result ℕ × Db
unfolding prunable delete_keys
prune_keys ms limit db =
    let kept = delete_keys (first_keys limit (prunable (is_prunable ms db) db.keys)) db.keys in
    (ok (length db.keys - length kept), record db { keys = kept })

-- `PruneJobIdempotencyKeys`
unfoldable pub prune_job_idempotency_keys : Faults → Time → ℕ → Sql ℕ
unfolding prune_keys
prune_job_idempotency_keys faults before limit =
    if nat_beq limit 0 || ltb 10000 limit
    then refuse invalid_argument
    else statement faults (prune_keys (to_ms before) limit)
