-- ===== src/Sqlite/Jobs.antt =====
-- backends/sqlite/repositories/jobsrepo/api.go: creating, claiming, extending, releasing, deleting and
-- rescheduling jobs. Identifiers and the clock's times that the code draws itself are arguments.
pub mod Bounded
pub mod Bytes
pub mod BoundedClaims
pub mod Selection
pub mod Claims
pub mod Exclusion
pub mod Progress
use outbox.Base.{
  ℕ, zero, suc, ◌+◌, ◌-◌, ◌≤◌, Bool, true, false, not, ◌&&◌, ◌||◌, Option, none, some, List, [],
  ◌∷◌, ◌++◌, if◌then◌else◌, ltb, leb, nat_beq, Text, elem, nat_eq, text_eq, length, map, ◌==◌,
}
use outbox.Base.Int.{ℤ, pos, negsuc, ltb_ℤ}
use outbox.Core.Errors.{Time, Error, sentinel, wrapped, foreign, no_jobs}
use outbox.Core.Model.{
  JobId, LeaseToken, SchemaVersion, Job, JobCapability, capability_eq, validate_capability, is_zero,
  NullTime,
}
use outbox.Core.Retry.{Result, ok, err}
use outbox.Core.Batch.{max_reservation_batch_size}
use outbox.Sqlite.Table.{
  Row, precedes, to_ms, from_ms, scan_job, is_held, is_due, is_claimable, row_capability,
  where_rows, order_by, limit_to, count_where, update_where, delete_where, row_ids, find,
  later_than, null_or_up_to,
}
use outbox.Sqlite.Sql.{
  Db, Session, Faults, Sql, done, refuse, ◌>>=◌, unless_error, statement, query,
  with_immediate_transaction, next_ok,
}

abbrev pub invalid_argument : Error
invalid_argument = foreign 41

abbrev pub constraint_failed : Error
constraint_failed = foreign 42

abbrev pub default_queue : Text
default_queue = 113 ∷ 117 ∷ 101 ∷ 117 ∷ 101 ∷ []

-- `LeaseToken.Validate`
abbrev pub validate_token : LeaseToken → Option Error
validate_token token = if is_zero token then some (wrapped invalid_argument) else none

-- `fmt.Errorf("...: %w", err)` around a check.
abbrev pub wrap : Option Error → Option Error
wrap none = none
wrap (some e) = some (wrapped e)

abbrev pub and_then : Option Error → Option Error → Option Error
and_then none e = e
and_then (some e) f = some e

-- `validateBatchClaim`
unfoldable pub validate_batch_claim : LeaseToken → ℕ → Option Error
validate_batch_claim token limit = and_then (wrap (validate_token token)) (
    if nat_beq limit 0 || ltb max_reservation_batch_size limit then some invalid_argument else none)

abbrev pub any_zero : List JobId → Bool
any_zero [] = false
any_zero (id ∷ ids) = is_zero id || any_zero ids

-- `validateBatchLease`
unfoldable pub validate_batch_lease : List JobId → LeaseToken → Option Error
validate_batch_lease ids token =
    if nat_beq (length ids) 0 || ltb max_reservation_batch_size (length ids)
    then some invalid_argument
    else if any_zero ids
    then some invalid_argument
    else wrap (validate_token token)

-- A lease until `ms` under the token, for one attempt more.
abbrev pub reserve : LeaseToken → ℕ → Row → Row
reserve token ms r = record r {
  attempts = r.attempts + 1;
  reserved_at = some ms;
  lease_token = token;
}

abbrev pub increment : ℤ → ℤ
increment (pos n) = pos (n + 1)
increment (negsuc zero) = pos 0
increment (negsuc (suc n)) = negsuc n

-- What `findAndReserveBatchWithExecutor` makes of its rows in memory; they take `until` itself.
abbrev pub reserve_job : LeaseToken → Time → Job → Job
reserve_job token until job = record job {
  attempts = increment job.attempts;
  reserved_at = record { time = until; valid = true };
  lease_token = token;
}

abbrev pub reserve_jobs : LeaseToken → Time → List Row → List Job
reserve_jobs token until [] = []
reserve_jobs token until (r ∷ rows) =
    reserve_job token until (scan_job r) ∷ reserve_jobs token until rows

abbrev pub scan_jobs : List Row → List Job
scan_jobs [] = []
scan_jobs (r ∷ rows) = scan_job r ∷ scan_jobs rows

abbrev pub update_jobs : (Row → Bool) → (Row → Row) → Db → Result ℕ × Db
update_jobs p f db = (ok (count_where p db.jobs), record db { jobs = update_where p f db.jobs })

abbrev pub delete_jobs : (Row → Bool) → Db → Result ℕ × Db
delete_jobs p db = (ok (count_where p db.jobs), record db { jobs = delete_where p db.jobs })

abbrev pub key_is : Option Text → Text → Bool
key_is none key = false
key_is (some k) key = k == key

-- The row has the given key; NULL is no key.
abbrev pub has_key : Option Text → Row → Bool
has_key none r = false
has_key (some key) r = key_is r.deduplication_key key

abbrev pub any_row : (Row → Bool) → List Row → Bool
any_row p [] = false
any_row p (r ∷ rows) = p r || any_row p rows

-- INSERT, which the primary key and the unique index of the keys restrict.
abbrev pub insert_job : Row → Db → Result (Unit {0}) × Db
insert_job r db =
    if elem r.id (row_ids db.jobs) || any_row (has_key r.deduplication_key) db.jobs
    then (err constraint_failed, db)
    else (ok tt, record db { jobs = db.jobs ++ r ∷ [] })

abbrev pub new_row : JobId → Option Text → Text → SchemaVersion → Text → Time → Time → Row
new_row id key name version payload available created = record {
  id = id;
  queue = default_queue;
  name = name;
  schema_version = version;
  payload = payload;
  attempts = 0;
  reserved_at = none;
  lease_token = 0;
  deduplication_key = key;
  available_at = to_ms available;
  created_at = to_ms created;
}

abbrev pub check_capabilities : List JobCapability → Option Error
check_capabilities [] = none
check_capabilities (c ∷ cs) = and_then (wrap (validate_capability c)) (check_capabilities cs)

abbrev pub check_claim : List JobCapability → Option Error
check_claim cs = if nat_beq (length cs) 0 then some (sentinel no_jobs) else check_capabilities cs

-- The rows that SELECT finds for a claim.
abbrev pub claimable : List JobCapability → ℕ → ℕ → Db → List Row
claimable cs ms limit db =
    limit_to limit (order_by precedes (where_rows (is_claimable cs ms) db.jobs))

abbrev pub listed : List JobId → Row → Bool
listed ids r = elem r.id ids

module _ (faults : Faults) where
  -- `CreateJobVersioned`
  unfoldable pub create_job : JobId → Time → Text → SchemaVersion → Text → Time → Sql JobId
  create_job id created name version payload available =
      unless_error (wrap (validate_capability (record { name = name; schema_version = version }))) (
        statement faults (insert_job (new_row id none name version payload available created))
        >>= λ u. done id)

  abbrev pub claimed_all : LeaseToken → Time → List Row → ℕ → Sql (List Job)
  claimed_all token until rows affected =
      if nat_beq affected (length rows)
      then done (reserve_jobs token until rows)
      else refuse (sentinel no_jobs)

  abbrev pub reserve_rows : LeaseToken → Time → List Row → Sql (List Job)
  reserve_rows token until rows =
      if nat_beq (length rows) 0
      then refuse (sentinel no_jobs)
      else (statement faults (update_jobs (listed (row_ids rows)) (reserve token (to_ms until)))
          >>= claimed_all token until rows)

  -- `findAndReserveBatchWithExecutor`
  unfoldable pub reserve_batch : Time → Time → LeaseToken → List JobCapability → ℕ → Sql (List Job)
  reserve_batch now until token cs limit =
      query faults (claimable cs (to_ms now) limit) >>= reserve_rows token until

  -- `FindAndReserveJobsForCapabilities` with `findAndReserveBatch`
  unfoldable pub find_and_reserve_jobs :
      Bool → Time → Time → LeaseToken → List JobCapability → ℕ → Sql (List Job)
  unfolding reserve_batch
  find_and_reserve_jobs in_tx now until token cs limit = unless_error (check_claim cs) (
      unless_error (validate_batch_claim token limit)
        (with_immediate_transaction faults in_tx (reserve_batch now until token cs limit)))

  -- `ExtendJobLeases`
  unfoldable pub extend_job_leases : List JobId → LeaseToken → Time → Time → Sql ℕ
  extend_job_leases ids token now until = unless_error (validate_batch_lease ids token) (
      statement faults (
        update_jobs (is_held ids token (to_ms now))
          (λ r. record r { reserved_at = some (to_ms until) })))

  -- `ReleaseUnstartedJobsWithLease`
  unfoldable pub release_unstarted_jobs : List JobId → LeaseToken → Time → Sql ℕ
  release_unstarted_jobs ids token now = unless_error (validate_batch_lease ids token) (
      statement faults (
        update_jobs (λ r. is_held ids token (to_ms now) r && ltb 0 r.attempts)
          (λ r. record r { attempts = r.attempts - 1; reserved_at = none; lease_token = 0 })))

  abbrev pub validate_one : JobId → LeaseToken → Option Error
  validate_one id token = if is_zero id then some invalid_argument else wrap (validate_token token)

  -- `DeleteJobWithLease`
  unfoldable pub delete_job : JobId → LeaseToken → Time → Sql ℕ
  delete_job id token now =
      unless_error (validate_one id token)
        (statement faults (delete_jobs (is_held (id ∷ []) token (to_ms now))))

  -- `RescheduleJobWithLease`
  unfoldable pub reschedule_job : JobId → LeaseToken → Time → Time → Sql ℕ
  reschedule_job id token now available = unless_error (validate_one id token) (
      statement faults (
        update_jobs (is_held (id ∷ []) token (to_ms now))
          (λ r. record r { available_at = to_ms available; reserved_at = none; lease_token = 0 })))

  abbrev pub job_or_none : Option Row → Sql Job
  job_or_none none = refuse (sentinel no_jobs)
  job_or_none (some r) = done (scan_job r)

  -- `GetByID`
  pub get_by_id : JobId → Sql Job
  get_by_id id =
      if is_zero id
      then refuse invalid_argument
      else (query faults (λ db. find id db.jobs) >>= job_or_none)
