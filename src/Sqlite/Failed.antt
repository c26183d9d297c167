-- ===== src/Sqlite/Failed.antt =====
-- backends/sqlite/repositories/jobsfailedrepo/api.go: the failed jobs. The identifiers and the clock's
-- times that the code draws itself are arguments.
use outbox.Base.{
  ℕ, suc, Bool, true, false, ◌||◌, Option, none, some, List, [], ◌∷◌, ◌++◌, if◌then◌else◌, nat_beq,
  Text, length,
}
use outbox.Core.Errors.{Time, Reason, sentinel, no_jobs}
use outbox.Core.Model.{JobId, SchemaVersion, validate_capability, normalize_schema_version, is_zero}
use outbox.Core.Retry.{Result, ok, err}
use outbox.Sqlite.Table.{to_ms, from_ms}
use outbox.Sqlite.Sql.{
  Db, FailedRow, Faults, Sql, done, refuse, ◌>>=◌, unless_error, statement, query,
}
use outbox.Sqlite.Jobs.{invalid_argument, constraint_failed, default_queue, wrap}

-- `models.JobFailed`
pub record JobFailed : Type 0 where
  pub id : JobId
  pub job_id : JobId
  pub connection : Text
  pub queue : Text
  pub name : Text
  pub schema_version : SchemaVersion
  pub payload : Text
  pub reason : Reason
  pub exception : Text
  pub failed_at : Time
  pub created_at : Time

-- `scanJobFailed`
abbrev pub scan_failed : FailedRow → JobFailed
scan_failed r = record {
  id = r.id;
  job_id = r.job_id;
  connection = r.connection;
  queue = r.queue;
  name = r.name;
  schema_version = r.schema_version;
  payload = r.payload;
  reason = r.reason;
  exception = r.exception;
  failed_at = from_ms r.failed_at;
  created_at = from_ms r.created_at;
}

abbrev pub failed_as : JobId → List FailedRow → Option FailedRow
failed_as id [] = none
failed_as id (r ∷ rows) = if nat_beq r.id id then some r else failed_as id rows

abbrev pub failed_job : JobId → List FailedRow → Option FailedRow
failed_job id [] = none
failed_job id (r ∷ rows) = if nat_beq r.job_id id then some r else failed_job id rows

abbrev pub is_present : Option FailedRow → Bool
is_present none = false
is_present (some r) = true

-- INSERT, which the primary key and the unique identifiers of jobs restrict.
abbrev pub insert_failed : FailedRow → Db → Result (Unit {0}) × Db
insert_failed r db =
    if is_present (failed_as r.id db.failed) || is_present (failed_job r.job_id db.failed)
    then (err constraint_failed, db)
    else (ok tt, record db { failed = db.failed ++ r ∷ [] })

abbrev pub delete_failed : JobId → List FailedRow → List FailedRow
delete_failed id [] = []
delete_failed id (r ∷ rows) =
    let rest = delete_failed id rows in if nat_beq r.id id then rest else r ∷ rest

abbrev pub count_failed : JobId → List FailedRow → ℕ
count_failed id [] = 0
count_failed id (r ∷ rows) =
    let rest = count_failed id rows in if nat_beq r.id id then suc rest else rest

module _ (faults : Faults) where
  -- `CreateFailedJobVersioned`
  unfoldable pub create_failed_job :
      JobId → Time → JobId → Text → SchemaVersion → Text → Reason → Sql JobId
  create_failed_job id now job_id name version payload reason =
      unless_error (wrap (validate_capability (record { name = name; schema_version = version }))) (
        statement faults (
          insert_failed (record {
            id = id;
            job_id = job_id;
            connection = [];
            queue = default_queue;
            name = name;
            schema_version = version;
            payload = payload;
            reason = reason;
            exception = [];
            failed_at = to_ms now;
            created_at = to_ms now;
          }))
        >>= λ u. done id)

  -- `Create`
  unfoldable pub create_failed : JobId → JobFailed → Sql JobId
  unfolding normalize_schema_version
  create_failed id model =
      statement faults (
        insert_failed (record {
          id = id;
          job_id = model.job_id;
          connection = model.connection;
          queue = model.queue;
          name = model.name;
          schema_version = normalize_schema_version model.schema_version;
          payload = model.payload;
          reason = model.reason;
          exception = model.exception;
          failed_at = to_ms model.failed_at;
          created_at = to_ms model.created_at;
        }))
      >>= λ u. done id

  abbrev pub failed_or_none : Option FailedRow → Sql JobFailed
  failed_or_none none = refuse (sentinel no_jobs)
  failed_or_none (some r) = done (scan_failed r)

  -- `GetByID`
  pub get_failed : JobId → Sql JobFailed
  get_failed id =
      if is_zero id
      then refuse invalid_argument
      else (query faults (λ db. failed_as id db.failed) >>= failed_or_none)

  -- `FindByJobID`; no two rows have one job, so that their order does not matter.
  pub find_failed : JobId → Sql JobFailed
  find_failed job_id =
      if is_zero job_id
      then refuse invalid_argument
      else (query faults (λ db. failed_job job_id db.failed) >>= failed_or_none)

  -- `Delete`
  unfoldable pub delete_failed_job : JobId → Sql ℕ
  delete_failed_job id =
      statement faults
        (λ db. (ok (count_failed id db.failed), record db { failed = delete_failed id db.failed }))

  -- `CountExact`, which `Count` and `CountLight` call
  pub count_exact : Sql ℕ
  count_exact = query faults (λ db. length db.failed)
