-- ===== src/Sqlite/Integrity/Operations.antt =====
-- Every call of the repositories of backends/sqlite that changes the tables keeps them sound: from an empty
-- database on, in or out of a transaction, and whatever calls of the engine fail.
use outbox.Base.{nat_beq, ltb, ◌||◌, Bool-cases, inl, inr, nat_eq, text_eq, ℕ, Bool, List, Text}
use outbox.Core.Errors.{Time, Reason}
use outbox.Core.Model.{JobId, LeaseToken, SchemaVersion, JobCapability, UniqueBatchPut}
use outbox.Core.Batch.{BatchJobOutcome}
use outbox.Sqlite.Table.{to_ms}
use outbox.Sqlite.Sql.{FailedRow, Db, Session, Faults, statement}
use outbox.Sqlite.Sql.Preservation.{
  if-at, bind-Preserves, unless_error-Preserves, statement-Preserves,
}
use outbox.Sqlite.Jobs.{create_job, find_and_reserve_jobs}
use outbox.Sqlite.Jobs.Bounded.{find_and_reserve_bounded}
use outbox.Sqlite.Outcomes.{apply_batch_job_outcomes}
use outbox.Sqlite.Leases.{LeaseCall, run_call}
use outbox.Sqlite.Keys.{create_job_unique_result, prune_job_idempotency_keys, prune_keys}
use outbox.Sqlite.Bulk.{create_job_unique_batch}
use outbox.Sqlite.Failed.{
  is_present, failed_as, failed_job, JobFailed, create_failed_job, create_failed, delete_failed_job,
  insert_failed,
}
use outbox.Sqlite.Integrity.{IsSound}
use outbox.Sqlite.Integrity.Claims.{create_job-IsSound, claim-IsSound, claim_bounded-IsSound}
use outbox.Sqlite.Integrity.Endings.{lease_call-IsSound, apply-IsSound}
use outbox.Sqlite.Integrity.Pruning.{prune_keys-IsSound}
use outbox.Sqlite.Integrity.Puts.{create_job_unique_result-IsSound}
use outbox.Sqlite.Integrity.Batches.{create_job_unique_batch-IsSound}

pub data Operation : Type 0 where
  create : JobId → Time → Text → SchemaVersion → Text → Time → Operation
  claim : Time → Time → LeaseToken → List JobCapability → ℕ → Operation
  claim_bounded : Time → Time → LeaseToken → JobCapability → ℕ → ℕ → Operation
  call : LeaseToken → Time → LeaseCall → Operation
  apply : LeaseToken → Time → List BatchJobOutcome → Operation
  put_one : JobId → Time → UniqueBatchPut → Operation
  put_batch : (ℕ → JobId) → Time → List UniqueBatchPut → Operation
  prune : Time → ℕ → Operation
  fail : JobId → Time → JobId → Text → SchemaVersion → Text → Reason → Operation
  add_failed : JobId → JobFailed → Operation
  remove_failed : JobId → Operation

module _ (faults : Faults) (digest : Text → Text) (format : Time → Text) where
  abbrev pub run_operation : Bool → Operation → Session → Session
  run_operation in_tx (create id now name version payload at) s =
      (create_job faults id now name version payload at s).1
  run_operation in_tx (claim now until token cs limit) s =
      (find_and_reserve_jobs faults in_tx now until token cs limit s).1
  run_operation in_tx (claim_bounded now until token c most bytes) s =
      (find_and_reserve_bounded faults in_tx now until token c most bytes s).1
  run_operation in_tx (call token now c) s = (run_call faults token now c s).1
  run_operation in_tx (apply token now outcomes) s =
      (apply_batch_job_outcomes faults token now outcomes in_tx s).1
  run_operation in_tx (put_one id now p) s =
      (create_job_unique_result faults digest format in_tx id now p s).1
  run_operation in_tx (put_batch new_id now puts) s =
      (create_job_unique_batch faults digest format in_tx new_id now puts s).1
  run_operation in_tx (prune before limit) s = (prune_job_idempotency_keys faults before limit s).1
  run_operation in_tx (fail id now job name version payload reason) s =
      (create_failed_job faults id now job name version payload reason s).1
  run_operation in_tx (add_failed id model) s = (create_failed faults id model s).1
  run_operation in_tx (remove_failed id) s = (delete_failed_job faults id s).1

  insert_failed-IsSound : (r : FailedRow) (db : Db) → IsSound db → IsSound (insert_failed r db).1
  insert_failed-IsSound r db i =
      elim (Bool-cases
        (is_present (failed_as r.id db.failed) || is_present (failed_job r.job_id db.failed))) [
          | inl taken ↦ rw taken i
          | inr free ↦ rw free i
        ]

  -- One call.
  pub run_operation-IsSound :
      (in_tx : Bool) (op : Operation) (s : Session)
      → IsSound s.db
      → IsSound (run_operation in_tx op s).db
  unfolding prune_job_idempotency_keys create_failed_job create_failed delete_failed_job
  run_operation-IsSound in_tx (create id now name version payload at) s i =
      create_job-IsSound faults id now name version payload at s i
  run_operation-IsSound in_tx (claim now until token cs limit) s i =
      claim-IsSound faults in_tx now until token cs limit s i
  run_operation-IsSound in_tx (claim_bounded now until token c most bytes) s i =
      claim_bounded-IsSound faults in_tx now until token c most bytes s i
  run_operation-IsSound in_tx (call token now c) s i = lease_call-IsSound faults token now c s i
  run_operation-IsSound in_tx (apply token now outcomes) s i =
      apply-IsSound faults token now outcomes in_tx s i
  run_operation-IsSound in_tx (put_one id now p) s i =
      create_job_unique_result-IsSound faults digest format in_tx id now p s i
  run_operation-IsSound in_tx (put_batch new_id now puts) s i =
      create_job_unique_batch-IsSound faults digest format in_tx new_id now puts s i
  run_operation-IsSound in_tx (prune before limit) s i =
      if-at IsSound (nat_beq limit 0 || ltb 10000 limit) _ _ s i (
        statement-Preserves IsSound faults (prune_keys (to_ms before) limit)
          (prune_keys-IsSound (to_ms before) limit) s i)
  run_operation-IsSound in_tx (fail id now job name version payload reason) s i =
      unless_error-Preserves IsSound _ _
        (bind-Preserves IsSound (statement faults (insert_failed _)) _
          (statement-Preserves IsSound faults (insert_failed _) (insert_failed-IsSound _))
          (λ u t j. j))
        s i
  run_operation-IsSound in_tx (add_failed id model) s i =
      bind-Preserves IsSound (statement faults (insert_failed _)) _
        (statement-Preserves IsSound faults (insert_failed _) (insert_failed-IsSound _))
        (λ u t j. j) s i
  run_operation-IsSound in_tx (remove_failed id) s i =
      statement-Preserves IsSound faults _ (λ db j. j) s i
