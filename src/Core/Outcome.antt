-- ===== src/Core/Outcome.antt =====
-- The end of an execution batch, of outbox/service_execution_batch.go: from the handler's answer to
-- the outcomes of the rows, and their transaction.
pub mod Classes
pub mod Decisions
pub mod DeadLetters
pub mod Callback
pub mod Coverage
use outbox.Base.{
  ℕ, ◌+◌, not, Option, none, some, List, [], ◌∷◌, if◌then◌else◌, length, is_some, map, ◌==◌, nat_eq,
}
use outbox.Base.Int.{ℤ, leb_ℤ}
use outbox.Base.Dict.{Dict, lookup, insert}
use outbox.Core.Errors.{
  Time, Error, Reason, permanent_failure, max_attempts_exceeded, wrapped, joined, is_handler_panic,
  is_permanent, defer_time,
}
use outbox.Core.Model.{JobId, JobCapability, Job}
use outbox.Core.Retry.{
  Result, ok, err, RetryPolicy, no_earlier, retry_schedule, batch_attempt_backoff,
}
use outbox.Core.Batch.{
  BatchJobItem, BatchResult, BatchJobOutcome, Outcome, success, retry, defer, dlq,
  validate_batch_result, invalid_result,
}
use outbox.Core.Env.{State, ◌>>=◌, ◌>>◌, pure, Env}
use outbox.Core.Claim.{lost}
use outbox.Core.Lease.{Action, finalize_all, lease_finalization_timeout, batch_finalization_margin}
use outbox.Core.Pause.{
  Pacing, pause_batch_capability, reset_batch_retry_streak, top_level_batch_retry_time,
}

-- What stays the same for each row of a batch: the service's policy, the capability, the handler's
-- `MaxAttempts` and the time.
pub record Batching : Type 0 where
  pub policy : Option RetryPolicy
  pub capability : JobCapability
  pub max_attempts : ℤ
  pub now : Time

abbrev pub outcome_of : Job → Outcome → BatchJobOutcome
outcome_of job kind = record { job_id = job.id; kind = kind }

-- `dlqExecutionBatchOutcome`
abbrev pub dlq_outcome : Job → Reason → BatchJobOutcome
dlq_outcome job reason = outcome_of job (dlq reason)

abbrev pub retried : Job → Result Time → Result BatchJobOutcome
retried job (err e) = err e
retried job (ok at) = ok (outcome_of job (retry at))

-- The cases of the loop from the attempt limit on.
pub exhausted_or_retry : Batching → Job → Error → Result BatchJobOutcome
exhausted_or_retry b job e =
    if leb_ℤ b.max_attempts job.attempts
    then ok (dlq_outcome job (max_attempts_exceeded e))
    else retried job (retry_schedule b.policy job e b.now (batch_attempt_backoff job.attempts))

abbrev pub deferred_or :
    Option Time → Batching → Job → Error → Pacing → Result BatchJobOutcome × Pacing
unfolding exhausted_or_retry
deferred_or none b job e s = (exhausted_or_retry b job e, s)
deferred_or (some at) b job e s = (
  ok (outcome_of job (defer (no_earlier at b.now))),
  pause_batch_capability b.capability (no_earlier at b.now) s,
)

-- One round of the loop over the rows' errors.
pub item_outcome : Batching → Job → Option Error → Pacing → Result BatchJobOutcome × Pacing
unfolding exhausted_or_retry
item_outcome b job none s = (ok (outcome_of job success), s)
item_outcome b job (some e) s =
    if is_permanent e
    then (ok (dlq_outcome job (permanent_failure e)), s)
    else deferred_or (defer_time e) b job e s

abbrev pub prepend :
    Result BatchJobOutcome → Result (List BatchJobOutcome) → Result (List BatchJobOutcome)
prepend (err e) rest = err e
prepend (ok o) (err e) = err e
prepend (ok o) (ok os) = ok (o ∷ os)

abbrev pub unless_err : Result BatchJobOutcome → Pacing → Pacing → Pacing
unless_err (err e) s s' = s
unless_err (ok o) s s' = s'

-- The loop; it ends at the first error with the pauses made so far. Rows and errors have one length:
-- `validate_batch_result` gives an error for each item, and each item is of one row.
pub item_outcomes :
    Batching → List Job → List (Option Error) → Pacing → Result (List BatchJobOutcome) × Pacing
unfolding item_outcome
item_outcomes b [] errs s = (ok [], s)
item_outcomes b (job ∷ jobs) [] s = (ok [], s)
item_outcomes b (job ∷ jobs) (e ∷ errs) s =
    let (o, s') = item_outcome b job e s in
    let (os, s'') = item_outcomes b jobs errs s' in (prepend o os, unless_err o s' s'')

abbrev pub defer_all : Time → Job → BatchJobOutcome
defer_all at job = outcome_of job (defer at)

-- The branch of `finishExecutionBatch` for an error of the handler.
pub top_level_outcomes :
    Batching → List Job → BatchResult → Error → Pacing → Result (List BatchJobOutcome) × Pacing
top_level_outcomes b jobs result e s =
    if is_handler_panic e
    then (err e, s)
    else if not (length result == 0)
    then (err (joined invalid_result e), s)
    else if is_permanent e
    then (err (wrapped e), s)
    else (let (at, s') = top_level_batch_retry_time b.capability e b.now s in
        (ok (map (defer_all at) jobs), s'))

abbrev pub validated_outcomes :
    Batching
    → List Job
    → Result (List (Option Error))
    → Pacing
    → Result (List BatchJobOutcome) × Pacing
validated_outcomes b jobs (err e) s = (err e, s)
validated_outcomes b jobs (ok errs) s =
    item_outcomes b jobs errs (reset_batch_retry_streak b.capability s)

-- `finishExecutionBatch` up to `applyExecutionBatchOutcomes`
pub decide_outcomes :
    Batching
    → List Job
    → List BatchJobItem
    → BatchResult
    → Option Error
    → Pacing
    → Result (List BatchJobOutcome) × Pacing
unfolding top_level_outcomes item_outcomes
decide_outcomes b jobs items result none s =
    validated_outcomes b jobs (validate_batch_result items result) s
decide_outcomes b jobs items result (some e) s = top_level_outcomes b jobs result e s

-- 25 milliseconds
abbrev pub batch_dlq_insert_allowance : ℕ
batch_dlq_insert_allowance = 25000000

abbrev pub dlq_reason : Outcome → Option Reason
dlq_reason success = none
dlq_reason (retry at) = none
dlq_reason (defer at) = none
dlq_reason (dlq reason) = some reason

abbrev pub add_allowance : List BatchJobOutcome → ℕ → ℕ
add_allowance [] timeout = timeout
add_allowance (o ∷ os) timeout =
    add_allowance os
      (if is_some (dlq_reason o.kind) then timeout + batch_dlq_insert_allowance else timeout)

-- `executionBatchFinalizationTimeout`
pub finalization_timeout : List BatchJobOutcome → ℕ
finalization_timeout os = add_allowance os lease_finalization_timeout

abbrev pub jobs_by_id : List Job → Dict JobId Job → Dict JobId Job
jobs_by_id [] d = d
jobs_by_id (job ∷ jobs) d = jobs_by_id jobs (insert job.id job d)

module _ (env : Env) where
  open env use {
    World, Ctx, now, with_deadline, without_cancel, create_failed_job, apply_batch_job_outcomes,
    run_in_tx,
  }

  abbrev pub inserted : Result JobId → Option Error
  inserted (err e) = some (wrapped e)
  inserted (ok id) = none

  -- The insertion of one dead-letter row.
  pub dead_letter : Ctx → Option Job → Reason → State World (Option Error)
  dead_letter c none reason = pure (some invalid_result)
  dead_letter c (some job) reason =
      create_failed_job c job.id job.name job.schema_version job.payload reason >>= λ r.
      pure (inserted r)

  abbrev pub dead_letter_or : Ctx → Option Job → Option Reason → State World (Option Error)
  unfolding dead_letter
  dead_letter_or c job none = pure none
  dead_letter_or c job (some reason) = dead_letter c job reason

  -- The loop of `createExecutionBatchDLQRecords`
  pub dead_letters : Ctx → Dict JobId Job → List BatchJobOutcome → State World (Option Error)
  unfolding dead_letter
  dead_letters c d [] = pure none
  dead_letters c d (o ∷ os) =
      let rest = dead_letters c d os in
      dead_letter_or c (lookup o.job_id d) (dlq_reason o.kind) >> rest

  -- `createExecutionBatchDLQRecords`
  pub create_dlq_records : Ctx → List Job → List BatchJobOutcome → State World (Option Error)
  unfolding dead_letters
  create_dlq_records c jobs os = dead_letters c (jobs_by_id jobs []) os

  abbrev pub all_applied : ℕ → Result ℕ → Option Error
  all_applied n (err e) = some (wrapped e)
  all_applied n (ok affected) = if affected == n then none else some lost

  -- The callback of `applyExecutionBatchOutcomes` inside its transaction.
  pub apply_in_tx : ℕ → List Job → List BatchJobOutcome → Ctx → State World (Option Error)
  unfolding create_dlq_records
  apply_in_tx token jobs os c =
      create_dlq_records c jobs os
      >> (now >>= λ t.
          apply_batch_job_outcomes c token t os >>= λ r. pure (all_applied (length os) r))

  -- `applyExecutionBatchOutcomes`, without the events for the observer
  pub apply_outcomes : Ctx → List Job → List BatchJobOutcome → Action env (Option Error)
  unfolding finalization_timeout apply_in_tx
  apply_outcomes c jobs os s =
      let (t, w) = now s.world in
      let deadline = t + finalization_timeout os in
      let c' = with_deadline (without_cancel c) deadline in
      finalize_all env c' (deadline + batch_finalization_margin)
        (run_in_tx c' (apply_in_tx s.ledger.lease_token jobs os)) (record s { world = w })
