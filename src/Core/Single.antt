-- ===== src/Core/Single.antt =====
-- One claimed row of outbox/service_batch.go, from its handler to its finalization: `processBatchJob`,
-- `ackBatch`, `dlqBatch`, `deferLeased` and `rescheduleLeased`, without the log and the observer.
pub mod Release
use outbox.Base.{
  ℕ, Bool, true, false, not, Option, none, some, if◌then◌else◌, ◌==◌, nat_eq, is_some, ◌||◌,
}
use outbox.Base.Int.{ℤ, pos, leb_ℤ}
use outbox.Core.Errors.{
  Time, Error, Reason, permanent_failure, max_attempts_exceeded, sentinel, wrapped, lease_lost,
  batch_repository_not_configured, is_permanent, defer_time, retry_time,
}
use outbox.Core.Model.{JobId, JobCapability, Job, job_capability}
use outbox.Core.Retry.{Result, ok, err, RetryPolicy, no_earlier, retry_schedule}
use outbox.Core.Env.{State, ◌>>=◌, ◌>>◌, pure, Env}
use outbox.Core.Claim.{unsupported}
use outbox.Core.Lease.{Held, Action, outside, admit, finalize, forget}

abbrev pub one_affected : Result ℕ → Option Error
one_affected (err e) = some (wrapped e)
one_affected (ok n) = if n == 1 then none else some (sentinel lease_lost)

abbrev pub inserted : Result JobId → Option Error
inserted (err e) = some (wrapped e)
inserted (ok id) = none

module _ (env : Env) where
  open env use {
    World, Ctx, now, cause, delete_job, reschedule_job, defer_job, create_failed_job, run_in_tx,
  }

  -- What the service adds to a row: the registered handlers' `MaxAttempts`, `executeJob`, and
  -- `pauseBatchCapability` on the service's state, which is part of the world of a manager.
  pub record Service : Type 1 where
    pub policy : Option RetryPolicy
    pub max_attempts : JobCapability → Option ℤ
    pub execute : Ctx → Job → State World (Option Error)
    pub pause : JobCapability → Time → World → World
    pub can_defer : Bool

  -- `ackBatch`
  unfoldable pub ack : Job → Ctx → State World (Option Error)
  ack job c = now >>= λ t. delete_job c job.id job.lease_token t >>= λ r. pure (one_affected r)

  -- `dlqBatch`
  pub dead_letter_and_delete : Job → Reason → Ctx → State World (Option Error)
  unfolding ack
  dead_letter_and_delete job reason c = run_in_tx c (λ tx.
      (create_failed_job tx job.id job.name job.schema_version job.payload reason >>= λ r.
      pure (inserted r))
      >> ack job tx)

  -- `rescheduleLeased`
  pub reschedule : Job → Time → Ctx → State World (Option Error)
  reschedule job at c = now >>= λ t.
      reschedule_job c job.id job.lease_token t (no_earlier at t) >>= λ r. pure (one_affected r)

  module _ (service : Service) where
    open service use {policy, max_attempts, execute, pause, can_defer}

    -- The capability of the row as it is stored, its schema version not normalized.
    abbrev pub stored_capability : Job → JobCapability
    stored_capability job = record { name = job.name; schema_version = job.schema_version }

    -- `deferLeased`
    pub defer_leased : Job → Time → Ctx → State World (Option Error)
    defer_leased job at c =
        if not can_defer
        then pure (some (sentinel batch_repository_not_configured))
        else (now >>= λ t.
            (defer_job c job.id job.lease_token t (no_earlier at t) >>= λ r. pure (one_affected r))
            >> (λ w. (none, pause (stored_capability job) (no_earlier at t) w)))

    abbrev pub Started : Type 0
    Started = Bool × Option Error

    abbrev pub started : Action env (Option Error) → Action env Started
    started m = m >>= λ e. pure (true, e)

    abbrev pub at_retry : Ctx → Job → Result Time → Action env Started
    at_retry c job (err e) = pure (true, some e)
    at_retry c job (ok at) = started (finalize env c job.id (reschedule job at))

    -- The default case: an explicit time or the policy reschedules the row, and else its lease is
    -- left to end by itself.
    pub retry_or_leave : Ctx → Job → Error → Action env Started
    retry_or_leave c job e =
        if is_some (retry_time e) || is_some policy
        then (outside env now >>= λ t. at_retry c job (retry_schedule policy job e t (pos 0)))
        else started (forget env job.id)

    abbrev pub deferred_or : Ctx → Job → ℤ → Error → Option Time → Action env Started
    unfolding retry_or_leave defer_leased dead_letter_and_delete
    deferred_or c job attempts e (some at) = started (finalize env c job.id (defer_leased job at))
    deferred_or c job attempts e none =
        if leb_ℤ attempts job.attempts
        then started (finalize env c job.id (dead_letter_and_delete job (max_attempts_exceeded e)))
        else retry_or_leave c job e

    -- The `switch` of `processBatchJob`, and the acknowledgement after it.
    unfoldable pub dispose : Ctx → Job → ℤ → Option Error → Action env Started
    unfolding retry_or_leave defer_leased dead_letter_and_delete ack
    dispose c job attempts none = started (finalize env c job.id (ack job))
    dispose c job attempts (some e) =
        if is_permanent e
        then started (finalize env c job.id (dead_letter_and_delete job (permanent_failure e)))
        else deferred_or c job attempts e (defer_time e)

    unfoldable abbrev pub cancelled_or :
        Ctx → Job → ℤ → Option Error → Option Error → Action env Started
    unfolding dispose
    cancelled_or c job attempts e (some f) = pure (true, some f)
    cancelled_or c job attempts e none = dispose c job attempts e

    unfoldable abbrev pub run_admitted : Ctx → Job → ℤ → Option Error → Action env Started
    unfolding dispose
    run_admitted c job attempts (some e) = pure (false, some e)
    run_admitted c job attempts none = outside env (execute c job) >>= λ e.
        outside env (cause c) >>= λ f. cancelled_or c job attempts e f

    unfoldable abbrev pub with_handler : Ctx → Job → Option ℤ → Action env Started
    unfolding dispose
    with_handler c job none = pure (false, some unsupported)
    with_handler c job (some attempts) = admit env c >>= run_admitted c job attempts

    -- `processBatchJob`
    unfoldable pub process_batch_job : Ctx → Job → Action env Started
    unfolding dispose
    process_batch_job c job = with_handler c job (max_attempts (job_capability job))
