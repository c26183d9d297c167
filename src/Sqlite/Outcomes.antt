-- ===== src/Sqlite/Outcomes.antt =====
-- backends/sqlite/repositories/jobsrepo/api.go: `ApplyBatchJobOutcomes` and `DeferJobWithLease`.
pub mod Inputs
pub mod Settlement
pub mod Application
use outbox.Base.{
  ℕ, ◌+◌, ◌-◌, Bool, true, false, ◌&&◌, ◌||◌, Option, none, some, List, [], ◌∷◌, if◌then◌else◌, ltb,
  nat_beq, nat_eq, length,
}
use outbox.Base.Dict.{Dict, contains, insert}
use outbox.Core.Errors.{Time, Error, sentinel, wrapped, lease_lost}
use outbox.Core.Model.{JobId, LeaseToken, is_zero}
use outbox.Core.Retry.{Result, ok, err}
use outbox.Core.Batch.{
  max_reservation_batch_size, Outcome, success, retry, defer, dlq, BatchJobOutcome,
}
use outbox.Sqlite.Table.{Row, to_ms, is_held}
use outbox.Sqlite.Sql.{Faults, Sql, done, refuse, ◌>>=◌, unless_error, statement, run_in_tx}
use outbox.Sqlite.Jobs.{invalid_argument, update_jobs, delete_jobs}

-- The check of one kind. A DLQ outcome carries a reason, which no text of a `Reason` leaves empty.
abbrev pub validate_kind : Outcome → Bool
validate_kind success = true
validate_kind (retry at) = if is_zero at then false else true
validate_kind (defer at) = if is_zero at then false else true
validate_kind (dlq reason) = true

-- The loop of `validateBatchOutcomes`
pub validate_items : List BatchJobOutcome → Dict JobId Bool → Option Error
validate_items [] seen = none
validate_items (o ∷ outcomes) seen =
    let rest = validate_items outcomes (insert o.job_id true seen) in
    if is_zero o.job_id
    then some (wrapped invalid_argument)
    else if contains o.job_id seen
    then some invalid_argument
    else if validate_kind o.kind
    then rest
    else some invalid_argument

-- `validateBatchOutcomes`
pub validate_batch_outcomes : LeaseToken → List BatchJobOutcome → Option Error
unfolding validate_items
validate_batch_outcomes token outcomes =
    if is_zero token
    then some (wrapped (wrapped invalid_argument))
    else if nat_beq (length outcomes) 0 || ltb max_reservation_batch_size (length outcomes)
    then some invalid_argument
    else validate_items outcomes []

-- `kind IN (Success, DLQ)`
abbrev pub is_terminal : Outcome → Bool
is_terminal success = true
is_terminal (retry at) = false
is_terminal (defer at) = false
is_terminal (dlq reason) = true

abbrev pub is_pending : Outcome → Bool
is_pending success = false
is_pending (retry at) = true
is_pending (defer at) = true
is_pending (dlq reason) = false

-- `SELECT job_id FROM input WHERE kind IN (...)`
abbrev pub ids_where : (Outcome → Bool) → List BatchJobOutcome → List JobId
ids_where p [] = []
ids_where p (o ∷ outcomes) =
    let rest = ids_where p outcomes in if p o.kind then o.job_id ∷ rest else rest

-- `SELECT ... FROM input WHERE input.job_id = jobs.id`: the first of the input's rows.
abbrev pub input_of : JobId → List BatchJobOutcome → Option Outcome
input_of id [] = none
input_of id (o ∷ outcomes) = if nat_beq o.job_id id then some o.kind else input_of id outcomes

-- The UPDATE's assignments; it meets only rows with a `Retry` or a `Defer` of the input.
abbrev pub pend : Option Outcome → Row → Row
pend none r = r
pend (some success) r = r
pend (some (retry at)) r = record r { available_at = to_ms at; reserved_at = none; lease_token = 0 }
pend (some (defer at)) r = record r {
  attempts = r.attempts - 1;
  available_at = to_ms at;
  reserved_at = none;
  lease_token = 0;
}
pend (some (dlq reason)) r = r

module _ (faults : Faults) (token : LeaseToken) (now : Time) (outcomes : List BatchJobOutcome) where
  abbrev pub is_ended : Row → Bool
  is_ended = is_held (ids_where is_terminal outcomes) token (to_ms now)

  abbrev pub is_pended : Row → Bool
  is_pended r = is_held (ids_where is_pending outcomes) token (to_ms now) r && ltb 0 r.attempts

  -- `deleteBatchTerminalOutcomes`
  abbrev pub delete_terminal_outcomes : Sql ℕ
  delete_terminal_outcomes = statement faults (delete_jobs is_ended)

  -- `updateBatchRetryOutcomes`
  abbrev pub update_retry_outcomes : Sql ℕ
  update_retry_outcomes =
      statement faults (update_jobs is_pended (λ r. pend (input_of r.id outcomes) r))

  abbrev pub check_affected : ℕ → Sql ℕ
  check_affected affected =
      if nat_beq affected (length outcomes)
      then done affected
      else refuse (wrapped (sentinel lease_lost))

  -- The callback of `ApplyBatchJobOutcomes`
  unfoldable pub apply_all_outcomes : Sql ℕ
  apply_all_outcomes = delete_terminal_outcomes >>= λ deleted.
      update_retry_outcomes >>= λ updated. check_affected (deleted + updated)

  abbrev pub applied : Result ℕ → Result ℕ
  applied (ok n) = ok n
  applied (err e) = err (wrapped e)

  -- `ApplyBatchJobOutcomes`
  unfoldable pub apply_batch_job_outcomes : Bool → Sql ℕ
  unfolding apply_all_outcomes
  apply_batch_job_outcomes in_tx =
      unless_error (validate_batch_outcomes token outcomes)
        (λ s. let (r, s') = run_in_tx faults in_tx apply_all_outcomes s in (applied r, s'))

-- `DeferJobWithLease`
unfoldable pub defer_job : Faults → Bool → JobId → LeaseToken → Time → Time → Sql ℕ
unfolding apply_batch_job_outcomes
defer_job faults in_tx id token now available =
    apply_batch_job_outcomes faults token now (record { job_id = id; kind = defer available } ∷ [])
      in_tx
