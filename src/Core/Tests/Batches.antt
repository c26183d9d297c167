-- ===== src/Core/Tests/Batches.antt =====
-- The theorems on batches, outcomes and retries at sample rows.
use outbox.Base.{
  text_beq, text_beq, ◌⊎◌, ◌+◌, ◌*◌, ◌^◌, ◌≤◌, ◌<◌, ◌≡◌, refl, true, none, some, List, [], ◌∷◌,
  length, arith, min, ◌↔◌,
}
use outbox.Base.Int.{pos}
use outbox.Core.Errors.{Error, foreign, permanent, defer_time, retry_time, max_attempts_exceeded}
use outbox.Core.Errors.Disposition.{reading, SameMatches, permanent_lem}
use outbox.Core.Model.{normalize_schema_version}
use outbox.Core.Retry.{
  ok, ExponentialRetryPolicy, RetryAttempt, new_exponential_retry_policy, retry_delay,
  batch_attempt_backoff, attempt_of, retry_schedule,
}
use outbox.Core.Retry.Exponential.{retry_delay-min, batch_attempt_backoff-min}
use outbox.Core.Retry.Schedule.{Scheduled, answer, retry_schedule-Scheduled}
use outbox.Core.Batch.{
  BatchConfig, BatchJobItem, BatchResult, BatchJobOutcome, validate_batch_result, normalize_config,
  normalize, success,
}
use outbox.Core.Batch.Config.{Normalizes, normalize_config-Normalizes, normalize-normalize}
use outbox.Core.Batch.Validation.{Validates, validate_batch_result-Validates}
use outbox.Core.Claim.{
  validate_claimed_job_lease, validate_claimed_jobs, validate_claimed_execution_batch,
  validate_bounded_payload, select_payload_limit,
}
use outbox.Core.Claim.Ownership.{AllOwned, job_ids, validate_claimed_execution_batch-AllOwned}
use outbox.Core.Claim.Selection.{
  Cuts, payload_bytes, select_payload_limit-Cuts, validate_bounded_payload-fits,
}
use outbox.Core.Batch.Identifiers.{Distinct}
use outbox.Core.Pause.{Pacing}
use outbox.Core.Outcome.{
  apply_in_tx, Batching, decide_outcomes, create_dlq_records, finalization_timeout, outcome_of,
  dlq_outcome,
}
use outbox.Core.Outcome.Decisions.{Decides, decide_outcomes-Decides}
use outbox.Core.Outcome.Callback.{Applied, apply_in_tx-Applied}
use outbox.Core.Outcome.DeadLetters.{
  dlq_rows, insert_rows, create_dlq_records-rows, finalization_timeout-rows,
}
use outbox.Core.Tests.{steady, mail_capability, first_job, second_job, two_jobs}

abbrev items : List BatchJobItem
items =
    record { job_id = 7; payload = 1 ∷ 2 ∷ 3 ∷ []; attempt = pos 1 }
    ∷ record { job_id = 8; payload = 1 ∷ 2 ∷ 3 ∷ []; attempt = pos 3 }
    ∷ []

abbrev failure : Error
failure = foreign 100

-- The results in another order: the second row fails.
abbrev result : BatchResult
result = record { job_id = 8; error = some failure } ∷ record { job_id = 7; error = none } ∷ []

abbrev batching : Batching
batching = record { policy = none; capability = mail_capability; max_attempts = pos 3; now = 500 }

abbrev no_pauses : Pacing
no_pauses = record { paused = []; streak = [] }

abbrev outcomes : List BatchJobOutcome
outcomes =
    outcome_of first_job success ∷ dlq_outcome second_job (max_attempts_exceeded failure) ∷ []

validate_batch_result-Validates_example :
    Validates items result (validate_batch_result items result)
validate_batch_result-Validates_example = validate_batch_result-Validates items result

decide_outcomes-Decides_example :
    Decides batching two_jobs items result
      (decide_outcomes batching two_jobs items result none no_pauses)
decide_outcomes-Decides_example =
    decide_outcomes-Decides batching two_jobs items result no_pauses refl

create_dlq_records-rows_example :
    create_dlq_records steady tt two_jobs outcomes 0
    ≡ insert_rows steady tt (dlq_rows two_jobs outcomes) 0
create_dlq_records-rows_example =
    create_dlq_records-rows steady tt two_jobs outcomes 0 (refl, (refl, tt)) (refl, (refl, tt))

apply_in_tx-Applied_example :
    Applied steady tt 5 outcomes
      (insert_rows steady tt (dlq_rows two_jobs outcomes) 0)
      (apply_in_tx steady 5 two_jobs outcomes tt 0)
apply_in_tx-Applied_example =
    apply_in_tx-Applied steady 5 tt two_jobs outcomes 0 (refl, (refl, tt)) (refl, (refl, tt))

finalization_timeout-rows_example :
    finalization_timeout outcomes ≡ 5000000000 + 25000000 * length (dlq_rows two_jobs outcomes)
finalization_timeout-rows_example = finalization_timeout-rows two_jobs outcomes (refl, (refl, tt))

claim_accepted :
    (validate_claimed_execution_batch (λ w. (w, w + 1)) two_jobs mail_capability 5 2 100).0 ≡ none
unfolding validate_claimed_execution_batch validate_claimed_jobs validate_claimed_job_lease
    normalize_schema_version text_beq
claim_accepted = refl

validate_claimed_execution_batch-AllOwned_example :
    (0 < length two_jobs)
    × (length two_jobs ≤ 2)
    × AllOwned (λ w. (w, w + 1)) mail_capability 5 two_jobs
    × Distinct (job_ids two_jobs)
validate_claimed_execution_batch-AllOwned_example =
    validate_claimed_execution_batch-AllOwned (λ w. (w, w + 1)) mail_capability 5 two_jobs 2 100
      claim_accepted

select_payload_limit-Cuts_example : Cuts two_jobs 5 1 (select_payload_limit two_jobs 5 1)
select_payload_limit-Cuts_example = select_payload_limit-Cuts two_jobs 5 1 (omega arith)

validate_bounded_payload-fits_example :
    (validate_bounded_payload two_jobs 6 ≡ none)
    ↔ ((payload_bytes two_jobs ≤ 6) ⊎ (length two_jobs ≡ 1))
validate_bounded_payload-fits_example = validate_bounded_payload-fits two_jobs 6

abbrev third_attempt : RetryAttempt
third_attempt = record {
  job_id = 7;
  capability = mail_capability;
  attempt = pos 3;
  error = failure;
}

retry_delay-min_example :
    (p : ExponentialRetryPolicy) × (new_exponential_retry_policy (pos 100) (pos 350) none ≡ ok p)
    × (retry_delay p third_attempt ≡ some (pos (min (100 * 2 ^ 2) 350)))
retry_delay-min_example =
    retry_delay-min 100 350 2 third_attempt (omega arith) (omega arith) (omega arith) refl

batch_attempt_backoff-min_example :
    batch_attempt_backoff (pos 4) ≡ pos (min (100000000 * 2 ^ 3) 30000000000)
batch_attempt_backoff-min_example = batch_attempt_backoff-min 3

retry_schedule-Scheduled_example :
    Scheduled
      (retry_time failure)
      (answer none (attempt_of first_job failure))
      500
      (pos 60)
      (retry_schedule none first_job failure 500 (pos 60))
retry_schedule-Scheduled_example = retry_schedule-Scheduled none first_job failure 500 60

abbrev config : BatchConfig
config = record { max_messages = pos 0; max_bytes = pos 4096; max_wait = pos 0 }

abbrev full_config : BatchConfig
full_config = record { max_messages = pos 100; max_bytes = pos 4096; max_wait = pos 25000000 }

normalize_config-Normalizes_example : Normalizes config (normalize_config config)
normalize_config-Normalizes_example = normalize_config-Normalizes config

config_normalized : normalize config ≡ ok full_config
unfolding normalize normalize_config
config_normalized = refl

normalize-normalize_example : normalize full_config ≡ ok full_config
normalize-normalize_example = normalize-normalize config full_config config_normalized

permanent_lem_example :
    (m : Error) × (permanent (some failure) ≡ some m)
    × (reading m ≡ record { final = true; retry = retry_time failure; defer = defer_time failure })
    × SameMatches m failure
    × (permanent (some m) ≡ some m)
permanent_lem_example = permanent_lem failure
