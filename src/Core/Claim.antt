-- ===== src/Core/Claim.antt =====
-- The checks of claimed rows: `validateClaimedJobLease` of outbox/service_batch.go, and of
-- outbox/service_execution_batch.go the checks of a batch and the cut at the byte limit.
pub mod Selection
pub mod Ownership
use outbox.Base.{
  ℕ, ◌+◌, ◌-◌, Bool, true, Option, none, some, List, [], ◌∷◌, if◌then◌else◌, ltb, ◌==◌, nat_eq,
  length, ◌||◌, not,
}
use outbox.Base.Dict.{Dict, contains, insert}
use outbox.Core.Errors.{
  Time, Error, sentinel, wrapped, foreign, lease_lost, unsupported_claim, empty_reservation_batch,
}
use outbox.Core.Model.{JobId, LeaseToken, JobCapability, Job, job_capability, capability_eq}
use outbox.Core.Env.{State, ◌>>=◌, ◌>>◌, pure}

abbrev pub lost : Error
lost = wrapped (sentinel lease_lost)

abbrev pub unsupported : Error
unsupported = wrapped (sentinel unsupported_claim)

abbrev pub over_limit : Error
over_limit = foreign 4

unfoldable pub validate_claimed_job_lease : Job → LeaseToken → Time → Option Error
validate_claimed_job_lease job token now =
    if not (job.lease_token == token)
    then some lost
    else if not job.reserved_at.valid || not (ltb now job.reserved_at.time)
    then some lost
    else none

-- The loop of `validateClaimedExecutionBatch`; the clock is read for each job.
unfoldable pub validate_claimed_jobs :
    {W : Type 0}
    → State W Time
    → JobCapability
    → LeaseToken
    → Dict JobId Bool
    → List Job
    → State W (Option Error)
validate_claimed_jobs clock capability token seen [] = pure none
validate_claimed_jobs clock capability token seen (job ∷ jobs) =
    let rest = validate_claimed_jobs clock capability token (insert job.id true seen) jobs in
    if not (job_capability job == capability)
    then pure (some unsupported)
    else (clock >>= λ now.
        pure (validate_claimed_job_lease job token now)
        >> (if contains job.id seen then pure (some lost) else rest))

unfoldable pub validate_claimed_execution_batch :
    {W : Type 0} → State W Time → List Job → JobCapability → LeaseToken → ℕ → State W (Option Error)
unfolding validate_claimed_jobs
validate_claimed_execution_batch clock jobs capability token limit =
    if length jobs == 0
    then pure (some (sentinel empty_reservation_batch))
    else if ltb limit (length jobs)
    then pure (some over_limit)
    else validate_claimed_jobs clock capability token [] jobs

-- The loop of `validateBoundedExecutionBatchPayload` over the jobs after the first; the sum of the
-- bytes used is at most `max_bytes`.
pub check_payloads : ℕ → ℕ → List Job → Option Error
check_payloads max_bytes used [] = none
check_payloads max_bytes used (job ∷ jobs) =
    let rest = check_payloads max_bytes (used + length job.payload) jobs in
    if ltb (max_bytes - used) (length job.payload) then some unsupported else rest

pub validate_bounded_payload : List Job → ℕ → Option Error
unfolding check_payloads
validate_bounded_payload [] max_bytes = none
validate_bounded_payload (job ∷ jobs) max_bytes =
    if ltb max_bytes (length job.payload)
    then (if length (job ∷ jobs) == 1 then none else some unsupported)
    else check_payloads max_bytes 0 (job ∷ jobs)

-- `selectBatchPayloadLimitWithUsed`: the jobs within the limit, and the tail from the first over it
pub select_payload_limit : List Job → ℕ → ℕ → List Job × List Job
select_payload_limit [] max_bytes used = ([], [])
select_payload_limit (job ∷ jobs) max_bytes used =
    let rest = select_payload_limit jobs max_bytes (used + length job.payload) in
    if ltb max_bytes (used + length job.payload) then ([], job ∷ jobs) else (job ∷ rest.0, rest.1)
