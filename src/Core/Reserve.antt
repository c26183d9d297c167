-- ===== src/Core/Reserve.antt =====
-- outbox/service_claim.go, with `releaseClaimedBatchTail` of outbox/service_execution_batch.go: a claim
-- that may be cancelled while the repository works on it.
pub mod Cancellation
use outbox.Base.{
  ℕ, ◌+◌, Bool, true, false, not, Option, none, some, List, [], ◌∷◌, if◌then◌else◌, is_some, ◌==◌,
  nat_eq, length, ◌||◌,
}
use outbox.Base.Dict.{Dict, contains, insert}
use outbox.Core.Errors.{
  Time, Error, sentinel, wrapped, joined, service_draining, cancelled_claim_cleanup,
}
use outbox.Core.Model.{JobId, LeaseToken, Job}
use outbox.Core.Retry.{Result, ok, err}
use outbox.Core.Env.{State, ◌>>=◌, pure, Env}
use outbox.Core.Claim.{validate_claimed_job_lease, lost}
use outbox.Core.Lease.{lease_finalization_timeout}

-- The rows that a cancelled claim is known to hold, each once: the loop of `releaseCancelledClaim`.
pub confirmed : LeaseToken → Time → Dict JobId Bool → List Job → List Job
unfolding validate_claimed_job_lease
confirmed token t seen [] = []
confirmed token t seen (job ∷ jobs) =
    let without = confirmed token t seen jobs in
    let with_job = job ∷ confirmed token t (insert job.id true seen) jobs in
    if is_some (validate_claimed_job_lease job token t) || contains job.id seen
    then without
    else with_job

abbrev pub ids_of : List Job → List JobId
ids_of [] = []
ids_of (job ∷ jobs) = job.id ∷ ids_of jobs

abbrev pub all_released : ℕ → Result ℕ → Option Error
all_released n (err e) = some (wrapped e)
all_released n (ok affected) = if affected == n then none else some lost

-- What a claim that the context's end overtook returns.
abbrev pub cancelled_claim : Error → Option Error → Result (List Job)
cancelled_claim cause none = err cause
cancelled_claim cause (some e) = err (joined cause (joined (sentinel cancelled_claim_cleanup) e))

module _ (env : Env) where
  open env use {
    World, Ctx, now, cause, with_deadline, without_cancel, draining, release_unstarted_jobs,
  }

  -- `releaseClaimedBatchTail`
  pub release_tail : Ctx → LeaseToken → List Job → State World (Option Error)
  release_tail c token jobs =
      if length jobs == 0
      then pure none
      else (now >>= λ t. now >>= λ t'.
          release_unstarted_jobs (with_deadline (without_cancel c) (t + lease_finalization_timeout))
            (ids_of jobs) token t'
          >>= λ r. pure (all_released (length (ids_of jobs)) r))

  -- `releaseCancelledClaim`
  pub release_cancelled_claim : Ctx → LeaseToken → List Job → State World (Option Error)
  unfolding confirmed release_tail
  release_cancelled_claim c token jobs =
      now >>= λ t. release_tail c token (confirmed token t [] jobs)

  abbrev pub settle_claim :
      Ctx → LeaseToken → List Job → Option Error → State World (Result (List Job))
  unfolding release_cancelled_claim
  settle_claim c token jobs none = pure (ok jobs)
  settle_claim c token jobs (some e) =
      release_cancelled_claim c token jobs >>= λ f. pure (cancelled_claim e f)

  abbrev pub after_claim :
      Ctx → Ctx → LeaseToken → Result (List Job) → State World (Result (List Job))
  unfolding release_cancelled_claim
  after_claim c c' token (err e) = cause c' >>= λ f. pure (err e)
  after_claim c c' token (ok jobs) = cause c' >>= settle_claim c token jobs

  abbrev pub claim_unless :
      Ctx
      → LeaseToken
      → ℕ
      → (Ctx → Time → Time → State World (Result (List Job)))
      → Bool
      → State World (Result (List Job))
  unfolding release_cancelled_claim
  claim_unless c token reserve_for claim true = pure (err (sentinel service_draining))
  claim_unless c token reserve_for claim false = now >>= λ t.
      let c' = with_deadline c (t + reserve_for) in
      claim c' t (t + reserve_for) >>= after_claim c c' token

  -- `claimJobsWithLease`; the first part runs under the read side of `claimMu`.
  pub claim_jobs_with_lease :
      Ctx
      → LeaseToken
      → ℕ
      → (Ctx → Time → Time → State World (Result (List Job)))
      → State World (Result (List Job))
  unfolding release_cancelled_claim
  claim_jobs_with_lease c token reserve_for claim =
      draining >>= claim_unless c token reserve_for claim
