-- ===== src/Core/Claim/Ownership.antt =====
-- What a claim that passed `validateClaimedExecutionBatch` is known to be.
use outbox.Base.{
  ℕ, ◌≤◌, ◌<◌, ◌≡◌, Bool, true, false, none, List, [], ◌∷◌, length, arith, elem, nat_eq,
  nat_beq_iff,
}
use outbox.Base.Dict.{Dict, contains, insert, lookup-insert}
use outbox.Core.Errors.{Time}
use outbox.Core.Model.{JobId, LeaseToken, JobCapability, Job, job_capability, capability_beq_iff}
use outbox.Core.Env.{State}
use outbox.Core.Batch.Identifiers.{Distinct}
use outbox.Core.Claim.{
  validate_claimed_job_lease, validate_claimed_jobs, validate_claimed_execution_batch,
}

abbrev pub job_ids : List Job → List JobId
job_ids [] = []
job_ids (job ∷ jobs) = job.id ∷ job_ids jobs

-- The job is of the capability and held under the token past some reading of the clock.
pub record Owned {W : Type 0} (clock : State W Time) (capability : JobCapability)
    (token : LeaseToken) (job : Job) : Type 0 where
  pub capable : job_capability job ≡ capability
  pub held : job.lease_token ≡ token
  pub reserved : job.reserved_at.valid ≡ true
  pub unexpired : (w : W) × ((clock w).0 < job.reserved_at.time)

abbrev pub AllOwned : {W : Type 0} → State W Time → JobCapability → LeaseToken → List Job → Type 0
AllOwned clock capability token [] = Unit {0}
AllOwned clock capability token (job ∷ jobs) =
    Owned clock capability token job × AllOwned clock capability token jobs

module _ {W : Type 0} (clock : State W Time) (capability : JobCapability) (token : LeaseToken) where
  Owned-step :
      (seen : Dict JobId Bool) (job : Job) (jobs : List Job) (w : W)
      → (validate_claimed_jobs clock capability token seen (job ∷ jobs) w).0 ≡ none
      → Owned clock capability token job
        × (contains job.id seen ≡ false)
        × (w' : W) × ((validate_claimed_jobs clock capability token
              (insert job.id true seen)
              jobs
              w').0
            ≡ none)
  unfolding validate_claimed_jobs validate_claimed_job_lease
  Owned-step seen job jobs w h = (
    record {
      capable = ground (arith, capability_beq_iff (job_capability job) capability);
      held = ground (arith, nat_beq_iff job.lease_token token);
      reserved = ground arith;
      unexpired = (w, ground arith);
    },
    ground arith,
    (clock w).1,
    ground arith,
  )

  claimed_unseen :
      (seen : Dict JobId Bool) (jobs : List Job) (w : W) (id : JobId)
      → (validate_claimed_jobs clock capability token seen jobs w).0 ≡ none
      → elem id (job_ids jobs) ≡ true
      → contains id seen ≡ false
  claimed_unseen seen [] w id h e = cc
  claimed_unseen seen (job ∷ jobs) w id h e =
      let (_, new, w', rest) = Owned-step seen job jobs w h in
      ground (
        arith,
        nat_beq_iff job.id id,
        claimed_unseen (insert job.id true seen) jobs w' id rest,
        lookup-insert job.id id true seen,
      )

  claimed_owned :
      (seen : Dict JobId Bool) (jobs : List Job) (w : W)
      → (validate_claimed_jobs clock capability token seen jobs w).0 ≡ none
      → AllOwned clock capability token jobs × Distinct (job_ids jobs)
  claimed_owned seen [] w h = (tt, tt)
  claimed_owned seen (job ∷ jobs) w h =
      let (owned, new, w', rest) = Owned-step seen job jobs w h in
      let ih = claimed_owned (insert job.id true seen) jobs w' rest in
      (
        (owned, ih.0),
        (
          ground (
            arith,
            nat_beq_iff job.id job.id,
            claimed_unseen (insert job.id true seen) jobs w' job.id rest,
            lookup-insert job.id job.id true seen,
          ),
          ih.1,
        ),
      )

  -- A claim that `validate_claimed_execution_batch` accepts has between one row and the limit, all
  -- of the capability, held under the token past a reading of the clock, and no row twice.
  pub validate_claimed_execution_batch-AllOwned :
      (jobs : List Job) (limit : ℕ) (w : W)
      → (validate_claimed_execution_batch clock jobs capability token limit w).0 ≡ none
      → (0 < length jobs)
        × (length jobs ≤ limit)
        × AllOwned clock capability token jobs
        × Distinct (job_ids jobs)
  unfolding validate_claimed_execution_batch
  validate_claimed_execution_batch-AllOwned jobs limit w h =
      let all = claimed_owned [] jobs w (ground arith) in
      (ground (arith, nat_beq_iff (length jobs) 0), ground arith, all.0, all.1)
