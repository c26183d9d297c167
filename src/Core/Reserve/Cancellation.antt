-- ===== src/Core/Reserve/Cancellation.antt =====
-- Which rows a cancelled claim gives back, and how.
use outbox.Base.{
  ℕ, ◌+◌, Option, none, some, length, ◌≢◌, ◌⊎◌, refl, nat_beq, ◌≡◌, Bool, true, false, List, [],
  ◌∷◌, arith, elem, nat_eq, nat_beq_iff, ◌==◌, Bool-cases, inl, inr, is_some, ◌||◌, ◌&&◌, ltb, suc,
  if◌then◌else◌,
}
use outbox.Base.Dict.{Dict, contains, insert, lookup-insert}
use outbox.Core.Errors.{Time, Error, wrapped, sentinel, lease_lost}
use outbox.Core.Model.{JobId, LeaseToken, Job}
use outbox.Core.Batch.Identifiers.{Distinct}
use outbox.Core.Claim.{validate_claimed_job_lease}
use outbox.Core.Env.{Env}
use outbox.Core.Retry.{Result, ok, err}
use outbox.Core.Reserve.{confirmed, ids_of, all_released, release_tail, release_cancelled_claim}

-- Some row of the list has the identifier, the token and a lease beyond the time.
abbrev pub holds : LeaseToken → Time → JobId → List Job → Bool
holds token t id [] = false
holds token t id (job ∷ jobs) =
    (job.id == id)
      && (job.lease_token == token)
      && job.reserved_at.valid
      && ltb t job.reserved_at.time
    || holds token t id jobs

module _ (token : LeaseToken) (t : Time) where
  confirmed_members :
      (seen : Dict JobId Bool) (jobs : List Job) (id : JobId)
      → elem id (ids_of (confirmed token t seen jobs))
        ≡ (if contains id seen then false else holds token t id jobs)
  unfolding confirmed validate_claimed_job_lease
  confirmed_members seen [] id = ground arith
  confirmed_members seen (job ∷ jobs) id =
      elim (Bool-cases (is_some (validate_claimed_job_lease job token t) || contains job.id seen)) [
        | inl left_out ↦
            rw left_out (ground (arith, nat_beq_iff job.id id, confirmed_members seen jobs id))
        | inr taken ↦ rw taken (
            ground (
              arith,
              nat_beq_iff job.id id,
              confirmed_members (insert job.id true seen) jobs id,
              lookup-insert job.id id true seen,
            ))
      ]

  confirmed-Distinct :
      (seen : Dict JobId Bool) (jobs : List Job) → Distinct (ids_of (confirmed token t seen jobs))
  unfolding confirmed
  confirmed-Distinct seen [] = tt
  confirmed-Distinct seen (job ∷ jobs) =
      elim (Bool-cases (is_some (validate_claimed_job_lease job token t) || contains job.id seen)) [
        | inl left_out ↦ rw left_out (confirmed-Distinct seen jobs)
        | inr taken ↦ rw taken (
          ground (
            arith,
            nat_beq_iff job.id job.id,
            confirmed_members (insert job.id true seen) jobs job.id,
            lookup-insert job.id job.id true seen,
          ),
          confirmed-Distinct (insert job.id true seen) jobs,
        )
      ]

-- What the repository's answer to a call for `n` rows is reported as: no error if it affected them all,
-- and otherwise a lost lease or its own error.
abbrev pub Reports : ℕ → Result ℕ → Option Error → Type 0
Reports n (ok m) e = ((m ≡ n) × (e ≡ none)) ⊎ ((m ≢ n) × (e ≡ some (wrapped (sentinel lease_lost))))
Reports n (err x) e = e ≡ some (wrapped x)

not_empty : (n : ℕ) → nat_beq (suc n) 0 ≡ false
not_empty n = ground arith

pub all_released-Reports : (n : ℕ) (r : Result ℕ) → Reports n r (all_released n r)
all_released-Reports n (err x) = refl
all_released-Reports n (ok m) = elim (Bool-cases (nat_beq m n)) [
  | inl same ↦ inl (ground (arith, nat_beq_iff m n), ground arith)
  | inr other ↦ inr (λ e. absurd (ground (arith, nat_beq_iff m n)), ground arith)
]

module _ (env : Env) where
  open env use {World, Ctx, now, with_deadline, without_cancel, release_unstarted_jobs}

  -- No call where there is nothing to give back; otherwise one call, for these identifiers under the token, in
  -- a context that outlives the claim's by 5 s and at the clock's time.
  abbrev pub Releases : Ctx → LeaseToken → List JobId → World → Option Error × World → Type 0
  Releases c token [] w o = o ≡ (none, w)
  Releases c token (id ∷ ids) w (e, w') =
      let (start, w1) = now w in
      let (at, w2) = now w1 in
      let (answer, w3) =
        release_unstarted_jobs (with_deadline (without_cancel c) (start + 5000000000)) (id ∷ ids)
          token at w2 in
      (w' ≡ w3) × Reports (length (id ∷ ids)) answer e

  release_tail-Releases :
      (c : Ctx) (token : LeaseToken) (jobs : List Job) (w : World)
      → Releases c token (ids_of jobs) w (release_tail env c token jobs w)
  unfolding release_tail
  release_tail-Releases c token [] w = refl
  release_tail-Releases c token (job ∷ jobs) w =
      rw (not_empty (length jobs)) (refl, all_released-Reports _ _)

  -- A cancelled claim gives back exactly the identifiers that some row of the answer holds under the token
  -- and beyond the clock's time, each of them once, in one call of `ReleaseUnstartedJobsWithLease` or, where there are none, in no
  -- call; its error is none exactly if the call released them all.
  pub release_cancelled_claim-Releases :
      (c : Ctx) (token : LeaseToken) (jobs : List Job) (w : World)
      → let (t, w') = now w in
        (ids : List JobId) × Distinct ids
        × ((id : JobId) → elem id ids ≡ holds token t id jobs)
        × Releases c token ids w' (release_cancelled_claim env c token jobs w)
  unfolding release_cancelled_claim
  release_cancelled_claim-Releases c token jobs w =
      let (t, w') = now w in
      (
        ids_of (confirmed token t [] jobs),
        confirmed-Distinct token t [] jobs,
        confirmed_members token t [] jobs,
        release_tail-Releases c token (confirmed token t [] jobs) w',
      )
