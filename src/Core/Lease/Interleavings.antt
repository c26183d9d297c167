-- ===== src/Core/Lease/Interleavings.antt =====
-- The ledger under every interleaving of the heartbeat's, the worker's and the world's steps.
use outbox.Base.{ℕ, ◌<◌, ◌≡◌, Option, none, List, [], ◌∷◌, All}
use outbox.Core.Errors.{Time, Error}
use outbox.Core.Model.{JobId, LeaseToken, Job}
use outbox.Core.Env.{Env, State}
use outbox.Core.Claim.{validate_claimed_job_lease}
use outbox.Core.Lease.{
  Held, finalize, finalize_all, new_ledger, extend, admit, add, forget, forget_all,
  release_unstarted,
}
use outbox.Core.Lease.Invariant.{IsSound}
use outbox.Core.Lease.Admission.{admit-Renews}
use outbox.Core.Lease.Steps.{
  extend-Preserves, finalize-Preserves, finalize_all-Preserves, add-Preserves,
  release_unstarted-Preserves, drop_row-IsSound, drop_all-IsSound, take_rows-IsSound,
  validated_deadline,
}

module _ (env : Env) where
  open env use {World, Ctx}

  -- One critical section of the manager, or a change of the world between two of them.
  pub data Step : Held World → Held World → Type 0 where
    world_moves : (s : Held World) (w : World) → Step s (record s { world = w })
    heartbeat : (s : Held World) (c : Ctx) → Step s (extend env c s).1
    admits : (s : Held World) (c : Ctx) → Step s (admit env c s).1
    finalizes :
        (s : Held World) (c : Ctx) (id : JobId) (f : Ctx → State World (Option Error))
        → Step s (finalize env c id f s).1
    finalizes_all :
        (s : Held World) (c : Ctx) (until : Time) (f : State World (Option Error))
        → Step s (finalize_all env c until f s).1
    adds : (s : Held World) (jobs : List Job) → Step s (add env jobs s).1
    forgets : (s : Held World) (id : JobId) → Step s (forget env id s).1
    forgets_all : (s : Held World) → Step s (forget_all env s).1
    releases : (s : Held World) (c : Ctx) → Step s (release_unstarted env c s).1

  pub data Reach (s : Held World) : Held World → Type 0 where
    here : Reach s s
    then : {t u : Held World} → Reach s t → Step t u → Reach s u

  Step-IsSound : {s t : Held World} → Step s t → IsSound s.ledger → IsSound t.ledger
  unfolding forget forget_all
  Step-IsSound (world_moves s w) h = h
  Step-IsSound (heartbeat s c) h = extend-Preserves env c s h
  Step-IsSound (admits s c) h = (admit-Renews env c s h).sound
  Step-IsSound (finalizes s c id f) h = finalize-Preserves env c id f s h
  Step-IsSound (finalizes_all s c until f) h = finalize_all-Preserves env c until f s h
  Step-IsSound (adds s jobs) h = add-Preserves env jobs s h
  Step-IsSound (forgets s id) h = drop_row-IsSound id s.ledger h
  Step-IsSound (forgets_all s) h = drop_all-IsSound s.ledger
  Step-IsSound (releases s c) h = release_unstarted-Preserves env c s h

  Reach-IsSound : {s t : Held World} → IsSound s.ledger → Reach s t → IsSound t.ledger
  Reach-IsSound h here = h
  Reach-IsSound h (then r st) = Step-IsSound st (Reach-IsSound h r)

  validated-All :
      (token : LeaseToken) (t : Time) (jobs : List Job)
      → All (λ job. validate_claimed_job_lease job token t ≡ none) jobs
      → All (λ job. 0 < job.reserved_at.time) jobs
  validated-All token t [] h = tt
  validated-All token t (job ∷ jobs) h =
      (validated_deadline job token t h.0, validated-All token t jobs h.1)

  -- From claimed rows that passed the claim check, whatever critical sections run in whatever order,
  -- the heartbeat's among them, and whatever the world does in between, the cached bound is set and at
  -- or before every outstanding deadline while a row is outstanding, and every outstanding row stands
  -- in the order of the rows.
  pub Reach-new_ledger :
      (token : LeaseToken) (reserve_for : ℕ) (t : Time) (jobs : List Job) (w : World)
      {s : Held World}
      → All (λ job. validate_claimed_job_lease job token t ≡ none) jobs
      → Reach (record { ledger = new_ledger jobs token reserve_for; world = w }) s
      → IsSound s.ledger
  unfolding new_ledger
  Reach-new_ledger token reserve_for t jobs w valid r =
      Reach-IsSound
        (take_rows-IsSound _ jobs (validated-All token t jobs valid)
          (record { bound = λ id u e. cc; known = λ id u e. cc; positive = tt }))
        r
