-- ===== src/Core/Env.antt =====
-- What the worker runtime calls and does not implement: outbox/contract.go's repositories, the clock,
-- contexts, the drain channel and the waiting on the lease mutex. Each call takes the state of the
-- outside world and returns its answer with the next state, so any behaviour, order and timing of
-- the outside is a choice of this record.
use outbox.Base.{ℕ, Bool, Option, none, some, List, Text}
use outbox.Core.Errors.{Time, Error, Reason}
use outbox.Core.Model.{
  JobId, LeaseToken, JobCapability, Job, SchemaVersion, UniqueBatchPut, UniquePutResult,
}
use outbox.Core.Retry.{Result}
use outbox.Core.Batch.{BatchJobOutcome}

-- Code that reads and writes a state.
abbrev pub State : Type 0 → Type 0 → Type 0
State S A = S → A × S

abbrev pub pure : {S A : Type 0} → A → State S A
pure a s = (a, s)

infixl 5 ◌>>=◌ ◌>>◌
abbrev pub ◌>>=◌ : {S A B : Type 0} → State S A → (A → State S B) → State S B
◌>>=◌ m f s = let (a, s') = m s in f a s'

abbrev pub next : {S : Type 0} → State S (Option Error) → Option Error → State S (Option Error)
next k none = k
next k (some e) = pure (some e)

-- `if err := m; err != nil { return err }`, and then `k`
abbrev pub ◌>>◌ :
    {S : Type 0} → State S (Option Error) → State S (Option Error) → State S (Option Error)
m >> k = m >>= next k

pub record Env : Type 1 where
  pub World : Type 0
  pub Ctx : Type 0
  -- time.Now().UTC()
  pub now : State World Time
  -- context.Cause, with nil for a live context
  pub cause : Ctx → State World (Option Error)
  pub with_deadline : Ctx → Time → Ctx
  pub without_cancel : Ctx → Ctx
  -- the cancel function of the batch context
  pub cancel_batch : Error → World → World
  pub draining : State World Bool
  -- leaseMutex.LockContext: nil once the lock is held
  pub lock_context : Ctx → State World (Option Error)
  -- JobsRepository
  pub find_and_reserve_jobs :
      Ctx → Time → Time → LeaseToken → List JobCapability → ℕ → State World (Result (List Job))
  pub extend_job_leases : Ctx → List JobId → LeaseToken → Time → Time → State World (Result ℕ)
  pub release_unstarted_jobs : Ctx → List JobId → LeaseToken → Time → State World (Result ℕ)
  pub delete_job : Ctx → JobId → LeaseToken → Time → State World (Result ℕ)
  pub reschedule_job : Ctx → JobId → LeaseToken → Time → Time → State World (Result ℕ)
  -- DeferJobsRepository
  pub defer_job : Ctx → JobId → LeaseToken → Time → Time → State World (Result ℕ)
  -- JobsFailedRepository
  pub create_failed_job :
      Ctx → JobId → Text → SchemaVersion → Text → Reason → State World (Result JobId)
  -- BatchJobsRepository.ApplyBatchJobOutcomes
  pub apply_batch_job_outcomes :
      Ctx → LeaseToken → Time → List BatchJobOutcome → State World (Result ℕ)
  -- Transactor.RunInTx: the callback's error, or the transaction's own
  pub run_in_tx : Ctx → (Ctx → State World (Option Error)) → State World (Option Error)
  -- JobsRepository.CreateJobVersioned and its unique forms
  pub create_job : Ctx → Text → SchemaVersion → Text → Time → State World (Result JobId)
  pub create_job_unique : Ctx → UniqueBatchPut → State World (Result UniquePutResult)
  pub create_job_unique_batch :
      Ctx → List UniqueBatchPut → State World (Result (List UniquePutResult))
