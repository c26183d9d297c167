-- ===== src/Core/Single/Release.antt =====
-- A row that was processed is the manager's no longer.
use outbox.Base.{
  ◌≡◌, refl, Bool, true, Option, none, some, Bool-cases, inl, inr, is_some, ◌||◌, nat_eq,
}
use outbox.Base.Int.{ℤ, leb_ℤ}
use outbox.Base.Dict.{lookup}
use outbox.Core.Errors.{Error, Time, is_permanent, defer_time, retry_time}
use outbox.Core.Model.{JobId, Job, job_capability}
use outbox.Core.Retry.{Result, ok, err}
use outbox.Core.Env.{Env, State, next}
use outbox.Core.Lease.{Held, finalize, drop_row, admit, update}
use outbox.Core.Lease.Dropping.{drop_row-lookup, forget-lookup}
use outbox.Core.Lease.Invariant.{IsSound}
use outbox.Core.Lease.Admission.{admit-Renews}
use outbox.Core.Lease.Finalization.{finalize_covers}
use outbox.Core.Single.{
  dead_letter_and_delete, defer_leased, Service, process_batch_job, dispose, retry_or_leave,
  deferred_or, at_retry, cancelled_or, run_admitted, with_handler,
}

module _ (env : Env) where
  open env use {World, Ctx}

  -- A section that ends without an error has dropped the row.
  abbrev Drops : JobId → Option Error × Held World → Type 0
  Drops id r = r.0 ≡ none → lookup id r.1.ledger.outstanding ≡ none

  callback-Drops :
      (id : JobId) (r : Option Error × Held World)
      → Drops id (next (update env (drop_row id)) r.0 r.1)
  callback-Drops id (some e, s) h = cc
  callback-Drops id (none, s) h = drop_row-lookup id s.ledger

  finalize-Drops :
      (c : Ctx) (id : JobId) (f : Ctx → State World (Option Error)) (s : Held World)
      → IsSound s.ledger
      → Drops id (finalize env c id f s)
  finalize-Drops c id f s h = elim (finalize_covers env c id s h) [
    | inl (e, refused) ↦ rw (refused f) (λ p. cc)
    | inr (held, sound, keeps, covers, runs) ↦ rw (runs f) (callback-Drops id _)
  ]

  -- A row that was started and ended without an error is dropped.
  abbrev DropsStarted : JobId → (Bool × Option Error) × Held World → Type 0
  DropsStarted id r = r.0 ≡ (true, none) → lookup id r.1.ledger.outstanding ≡ none

  started-Drops :
      (id : JobId) (r : Option Error × Held World) → Drops id r → DropsStarted id ((true, r.0), r.1)
  started-Drops id (some e, s) h p = cc
  started-Drops id (none, s) h p = h refl

  finalized-Drops :
      (c : Ctx) (id : JobId) (f : Ctx → State World (Option Error)) (s : Held World)
      → IsSound s.ledger
      → DropsStarted id ((true, (finalize env c id f s).0), (finalize env c id f s).1)
  finalized-Drops c id f s h = started-Drops id (finalize env c id f s) (finalize-Drops c id f s h)

  module _ (service : Service env) (c : Ctx) (job : Job) where
    retry-Drops :
        (r : Result Time) (s : Held World)
        → IsSound s.ledger
        → DropsStarted job.id (at_retry env service c job r s)
    retry-Drops (err e) s h p = cc
    retry-Drops (ok at) s h p = finalized-Drops c job.id _ s h p

    retry_or_leave-Drops :
        (e : Error) (s : Held World)
        → IsSound s.ledger
        → DropsStarted job.id (retry_or_leave env service c job e s)
    unfolding retry_or_leave
    retry_or_leave-Drops e s h =
        elim (Bool-cases (is_some (retry_time e) || is_some service.policy)) [
          | inl scheduled ↦ rw scheduled (retry-Drops _ _ h)
          | inr left ↦ rw left (λ p. forget-lookup env job.id s)
        ]

    deferred_or-Drops :
        (attempts : ℤ) (e : Error) (o : Option Time) (s : Held World)
        → IsSound s.ledger
        → DropsStarted job.id (deferred_or env service c job attempts e o s)
    unfolding deferred_or retry_or_leave defer_leased dead_letter_and_delete
    deferred_or-Drops attempts e (some at) s h = finalized-Drops c job.id _ s h
    deferred_or-Drops attempts e none s h = elim (Bool-cases (leb_ℤ attempts job.attempts)) [
      | inl spent ↦ rw spent (finalized-Drops c job.id _ s h)
      | inr left ↦ rw left (retry_or_leave-Drops e s h)
    ]

    dispose-Drops :
        (attempts : ℤ) (e : Option Error) (s : Held World)
        → IsSound s.ledger
        → DropsStarted job.id (dispose env service c job attempts e s)
    unfolding dispose
    dispose-Drops attempts none s h = finalized-Drops c job.id _ s h
    dispose-Drops attempts (some e) s h = elim (Bool-cases (is_permanent e)) [
      | inl final ↦ rw final (finalized-Drops c job.id _ s h)
      | inr other ↦ rw other (deferred_or-Drops attempts e (defer_time e) s h)
    ]

    cancelled_or-Drops :
        (attempts : ℤ) (e f : Option Error) (s : Held World)
        → IsSound s.ledger
        → DropsStarted job.id (cancelled_or env service c job attempts e f s)
    unfolding dispose cancelled_or
    cancelled_or-Drops attempts e (some f) s h p = cc
    cancelled_or-Drops attempts e none s h p = dispose-Drops attempts e s h p

    run_admitted-Drops :
        (attempts : ℤ) (o : Option Error) (s : Held World)
        → IsSound s.ledger
        → DropsStarted job.id (run_admitted env service c job attempts o s)
    unfolding cancelled_or run_admitted
    run_admitted-Drops attempts (some e) s h p = cc
    run_admitted-Drops attempts none s h p = cancelled_or-Drops attempts _ _ _ h p

    with_handler-Drops :
        (o : Option ℤ) (s : Held World)
        → IsSound s.ledger
        → DropsStarted job.id (with_handler env service c job o s)
    unfolding with_handler
    with_handler-Drops none s h p = cc
    with_handler-Drops (some attempts) s h p =
        run_admitted-Drops attempts (admit env c s).0 (admit env c s).1
          (admit-Renews env c s h).sound p

    -- A row that was started and processed without an error is no longer outstanding in the ledger.
    pub process_batch_job-Drops :
        (s : Held World)
        → IsSound s.ledger
        → (process_batch_job env service c job s).0 ≡ (true, none)
        → lookup job.id (process_batch_job env service c job s).1.ledger.outstanding ≡ none
    unfolding process_batch_job
    process_batch_job-Drops s h = with_handler-Drops (service.max_attempts (job_capability job)) s h
