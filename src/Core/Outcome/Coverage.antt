-- ===== src/Core/Outcome/Coverage.antt =====
-- The transaction of a batch's outcomes starts only under leases that last until its deadline.
use outbox.Base.{inr, inl, ◌⊎◌, ◌+◌, ◌≡◌, Option, some, List}
use outbox.Core.Errors.{Error, Time}
use outbox.Core.Model.{Job}
use outbox.Core.Batch.{BatchJobOutcome}
use outbox.Core.Env.{Env, ◌>>◌}
use outbox.Core.Lease.{Held, prepare_all, outside, update, drop_all, batch_finalization_margin}
use outbox.Core.Lease.Deadlines.{AllFrom}
use outbox.Core.Lease.Invariant.{IsSound, Keeps}
use outbox.Core.Lease.Finalization.{finalize_all_covers}
use outbox.Core.Outcome.{apply_outcomes, apply_in_tx, finalization_timeout}

module _ (env : Env) where
  open env use {World, Ctx, now, with_deadline, without_cancel, run_in_tx}

  -- The deadline of the transaction: the clock's time and the time that the outcomes are given.
  abbrev pub apply_deadline : List BatchJobOutcome → Held World → Time
  apply_deadline os s = (now s.world).0 + finalization_timeout os

  abbrev pub apply_context : Ctx → List BatchJobOutcome → Held World → Ctx
  apply_context c os s = with_deadline (without_cancel c) (apply_deadline os s)

  -- What stands before the transaction.
  abbrev pub apply_prepared : Ctx → List BatchJobOutcome → Held World → Option Error × Held World
  apply_prepared c os s =
      prepare_all env (apply_context c os s) (apply_deadline os s + batch_finalization_margin)
        (record s { world = (now s.world).1 })

  abbrev pub Stops : Ctx → List Job → List BatchJobOutcome → Held World → Type 0
  Stops c jobs os s =
      (e : Error) × (apply_outcomes env c jobs os s ≡ (some e, (apply_prepared c os s).1))

  abbrev pub Applies : Ctx → List Job → List BatchJobOutcome → Held World → Type 0
  Applies c jobs os s =
      IsSound (apply_prepared c os s).1.ledger
      × Keeps s.ledger (apply_prepared c os s).1.ledger
      × AllFrom (apply_deadline os s + batch_finalization_margin)
          (apply_prepared c os s).1.ledger.outstanding
      × (apply_outcomes env c jobs os s
          ≡ (outside env
                  (run_in_tx (apply_context c os s) (apply_in_tx env s.ledger.lease_token jobs os))
                >> update env drop_all)
              (apply_prepared c os s).1)

  -- From a sound ledger, the outcomes of a batch are applied in one transaction that starts while every
  -- outstanding lease lasts until its deadline and the margin, with no row lost and no deadline moved
  -- earlier, and after which, without an error, nothing is outstanding; or an error is returned with
  -- no transaction started.
  pub apply_outcomes_covers :
      (c : Ctx) (jobs : List Job) (os : List BatchJobOutcome) (s : Held World)
      → IsSound s.ledger
      → Stops c jobs os s ⊎ Applies c jobs os s
  unfolding apply_outcomes
  apply_outcomes_covers c jobs os s h =
      elim (finalize_all_covers env (apply_context c os s)
        (apply_deadline os s + batch_finalization_margin) (record s { world = (now s.world).1 })
        h) [
          | inl (e, refused) ↦ inl (e, refused _)
          | inr (sound, keeps, covered, runs) ↦ inr (sound, keeps, covered, runs _)
        ]
