-- ===== src/Core/Outcome/Callback.antt =====
-- `applyExecutionBatchOutcomes` of outbox/service_execution_batch.go: what its callback does inside the
-- transaction.
use outbox.Base.{◌≡◌, refl, Option, none, some, List, length, ℕ}
use outbox.Core.Errors.{Error}
use outbox.Core.Model.{LeaseToken, Job}
use outbox.Core.Retry.{Result, ok, err}
use outbox.Core.Batch.{BatchJobOutcome}
use outbox.Core.Batch.Identifiers.{Distinct}
use outbox.Core.Claim.Ownership.{job_ids}
use outbox.Core.Env.{Env, State, next, ◌>>=◌, pure}
use outbox.Core.Reserve.Cancellation.{Reports, all_released-Reports}
use outbox.Core.Outcome.{all_applied, apply_in_tx}
use outbox.Core.Outcome.DeadLetters.{Aligned, dlq_rows, insert_rows, create_dlq_records-rows}

module _ (env : Env) where
  open env use {World, Ctx, now, apply_batch_job_outcomes}

  -- After the dead-letter rows, from the world that they left: an error of theirs is the callback's, and no call
  -- follows; otherwise the outcomes are applied in one call, under the token and at the clock's time.
  abbrev pub Applied :
      Ctx → LeaseToken → List BatchJobOutcome → Option Error × World → Option Error × World → Type 0
  Applied c token os (some e, w) o = o ≡ (some e, w)
  Applied c token os (none, w) (e, w') =
      let (t, w1) = now w in
      let (answer, w2) = apply_batch_job_outcomes c token t os w1 in
      (w' ≡ w2) × Reports (length os) answer e

  all_applied-Reports : (n : ℕ) (r : Result ℕ) → Reports n r (all_applied env n r)
  all_applied-Reports n (err x) = refl
  all_applied-Reports n (ok m) = all_released-Reports n (ok m)

  -- For distinct jobs and outcomes that name them in order: the callback inserts the dead-letter rows one by one;
  -- after the first failure it stops with that error, and otherwise it applies all outcomes in one call, without
  -- an error exactly if as many rows are affected as there are outcomes.
  pub apply_in_tx-Applied :
      (token : LeaseToken) (c : Ctx) (jobs : List Job) (os : List BatchJobOutcome) (w : World)
      → Distinct (job_ids jobs)
      → Aligned jobs os
      → Applied c token os
          (insert_rows env c (dlq_rows jobs os) w)
          (apply_in_tx env token jobs os c w)
  unfolding apply_in_tx
  apply_in_tx-Applied token c jobs os w h a =
      rw (create_dlq_records-rows env c jobs os w h a) (go (insert_rows env c (dlq_rows jobs os) w))
    where
      rest : State World (Option Error)
      rest = now >>= λ t.
          apply_batch_job_outcomes c token t os >>= λ r. pure (all_applied env (length os) r)

      go : (o : Option Error × World) → Applied c token os o (next rest o.0 o.1)
      go (some e, v) = refl
      go (none, v) = (refl, all_applied-Reports _ _)
