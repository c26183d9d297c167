-- ===== src/Core/Outcome/Decisions.antt =====
-- `finishExecutionBatch` up to the transaction: one outcome for each row, in the order of the rows.
use outbox.Base.{
  ◌⊎◌, ℕ, suc, ◌≡◌, refl, true, false, none, some, Option, List, [], ◌∷◌, map, length, get_elem?,
  arith, inl, inr, nat_eq,
}
use outbox.Core.Errors.{
  Time, Error, errors_is, retry_policy, invalid_batch_result, is_permanent, is_handler_panic,
  defer_time, retry_time,
}
use outbox.Core.Model.{Job}
use outbox.Core.Retry.{Result, ok, err}
use outbox.Core.Batch.{BatchJobItem, BatchResult, BatchJobOutcome, validate_batch_result}
use outbox.Core.Batch.Results.{item_ids}
use outbox.Core.Batch.Placement.{error_for}
use outbox.Core.Batch.Validation.{IsCovering, Validates, validate_batch_result-Validates}
use outbox.Core.Claim.Ownership.{job_ids}
use outbox.Core.Pause.{Pacing, reset_batch_retry_streak}
use outbox.Core.Pause.Backoff.{Backs}
use outbox.Core.Outcome.{
  Batching, item_outcome, item_outcomes, decide_outcomes, prepend, unless_err, validated_outcomes,
  defer_all,
}
use outbox.Core.Outcome.Classes.{AllFit, Longer, Fits-Longer, item_Longer, Right, item_Right}

unless_Longer :
    (r : Result BatchJobOutcome) (s s' s'' : Pacing)
    → Longer s s'
    → Longer s' s''
    → Longer s (unless_err r s' s'')
unless_Longer (err f) s s' s'' l m d = l d
unless_Longer (ok o) s s' s'' l m d = omega (arith, l d, m d)

items_Longer :
    (b : Batching) (jobs : List Job) (errs : List (Option Error)) (s : Pacing)
    → Longer s (item_outcomes b jobs errs s).1
unfolding item_outcomes
items_Longer b [] errs s d = omega arith
items_Longer b (job ∷ jobs) [] s d = omega arith
items_Longer b (job ∷ jobs) (e ∷ errs) s d =
    unless_Longer (item_outcome b job e s).0 s (item_outcome b job e s).1
      (item_outcomes b jobs errs (item_outcome b job e s).1).1 (item_Longer b job e s)
      (items_Longer b jobs errs (item_outcome b job e s).1) d

abbrev AllRight :
    Batching → List Job → List (Option Error) → Result (List BatchJobOutcome) × Pacing → Type 0
AllRight b jobs errs (err f, s) = errors_is f retry_policy ≡ true
AllRight b jobs errs (ok os, s) = AllFit b s jobs errs os

prepend-AllRight :
    (b : Batching) (job : Job) (jobs : List Job) (e : Option Error) (errs : List (Option Error))
    → (o : Result BatchJobOutcome) (os : Result (List BatchJobOutcome)) (s s' : Pacing)
    → Longer s s'
    → Right b job e (o, s)
    → AllRight b jobs errs (os, s')
    → AllRight b (job ∷ jobs) (e ∷ errs) (prepend o os, unless_err o s s')
prepend-AllRight b job jobs e errs (err f) os s s' l r all = r
prepend-AllRight b job jobs e errs (ok o) (err f) s s' l r all = all
prepend-AllRight b job jobs e errs (ok o) (ok os) s s' l r all =
    (r.0, Fits-Longer b job e s s' o.kind l r.1, all)

items_AllRight :
    (b : Batching) (jobs : List Job) (errs : List (Option Error)) (s : Pacing)
    → length errs ≡ length jobs
    → AllRight b jobs errs (item_outcomes b jobs errs s)
unfolding item_outcomes
items_AllRight b [] [] s h = tt
items_AllRight b [] (e ∷ errs) s h = absurd (omega arith)
items_AllRight b (job ∷ jobs) [] s h = absurd (omega arith)
items_AllRight b (job ∷ jobs) (e ∷ errs) s h =
    let step = item_outcome b job e s in
    let rest = item_outcomes b jobs errs step.1 in
    prepend-AllRight b job jobs e errs step.0 rest.0 step.1 rest.1 (items_Longer b jobs errs step.1)
      (item_Right b job e s) (items_AllRight b jobs errs step.1 (omega arith))

-- The error that the handler's result gives for each job.
abbrev pub answers : List Job → BatchResult → List (Option Error)
answers [] result = []
answers (job ∷ jobs) result = error_for job.id result ∷ answers jobs result

answers_unique :
    (jobs : List Job) (items : List BatchJobItem) (result : BatchResult)
    (errs : List (Option Error))
    → item_ids items ≡ job_ids jobs
    → length errs ≡ length items
    → ((i : ℕ) (item : BatchJobItem)
        → get_elem? items i ≡ some item
        → get_elem? errs i ≡ some (error_for item.job_id result))
    → errs ≡ answers jobs result
answers_unique [] [] result [] h n all = refl
answers_unique [] [] result (e ∷ errs) h n all = absurd (omega arith)
answers_unique [] (item ∷ items) result errs h n all = cc
answers_unique (job ∷ jobs) [] result errs h n all = cc
answers_unique (job ∷ jobs) (item ∷ items) result [] h n all = absurd (omega arith)
answers_unique (job ∷ jobs) (item ∷ items) result (e ∷ errs) h n all = ground (
  arith,
  all 0 item refl,
  answers_unique jobs items result errs (ground arith) (omega arith) (λ i. all (suc i)),
)

length-answers :
    (jobs : List Job) (result : BatchResult) → length (answers jobs result) ≡ length jobs
length-answers [] result = refl
length-answers (job ∷ jobs) result = omega (arith, length-answers jobs result)

-- What the answer of a handler without a top-level error leads to.
abbrev pub Decides :
    Batching
    → List Job
    → List BatchJobItem
    → BatchResult
    → Result (List BatchJobOutcome) × Pacing
    → Type 0
Decides b jobs items result (ok os, s) =
    IsCovering items result × AllFit b s jobs (answers jobs result) os
Decides b jobs items result (err f, s) =
    ((¬ IsCovering items result) × (errors_is f invalid_batch_result ≡ true))
    ⊎ (IsCovering items result × (errors_is f retry_policy ≡ true))

AllRight-Decides :
    (b : Batching) (jobs : List Job) (items : List BatchJobItem) (result : BatchResult)
    → (r : Result (List BatchJobOutcome) × Pacing) → IsCovering items result
    → AllRight b jobs (answers jobs result) r
    → Decides b jobs items result r
AllRight-Decides b jobs items result (ok os, s) c all = (c, all)
AllRight-Decides b jobs items result (err f, s) c all = inr (c, all)

validated_Decides :
    (b : Batching) (jobs : List Job) (items : List BatchJobItem) (result : BatchResult) (s : Pacing)
    → item_ids items ≡ job_ids jobs
    → (r : Result (List (Option Error))) → Validates items result r
    → Decides b jobs items result (validated_outcomes b jobs r s)
validated_Decides b jobs items result s h (err e) v = inl (v.0, v.1)
validated_Decides b jobs items result s h (ok errs) (c, n, all) =
    rw (answers_unique jobs items result errs h n all) (
      AllRight-Decides b jobs items result _ c (
        items_AllRight b jobs (answers jobs result) (reset_batch_retry_streak b.capability s)
          (length-answers jobs result)))

-- For items that name the jobs in order and a handler without a top-level error: the outcomes exist
-- only for a result that covers the items, and then each job has its own: success without an error,
-- the dead-letter queue for a permanent error or one on the last attempt, a deferral that the
-- capability's pause reaches for one that asks for it, and else a retry not before now. A result
-- that does not cover them is an invalid batch result, and a covering one fails only by the retry
-- policy.
pub decide_outcomes-Decides :
    (b : Batching) (jobs : List Job) (items : List BatchJobItem) (result : BatchResult) (s : Pacing)
    → item_ids items ≡ job_ids jobs
    → Decides b jobs items result (decide_outcomes b jobs items result none s)
unfolding decide_outcomes
decide_outcomes-Decides b jobs items result s h =
    validated_Decides b jobs items result s h (validate_batch_result items result)
      (validate_batch_result-Validates items result)

-- What a top-level error of the handler leads to.
abbrev pub Fails :
    Batching
    → List Job
    → BatchResult
    → Error
    → Pacing
    → Result (List BatchJobOutcome) × Pacing
    → Type 0
Fails b jobs result e s (ok os, s') =
    (at : Time) × (os ≡ map (defer_all at) jobs)
    × (result ≡ [])
    × (is_handler_panic e ≡ false)
    × (is_permanent e ≡ false)
    × Backs (defer_time e) (retry_time e) b.capability b.now s (at, s')
Fails b jobs result e s (err f, s') =
    (s' ≡ s)
    × ((is_handler_panic e ≡ true)
        ⊎ (errors_is f invalid_batch_result ≡ true)
        ⊎ (is_permanent e ≡ true))
