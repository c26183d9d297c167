-- ===== src/Core/Outcome/Classes.antt =====
-- What `finishExecutionBatch` decides for each row.
use mathlib.Core.Path.{subst}
use outbox.Base.{
  ℕ, ◌≤◌, ◌≡◌, refl, true, false, none, some, Option, List, [], ◌∷◌, arith, max, Bool-cases,
  Option-cases, inl, inr, sym, ◌∙◌,
}
use outbox.Base.Int.{ℤ, pos, negsuc, leb_ℤ}
use outbox.Core.Errors.{
  retry_policy, errors_is, Time, Error, permanent_failure, max_attempts_exceeded, is_permanent,
  defer_time, retry_time,
}
use outbox.Core.Model.{Job}
use outbox.Core.Retry.{
  Result, ok, err, Duration, RetryPolicy, retry_schedule, batch_attempt_backoff, attempt_of,
}
use outbox.Core.Retry.Schedule.{Scheduled, answer, retry_schedule-Scheduled}
use outbox.Core.Retry.Exponential.{backoff_positive}
use outbox.Core.Batch.{BatchJobOutcome, Outcome, success, retry, defer, dlq}
use outbox.Core.Pause.{Pacing, paused_until}
use outbox.Core.Pause.Backoff.{pause-Pauses}
use outbox.Core.Outcome.{
  no_earlier, Batching, item_outcome, exhausted_or_retry, deferred_or, retried,
}

Scheduled-no_earlier :
    (r : Option Time) (o : Option (Option Duration)) (now d t : ℕ)
    → Scheduled r o now (pos d) (ok t)
    → now ≤ t
Scheduled-no_earlier (some at) o now d t h = ground arith
Scheduled-no_earlier none (some none) now d t h = elim h [ ]
Scheduled-no_earlier none (some (some (negsuc n))) now d t h = elim h [ ]
Scheduled-no_earlier none none now d t h = ground arith
Scheduled-no_earlier none (some (some (pos n))) now d t h = ground arith

Scheduled-err :
    (r : Option Time) (o : Option (Option Duration)) (now d : ℕ) (f : Error)
    → Scheduled r o now (pos d) (err f)
    → errors_is f retry_policy ≡ true
Scheduled-err (some at) o now d f h = cc
Scheduled-err none none now d f h = cc
Scheduled-err none (some none) now d f h = h
Scheduled-err none (some (some (pos n))) now d f h = cc
Scheduled-err none (some (some (negsuc n))) now d f h = h

module _ (policy : Option RetryPolicy) (job : Job) (e : Error) (now : Time) (a : ℤ) where
  retry_Scheduled :
      (r : Result Time)
      → retry_schedule policy job e now (batch_attempt_backoff a) ≡ r
      → (d : ℕ) × Scheduled (retry_time e) (answer policy (attempt_of job e)) now (pos d) r
  retry_Scheduled r h =
      let (d, eq) = backoff_positive a in
      (
        d,
        subst (Scheduled (retry_time e) (answer policy (attempt_of job e)) now (pos d))
            (sym (rw (← eq) refl) ∙ h) (retry_schedule-Scheduled policy job e now d),
      )

  -- A retry is never due before now.
  retry_no_earlier :
      (t : Time) → retry_schedule policy job e now (batch_attempt_backoff a) ≡ ok t → now ≤ t
  retry_no_earlier t h =
      let (d, scheduled) = retry_Scheduled (ok t) h in
      Scheduled-no_earlier (retry_time e) (answer policy (attempt_of job e)) now d t scheduled

  -- It fails only by the policy.
  retry_err :
      (f : Error)
      → retry_schedule policy job e now (batch_attempt_backoff a) ≡ err f
      → errors_is f retry_policy ≡ true
  retry_err f h =
      let (d, scheduled) = retry_Scheduled (err f) h in
      Scheduled-err (retry_time e) (answer policy (attempt_of job e)) now d f scheduled

-- When an outcome is the one for a row with this error, and what is known of its time.
abbrev pub Fits : Batching → Job → Option Error → Pacing → Outcome → Type 0
Fits b job e s success = e ≡ none
Fits b job e s (retry at) =
    (f : Error) × (e ≡ some f)
    × (is_permanent f ≡ false)
    × (defer_time f ≡ none)
    × (leb_ℤ b.max_attempts job.attempts ≡ false)
    × (b.now ≤ at)
Fits b job e s (defer at) =
    (f : Error) × (deferred : Time) × (e ≡ some f)
    × (is_permanent f ≡ false)
    × (defer_time f ≡ some deferred)
    × (at ≡ max deferred b.now)
    × (at ≤ paused_until b.capability s)
Fits b job e s (dlq (permanent_failure f)) = (e ≡ some f) × (is_permanent f ≡ true)
Fits b job e s (dlq (max_attempts_exceeded f)) =
    (e ≡ some f)
    × (is_permanent f ≡ false)
    × (defer_time f ≡ none)
    × (leb_ℤ b.max_attempts job.attempts ≡ true)

abbrev pub AllFit :
    Batching → Pacing → List Job → List (Option Error) → List BatchJobOutcome → Type 0
AllFit b s [] [] [] = Unit {0}
AllFit b s (job ∷ jobs) (e ∷ errs) (o ∷ os) =
    (o.job_id ≡ job.id) × Fits b job e s o.kind × AllFit b s jobs errs os
AllFit b s jobs errs os = ⊥

-- No capability's pause is shorter.
abbrev pub Longer : Pacing → Pacing → Type 0
Longer s s' = (d : _) → paused_until d s ≤ paused_until d s'

pub Fits-Longer :
    (b : Batching) (job : Job) (e : Option Error) (s s' : Pacing) (o : Outcome)
    → Longer s s'
    → Fits b job e s o
    → Fits b job e s' o
Fits-Longer b job e s s' success l h = h
Fits-Longer b job e s s' (retry at) l h = h
Fits-Longer b job e s s' (defer at) l (f, t, p, q, r, m, n) =
    (f, t, p, q, r, m, omega (arith, n, l b.capability))
Fits-Longer b job e s s' (dlq (permanent_failure f)) l h = h
Fits-Longer b job e s s' (dlq (max_attempts_exceeded f)) l h = h

pub item_Longer :
    (b : Batching) (job : Job) (e : Option Error) (s : Pacing) → Longer s (item_outcome b job e s).1
unfolding item_outcome
item_Longer b job none s d = omega arith
item_Longer b job (some e) s d = elim (Bool-cases (is_permanent e)) [
  | inl p ↦ rw p (omega arith)
  | inr p ↦ elim (Option-cases (defer_time e)) [
    | inl q ↦ rw (p, q) (omega arith)
    | inr (at, q) ↦ rw (p, q) ((pause-Pauses b.capability (no_earlier at b.now) s).longer d)
  ]
]

-- What is known of the answer for one row.
abbrev pub Right : Batching → Job → Option Error → Result BatchJobOutcome × Pacing → Type 0
Right b job e (err f, s) = errors_is f retry_policy ≡ true
Right b job e (ok o, s) = (o.job_id ≡ job.id) × Fits b job e s o.kind

module _ (b : Batching) (job : Job) (e : Error) (s : Pacing) (p : is_permanent e ≡ false) where
  retried-Right :
      (r : Result Time)
      → defer_time e ≡ none
      → leb_ℤ b.max_attempts job.attempts ≡ false
      → retry_schedule b.policy job e b.now (batch_attempt_backoff job.attempts) ≡ r
      → Right b job (some e) (retried job r, s)
  retried-Right (err f) q l h = retry_err b.policy job e b.now job.attempts f h
  retried-Right (ok at) q l h =
      (refl, (e, refl, p, q, l, retry_no_earlier b.policy job e b.now job.attempts at h))

  exhausted_Right : defer_time e ≡ none → Right b job (some e) (exhausted_or_retry b job e, s)
  unfolding exhausted_or_retry
  exhausted_Right q = elim (Bool-cases (leb_ℤ b.max_attempts job.attempts)) [
    | inl spent ↦ rw spent (refl, (refl, p, q, spent))
    | inr left ↦ rw left (retried-Right _ q left refl)
  ]

  deferred_Right :
      (at : Time) → defer_time e ≡ some at → Right b job (some e) (deferred_or (some at) b job e s)
  unfolding deferred_or exhausted_or_retry
  deferred_Right at q =
      let pause = pause-Pauses b.capability (no_earlier at b.now) s in
      (refl, (e, at, refl, p, q, ground arith, pause.reached))

pub item_Right :
    (b : Batching) (job : Job) (e : Option Error) (s : Pacing)
    → Right b job e (item_outcome b job e s)
unfolding item_outcome
item_Right b job none s = (refl, refl)
item_Right b job (some e) s = elim (Bool-cases (is_permanent e)) [
  | inl p ↦ rw p (refl, (refl, p))
  | inr p ↦ elim (Option-cases (defer_time e)) [
    | inl q ↦ rw (p, q) (exhausted_Right b job e s p q)
    | inr (at, q) ↦ rw (p, q) (deferred_Right b job e s p at q)
  ]
]
