-- ===== src/Core/Pause.antt =====
-- `batchPaused` and `batchStreak` of outbox/service.go, with their functions in
-- outbox/service_execution_batch.go: how long a batch capability is left alone after a failure.
-- Each function is one critical section under `batchStateMu`.
pub mod Backoff
use outbox.Base.{
  ℕ, ◌+◌, Bool, true, false, not, Option, none, some, ltb, nat_beq, if◌then◌else◌, suc, ◌||◌, List,
  [], ◌∷◌,
}
use outbox.Base.Int.{pos}
use outbox.Base.Dict.{Dict, lookup, insert, erase}
use outbox.Core.Errors.{Time, Error, retry_time, defer_time}
use outbox.Core.Model.{JobCapability, capability_eq}
use outbox.Core.Retry.{add_time, no_earlier, batch_attempt_backoff}

-- A streak counts failures of a whole batch, from zero; it stays far below 2^63.
pub record Pacing : Type 0 where
  pub paused : Dict JobCapability Time
  pub streak : Dict JobCapability ℕ

-- A missing key reads as the zero value.
abbrev pub or_zero : Option ℕ → ℕ
or_zero none = 0
or_zero (some n) = n

abbrev pub paused_until : JobCapability → Pacing → Time
paused_until c s = or_zero (lookup c s.paused)

abbrev pub streak_of : JobCapability → Pacing → ℕ
streak_of c s = or_zero (lookup c s.streak)

-- `pauseBatchCapability`
unfoldable pub pause_batch_capability : JobCapability → Time → Pacing → Pacing
pause_batch_capability c until s =
    if ltb (paused_until c s) until then record s { paused = insert c until s.paused } else s

-- `resetBatchRetryStreak`
pub reset_batch_retry_streak : JobCapability → Pacing → Pacing
reset_batch_retry_streak c s = record s { streak = erase c s.streak }

-- `batchCapabilityPaused`
pub batch_capability_paused : JobCapability → Time → Pacing → Bool × Pacing
batch_capability_paused c now s =
    if nat_beq (paused_until c s) 0 || not (ltb now (paused_until c s))
    then (false, record s { paused = erase c s.paused })
    else (true, s)

abbrev pub pause_for : JobCapability → Time → Pacing → Time × Pacing
unfolding pause_batch_capability
pause_for c at s = (at, pause_batch_capability c at s)

-- The end of `topLevelBatchRetryTime`: one failure more, and its backoff.
unfoldable pub back_off : JobCapability → Time → Pacing → Time × Pacing
unfolding pause_batch_capability
back_off c now s =
    let count = suc (streak_of c s) in
    let at = add_time now (batch_attempt_backoff (pos count)) in
    (at, pause_batch_capability c at (record s { streak = insert c count s.streak }))

abbrev pub explicit_pause :
    Option Time → Option Time → JobCapability → Time → Pacing → Time × Pacing
unfolding pause_batch_capability back_off
explicit_pause (some at) retry_at c now s = pause_for c (no_earlier at now) s
explicit_pause none (some at) c now s = pause_for c (no_earlier at now) s
explicit_pause none none c now s = back_off c now s

-- `topLevelBatchRetryTime`, on the current time
unfoldable pub top_level_batch_retry_time : JobCapability → Error → Time → Pacing → Time × Pacing
unfolding back_off
top_level_batch_retry_time c e now s = explicit_pause (defer_time e) (retry_time e) c now s
