-- ===== src/Core/Pause/Backoff.antt =====
-- A capability that failed stays paused until its rows are due again.
use outbox.Base.{
  ◌∙◌, ℕ, suc, ◌+◌, ◌^◌, ◌*◌, ◌≤◌, ◌<◌, ◌≡◌, refl, true, false, none, some, Option, arith, min,
  ◌==◌, Bool-cases, inl, inr, ltb,
}
use outbox.Base.Int.{pos}
use outbox.Base.Dict.{insert, lookup-insert, lookup-insert_self}
use outbox.Core.Errors.{Time, Error, defer_time, retry_time}
use outbox.Core.Model.{JobCapability, capability_eq, capability_beq_iff}
use outbox.Core.Retry.Exponential.{batch_attempt_backoff-min}
use outbox.Core.Pause.{
  batch_attempt_backoff, add_time, Pacing, paused_until, streak_of, pause_batch_capability,
  batch_capability_paused, back_off, explicit_pause, top_level_batch_retry_time,
}

-- No pause is shortened, and that of `c` reaches `at`.
pub record Pauses (c : JobCapability) (at : Time) (s s' : Pacing) : Type 0 where
  pub reached : at ≤ paused_until c s'
  pub longer : (d : JobCapability) → paused_until d s ≤ paused_until d s'
  pub others : (d : JobCapability) → (c == d) ≡ false → paused_until d s' ≡ paused_until d s

pub pause-Pauses :
    (c : JobCapability) (at : Time) (s : Pacing) → Pauses c at s (pause_batch_capability c at s)
unfolding pause_batch_capability
pause-Pauses c at s = elim (Bool-cases (ltb (paused_until c s) at)) [
  | inl below ↦ rw below (record {
    reached = rw (lookup-insert_self c at s.paused) (omega arith);
    longer = λ d. ground (arith, lookup-insert c d at s.paused, capability_beq_iff c d);
    others = λ d ne. ground (arith, lookup-insert c d at s.paused);
  })
  | inr above ↦
      rw above (record { reached = ground arith; longer = λ d. omega arith; others = λ d ne. refl })
]

pause-streak :
    (c : JobCapability) (at : Time) (s : Pacing)
    → streak_of c (pause_batch_capability c at s) ≡ streak_of c s
unfolding pause_batch_capability
pause-streak c at s = ground arith

backoff_time :
    (n now : ℕ)
    → add_time now (batch_attempt_backoff (pos (suc n))) ≡ now + min (100000000 * 2 ^ n) 30000000000
backoff_time n now = rw (batch_attempt_backoff-min n) (omega arith)

-- How the time of the rows follows from the error and the capability's streak.
abbrev pub Due : Option Time → Option Time → Time → ℕ → Time → ℕ → Type 0
Due (some deferred) r now n at n' = (deferred ≤ at) × (n' ≡ n)
Due none (some retried) now n at n' = (retried ≤ at) × (n' ≡ n)
Due none none now n at n' = (at ≡ now + min (100000000 * 2 ^ n) 30000000000) × (n' ≡ suc n)

abbrev pub Backs :
    Option Time → Option Time → JobCapability → Time → Pacing → Time × Pacing → Type 0
Backs d r c now s (at, s') =
    Due d r now (streak_of c s) at (streak_of c s') × (now ≤ at) × Pauses c at s s'

back_off-Backs :
    (c : JobCapability) (now : Time) (s : Pacing) → Backs none none c now s (back_off c now s)
unfolding back_off pause_batch_capability
back_off-Backs c now s =
    let count = suc (streak_of c s) in
    let at = add_time now (batch_attempt_backoff (pos count)) in
    let s' : Pacing = record s { streak = insert c count s.streak } in
    let p = pause-Pauses c at s' in
    let due = backoff_time (streak_of c s) now in
    (
      (due, pause-streak c at s' ∙ rw (lookup-insert_self c count s.streak)),
      omega (arith, due),
      record { reached = p.reached; longer = p.longer; others = p.others },
    )

explicit_pause-Backs :
    (d r : Option Time) (c : JobCapability) (now : Time) (s : Pacing)
    → Backs d r c now s (explicit_pause d r c now s)
unfolding pause_batch_capability explicit_pause back_off
explicit_pause-Backs (some at) r c now s =
    ((ground arith, pause-streak c _ s), ground arith, pause-Pauses c _ s)
explicit_pause-Backs none (some at) c now s =
    ((ground arith, pause-streak c _ s), ground arith, pause-Pauses c _ s)
explicit_pause-Backs none none c now s = back_off-Backs c now s

-- The rows of a batch that failed as a whole are due at an explicit time of the error or later, or,
-- without one, after 100 ms doubled for each failure since the last reset and at most 30 s. The time
-- is not before now, the capability is paused at least until it, and no pause is shortened.
pub top_level_batch_retry_time-Backs :
    (c : JobCapability) (e : Error) (now : Time) (s : Pacing)
    → Backs (defer_time e) (retry_time e) c now s (top_level_batch_retry_time c e now s)
unfolding top_level_batch_retry_time
top_level_batch_retry_time-Backs c e now s =
    explicit_pause-Backs (defer_time e) (retry_time e) c now s

-- Until the rows of a failed batch are due, the capability is reported as paused, and the check
-- changes nothing.
pub batch_capability_paused-top_level :
    (c : JobCapability) (e : Error) (now later : Time) (s : Pacing)
    → later < (top_level_batch_retry_time c e now s).0
    → batch_capability_paused c later (top_level_batch_retry_time c e now s).1
      ≡ (true, (top_level_batch_retry_time c e now s).1)
unfolding batch_capability_paused
batch_capability_paused-top_level c e now later s h =
    let backs = top_level_batch_retry_time-Backs c e now s in ground (arith, backs.2.reached)
