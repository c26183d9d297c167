-- ===== src/Core/Retry/Schedule.antt =====
-- `retryTime`: when a failed attempt runs again.
use outbox.Base.{ℕ, suc, lt→ltb, ◌+◌, ◌≡◌, refl, true, Option, none, some, arith, max}
use outbox.Base.Int.{pos, negsuc, pos_part}
use outbox.Core.Errors.{Time, Error, retry_time, retry_policy, errors_is}
use outbox.Core.Model.{Job}
use outbox.Core.Retry.{
  Result, ok, err, Duration, RetryPolicy, retry_schedule, retry_policy_delay, RetryAttempt,
  attempt_of, schedule, check_delay, explicit_or, policy_or,
}

-- What `retryTime` promises of its result, by what the error and the policy say.
abbrev pub Scheduled :
    Option Time → Option (Option Duration) → Time → Duration → Result Time → Type 0
Scheduled (some at) answer now legacy r = r ≡ ok (max at now)
Scheduled none none now legacy r = r ≡ ok (now + pos_part legacy)
Scheduled none (some none) now legacy (ok t) = ⊥
Scheduled none (some none) now legacy (err e) = errors_is e retry_policy ≡ true
Scheduled none (some (some (pos d))) now legacy r = r ≡ ok (now + d)
Scheduled none (some (some (negsuc d))) now legacy (ok t) = ⊥
Scheduled none (some (some (negsuc d))) now legacy (err e) = errors_is e retry_policy ≡ true

abbrev pub answer : Option RetryPolicy → RetryAttempt → Option (Option Duration)
answer none a = none
answer (some policy) a = some (policy a)

policy_answer :
    (o : Option Duration) (now d : ℕ)
    → Scheduled none (some o) now (pos d) (schedule now (check_delay o))
unfolding errors_is
policy_answer none now d = refl
policy_answer (some (pos n)) now d = ground arith
policy_answer (some (negsuc n)) now d = rw (lt→ltb 0 (0 + suc n) (omega arith))

explicit_answer :
    (r : Option Time) (policy : Option RetryPolicy) (a : RetryAttempt) (now d : ℕ)
    → Scheduled r
        (answer policy a)
        now
        (pos d)
        (explicit_or r now (schedule now (policy_or policy a (pos d))))
unfolding retry_policy_delay
explicit_answer (some at) policy a now d = ground arith
explicit_answer none none a now d = ground arith
explicit_answer none (some policy) a now d = policy_answer (policy a) now d

-- An explicit `RetryAt` wins and is not before now; else the policy's delay is added, and a policy
-- that panics or answers a negative delay gives `ErrRetryPolicy`; with no policy the caller's delay,
-- if not negative, is added.
pub retry_schedule-Scheduled :
    (policy : Option RetryPolicy) (job : Job) (e : Error) (now d : ℕ)
    → Scheduled
        (retry_time e)
        (answer policy (attempt_of job e))
        now
        (pos d)
        (retry_schedule policy job e now (pos d))
unfolding retry_schedule
retry_schedule-Scheduled policy job e now d =
    explicit_answer (retry_time e) policy (attempt_of job e) now d
