-- ===== src/Core/Retry.antt =====
-- outbox/retry_policy.go, and `batchAttemptBackoff` of outbox/service_execution_batch.go.
pub mod Exponential
pub mod Schedule
use outbox.Base.{
  ℕ, zero, suc, ◌+◌, ◌-◌, ◌≡◌, Bool, true, false, Option, none, some, ◌||◌, if◌then◌else◌, ltb,
}
use outbox.Base.Int.{ℤ, pos, pos_part, neg_part, leb_ℤ, ltb_ℤ, half64, double64, min_ℤ}
use outbox.Core.Errors.{Time, Error, sentinel, wrapped, retry_policy, retry_time}
use outbox.Core.Model.{JobId, JobCapability, Job, job_capability}

-- A Go result `(A, error)`.
pub data Result {ℓ} (A : Type ℓ) : Type ℓ where
  ok : A → Result A
  err : Error → Result A

-- nanoseconds in an int64
abbrev pub Duration : Type 0
Duration = ℤ

-- `time.Time.Add`
abbrev pub add_time : Time → Duration → Time
add_time t d = t + pos_part d - neg_part d

pub record RetryAttempt : Type 0 where
  pub job_id : JobId
  pub capability : JobCapability
  pub attempt : ℤ
  pub error : Error

-- The host's callback; `none` is a panic.
abbrev pub RetryPolicy : Type 0
RetryPolicy = RetryAttempt → Option Duration

pub record ExponentialRetryPolicy : Type 0 where
  pub base_delay : Duration
  pub max_delay : Duration
  pub jitter : Option (Duration → Option Duration)

pub new_exponential_retry_policy :
    Duration → Duration → Option (Duration → Option Duration) → Result ExponentialRetryPolicy
new_exponential_retry_policy base max jitter =
    if leb_ℤ base (pos 0) || leb_ℤ max (pos 0) || ltb_ℤ max base
    then err (wrapped (sentinel retry_policy))
    else ok (record { base_delay = base; max_delay = max; jitter = jitter })

-- `for step := 1; step < attempt && delay < max; step++`, on the rounds left
unfoldable pub grow : ℕ → Duration → Duration → Duration
grow zero max delay = delay
grow (suc rounds) max delay = elim (ltb_ℤ delay max) [
  | true ↦ elim (ltb_ℤ (half64 max) delay) [ true ↦ max | false ↦ grow rounds max (double64 delay) ]
  | false ↦ delay
]

-- The count of values of `step` from 1 below `attempt`.
abbrev pub steps_below : ℤ → ℕ
steps_below attempt = pos_part attempt - 1

-- `delay = p.jitter(delay)`, where the policy has one
abbrev pub apply_jitter : Option (Duration → Option Duration) → Duration → Option Duration
apply_jitter none delay = some delay
apply_jitter (some jitter) delay = jitter delay

abbrev pub cap_delay : Duration → Option Duration → Option Duration
cap_delay max none = none
cap_delay max (some delay) = some (min_ℤ delay max)

-- `exponentialRetryPolicy.RetryDelay`
pub retry_delay : ExponentialRetryPolicy → RetryPolicy
retry_delay p a =
    cap_delay p.max_delay
      (apply_jitter p.jitter (grow (steps_below a.attempt) p.max_delay p.base_delay))

abbrev pub check_delay : Option Duration → Result Duration
check_delay none = err (wrapped (sentinel retry_policy))
check_delay (some delay) =
    if ltb_ℤ delay (pos 0) then err (wrapped (sentinel retry_policy)) else ok delay

pub retry_policy_delay : RetryPolicy → RetryAttempt → Result Duration
retry_policy_delay policy a = check_delay (policy a)

abbrev pub attempt_of : Job → Error → RetryAttempt
attempt_of job e = record {
  job_id = job.id;
  capability = job_capability job;
  attempt = job.attempts;
  error = e;
}

abbrev pub policy_or : Option RetryPolicy → RetryAttempt → Duration → Result Duration
policy_or none a legacy = ok legacy
policy_or (some policy) a legacy = retry_policy_delay policy a

abbrev pub schedule : Time → Result Duration → Result Time
schedule now (err e) = err e
schedule now (ok delay) = ok (add_time now delay)

abbrev pub no_earlier : Time → Time → Time
no_earlier at now = if ltb at now then now else at

abbrev pub explicit_or : Option Time → Time → Result Time → Result Time
explicit_or none now rest = rest
explicit_or (some at) now rest = ok (no_earlier at now)

-- `Service.retryTime`; the first argument is the service's policy.
pub retry_schedule : Option RetryPolicy → Job → Error → Time → Duration → Result Time
retry_schedule policy job e now legacy =
    explicit_or (retry_time e) now (schedule now (policy_or policy (attempt_of job e) legacy))

-- 100 milliseconds and 30 seconds
abbrev pub batch_retry_base : Duration
batch_retry_base = pos 100000000

abbrev pub batch_retry_maximum : Duration
batch_retry_maximum = pos 30000000000

unfoldable pub batch_attempt_backoff : ℤ → Duration
batch_attempt_backoff attempt =
    let attempt' = if ltb_ℤ attempt (pos 1) then pos 1 else attempt in
    min_ℤ (grow (steps_below attempt') batch_retry_maximum batch_retry_base) batch_retry_maximum
