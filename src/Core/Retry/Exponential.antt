-- ===== src/Core/Retry/Exponential.antt =====
-- The doubling loop in closed form: no product wraps, and the delay is the capped power.
use native.Mathlib.Nat.{pow-suc}
use outbox.Base.{
  refl, lt→ltb, ℕ, zero, suc, ◌+◌, ◌-◌, ◌*◌, ◌/◌, ◌^◌, ◌≤◌, ◌<◌, ◌≡◌, false, none, some, arith, min,
  Bool-cases, inl, inr, ltb,
}
use outbox.Base.Int.{negsuc, ℤ, pos, half64, double64_lem, int64_half}
use outbox.Core.Retry.{
  ExponentialRetryPolicy, RetryAttempt, grow, retry_delay, batch_attempt_backoff, ok,
  new_exponential_retry_policy,
}

pow_pos : (n : ℕ) → 1 ≤ 2 ^ n
pow_pos zero = omega arith
pow_pos (suc n) = rw pow-suc (omega (arith, pow_pos n))

min_at_cap : (m d n : ℕ) → m ≤ d → min (d * 2 ^ n) m ≡ m
min_at_cap m d n h = grind (arith, pow_pos n)

power_step : (m d n : ℕ) → min (2 * d * 2 ^ n) m ≡ min (d * 2 ^ suc n) m
power_step m d n = rw pow-suc (omega arith)

past_half : (m d n : ℕ) → m / 2 < d → min (d * 2 ^ suc n) m ≡ m
past_half m d n h = rw (← power_step m d n) (min_at_cap m (2 * d) n (omega arith))

-- The loop doubles until the next value would pass the cap, and no doubling wraps.
grow-min : (n m d : ℕ) → m < int64_half → d ≤ m → grow n (pos m) (pos d) ≡ pos (min (d * 2 ^ n) m)
unfolding grow half64
grow-min zero m d bound h = ground arith
grow-min (suc n) m d bound h = elim (Bool-cases (ltb d m)) [
  | inl below ↦ elim (Bool-cases (ltb (m / 2) d)) [
    | inl over ↦ ground (arith, past_half m d n)
    | inr under ↦
        ground (arith, double64_lem d, power_step m d n, grow-min n m (2 * d) bound (ground arith))
  ]
  | inr there ↦ ground (arith, min_at_cap m d (suc n))
]

one_less : (n : ℕ) → suc n - 1 ≡ n
one_less n = omega arith

first_attempt : (n : ℕ) → ltb (suc n + 0) 1 ≡ false
first_attempt n = ground arith

-- For a base not above the maximum the constructor succeeds, and the policy without jitter delays
-- attempt `suc n` by the base times two to the `n`, or the maximum where that is less; no doubling
-- wraps.
pub retry_delay-min :
    (base max n : ℕ) (a : RetryAttempt)
    → 0 < base
    → base ≤ max
    → max < int64_half
    → a.attempt ≡ pos (suc n)
    → (p : ExponentialRetryPolicy) × (new_exponential_retry_policy (pos base) (pos max) none ≡ ok p)
      × (retry_delay p a ≡ some (pos (min (base * 2 ^ n) max)))
unfolding new_exponential_retry_policy retry_delay
retry_delay-min base max n a positive le bound e = (
  record { base_delay = pos base; max_delay = pos max; jitter = none },
  ground arith,
  rw (e, one_less n, grow-min n max base bound le) (ground arith),
)

-- The built-in backoff of a batch item is the exponential policy from 100 ms to 30 s.
pub batch_attempt_backoff-min :
    (n : ℕ) → batch_attempt_backoff (pos (suc n)) ≡ pos (min (100000000 * 2 ^ n) 30000000000)
unfolding batch_attempt_backoff
batch_attempt_backoff-min n =
    rw (first_attempt n, one_less n, grow-min n 30000000000 100000000 (omega arith) (omega arith))
      (ground arith)

-- The backoff is a count of nanoseconds.
pub backoff_positive : (a : ℤ) → (d : ℕ) × (batch_attempt_backoff a ≡ pos d)
unfolding batch_attempt_backoff grow
backoff_positive (pos zero) = (_, batch_attempt_backoff-min 0)
backoff_positive (pos (suc n)) = (_, batch_attempt_backoff-min n)
backoff_positive (negsuc n) = (100000000, rw (lt→ltb 0 (1 + suc n) (omega arith)) refl)
