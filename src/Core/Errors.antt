-- ===== src/Core/Errors.antt =====
-- outbox/disposition.go, and what the service uses of the package errors: chains and trees of
-- wrapped errors, `errors.Is`, `errors.As` and `errors.Join`. Messages are not modelled.
pub mod Disposition
use outbox.Base.{
  ℕ, ◌≡◌, Bool, true, false, ◌||◌, Option, none, some, nat_beq, if◌then◌else◌, is_some,
}

-- An instant in nanoseconds since Go's zero time, so that `IsZero` is `0` and `UTC` changes nothing.
abbrev pub Time : Type 0
Time = ℕ

-- The errors that the package compares by identity.
pub data Sentinel : Type 0 where
  no_jobs : Sentinel
  reservation_batch_size_unsupported : Sentinel
  empty_reservation_batch : Sentinel
  invalid_schema_version : Sentinel
  lease_lost : Sentinel
  unsupported_claim : Sentinel
  invalid_batch_result : Sentinel
  batch_repository_not_configured : Sentinel
  unique_repository_not_configured : Sentinel
  fanout_repository_not_configured : Sentinel
  idempotency_conflict : Sentinel
  invalid_fanout : Sentinel
  retry_policy : Sentinel
  service_running : Sentinel
  service_draining : Sentinel
  cancelled_claim_cleanup : Sentinel

abbrev sentinel_code : Sentinel → ℕ
sentinel_code no_jobs = 0
sentinel_code reservation_batch_size_unsupported = 1
sentinel_code empty_reservation_batch = 2
sentinel_code invalid_schema_version = 3
sentinel_code lease_lost = 4
sentinel_code unsupported_claim = 5
sentinel_code invalid_batch_result = 6
sentinel_code batch_repository_not_configured = 7
sentinel_code unique_repository_not_configured = 8
sentinel_code fanout_repository_not_configured = 9
sentinel_code idempotency_conflict = 10
sentinel_code invalid_fanout = 11
sentinel_code retry_policy = 12
sentinel_code service_running = 13
sentinel_code service_draining = 14
sentinel_code cancelled_claim_cleanup = 15

-- `foreign` is an error of a handler, a driver, a context or `errors.New` that wraps nothing.
-- `wrapped` is `fmt.Errorf` with one `%w`, `joined` is `errors.Join` or a format with two.
pub data Error : Type 0 where
  sentinel : Sentinel → Error
  foreign : ℕ → Error
  handler_panic : Error
  wrapped : Error → Error
  joined : Error → Error → Error
  permanent_error : Error → Error
  retry_at_error : Error → Time → Error
  defer_at_error : Error → Time → Error

-- `errors.Is`
unfoldable pub errors_is : Error → Sentinel → Bool
errors_is (sentinel t) s = nat_beq (sentinel_code t) (sentinel_code s)
errors_is (foreign n) s = false
errors_is handler_panic s = false
errors_is (wrapped e) s = errors_is e s
errors_is (joined e f) s = errors_is e s || errors_is f s
errors_is (permanent_error e) s = errors_is e s
errors_is (retry_at_error e at) s = errors_is e s
errors_is (defer_at_error e at) s = errors_is e s

abbrev pub first_some {ℓ} : {A : Type ℓ} → Option A → Option A → Option A
first_some none o = o
first_some (some a) o = some a

-- `errors.As` with a `*HandlerPanicError` target
pub is_handler_panic : Error → Bool
is_handler_panic (sentinel t) = false
is_handler_panic (foreign n) = false
is_handler_panic handler_panic = true
is_handler_panic (wrapped e) = is_handler_panic e
is_handler_panic (joined e f) = is_handler_panic e || is_handler_panic f
is_handler_panic (permanent_error e) = is_handler_panic e
is_handler_panic (retry_at_error e at) = is_handler_panic e
is_handler_panic (defer_at_error e at) = is_handler_panic e

pub is_permanent : Error → Bool
is_permanent (sentinel t) = false
is_permanent (foreign n) = false
is_permanent handler_panic = false
is_permanent (wrapped e) = is_permanent e
is_permanent (joined e f) = is_permanent e || is_permanent f
is_permanent (permanent_error e) = true
is_permanent (retry_at_error e at) = is_permanent e
is_permanent (defer_at_error e at) = is_permanent e

unfoldable pub retry_time : Error → Option Time
retry_time (sentinel t) = none
retry_time (foreign n) = none
retry_time handler_panic = none
retry_time (wrapped e) = retry_time e
retry_time (joined e f) = first_some (retry_time e) (retry_time f)
retry_time (permanent_error e) = retry_time e
retry_time (retry_at_error e at) = some at
retry_time (defer_at_error e at) = retry_time e

unfoldable pub defer_time : Error → Option Time
defer_time (sentinel t) = none
defer_time (foreign n) = none
defer_time handler_panic = none
defer_time (wrapped e) = defer_time e
defer_time (joined e f) = first_some (defer_time e) (defer_time f)
defer_time (permanent_error e) = defer_time e
defer_time (retry_at_error e at) = defer_time e
defer_time (defer_at_error e at) = some at

-- `hasDeferTime` of outbox/service_execution_batch.go
pub has_defer_time : Error → Bool
has_defer_time e = is_some (defer_time e)

-- nil is `none`.
pub permanent : Option Error → Option Error
permanent none = none
permanent (some e) = if is_permanent e then some e else some (permanent_error e)

pub retry_at : Option Error → Time → Option Error
retry_at none at = none
retry_at (some e) at = some (retry_at_error e at)

pub defer_at : Option Error → Time → Option Error
defer_at none at = none
defer_at (some e) at = some (defer_at_error e at)

-- The reason of a dead-letter row: the format of its text, and the error it prints.
pub data Reason : Type 0 where
  permanent_failure : Error → Reason
  max_attempts_exceeded : Error → Reason
