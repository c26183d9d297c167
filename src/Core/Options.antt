-- ===== src/Core/Options.antt =====
-- `Options.Validate` of outbox/service_options.go.
pub mod Acceptance
use outbox.Base.{Bool, true, false, not, ◌||◌, ◌&&◌, Option, none, some, if◌then◌else◌}
use outbox.Base.Int.{ℤ, pos, ltb_ℤ}
use outbox.Core.Errors.{Error, sentinel, wrapped, foreign, reservation_batch_size_unsupported}
use outbox.Core.Retry.{Duration}

-- Whether a transactor implements `TransactionCapabilities`, and what it answers.
pub data TransactorKind : Type 0 where
  plain : TransactorKind
  reporting : Bool → TransactorKind

-- The fields that `Validate` reads; `none` is nil, a job repository is known by its
-- `MaxReservationBatchSize`, and the others by being there.
pub record Options : Type 0 where
  pub workers : ℤ
  pub idle_time : Duration
  pub reserve_for : Duration
  pub reservation_batch_size : ℤ
  pub jobs_repo : Option ℤ
  pub has_jobs_failed_repo : Bool
  pub transactor : Option TransactorKind
  pub allow_non_atomic_dlq : Bool
  pub atomic_dlq : Bool
  pub has_logger : Bool

abbrev pub invalid_option : Error
invalid_option = foreign 31

abbrev pub supports_atomic : TransactorKind → Bool
supports_atomic plain = false
supports_atomic (reporting atomic) = atomic

-- `ErrTransactionCapabilitiesRequired` and `ErrNonAtomicDLQUnsupported`
abbrev pub non_atomic : TransactorKind → Error
non_atomic plain = foreign 32
non_atomic (reporting atomic) = foreign 33

-- `validateReservationBatch`
pub validate_reservation_batch : ℤ → Options → Option Error
validate_reservation_batch repository_max o =
    if ltb_ℤ o.reservation_batch_size (pos 1) || ltb_ℤ (pos 1000) o.reservation_batch_size
    then some invalid_option
    else if ltb_ℤ repository_max (pos 1)
    then some invalid_option
    else if ltb_ℤ repository_max o.reservation_batch_size
    then some (wrapped (sentinel reservation_batch_size_unsupported))
    else none

abbrev pub validate_rest : ℤ → Options → Option Error
unfolding validate_reservation_batch
validate_rest repository_max o =
    if not o.has_logger
    then some invalid_option
    else if ltb_ℤ o.workers (pos 1)
    then some invalid_option
    else if ltb_ℤ o.idle_time (pos 100000000) || ltb_ℤ (pos 10000000000) o.idle_time
    then some invalid_option
    else if ltb_ℤ o.reserve_for (pos 1000000000) || ltb_ℤ (pos 600000000000) o.reserve_for
    then some invalid_option
    else validate_reservation_batch repository_max o

abbrev pub validate_parts : Option ℤ → Option TransactorKind → Options → Option Error × Options
unfolding validate_reservation_batch
validate_parts none transactor o = (some invalid_option, o)
validate_parts (some repository_max) none o = (some invalid_option, o)
validate_parts (some repository_max) (some kind) o =
    let o' = record o { atomic_dlq = supports_atomic kind } in
    if not o.has_jobs_failed_repo
    then (some invalid_option, o)
    else if not (supports_atomic kind) && not o.allow_non_atomic_dlq
    then (some (non_atomic kind), o')
    else (validate_rest repository_max o', o')

-- `Validate` of options that are not nil; it sets `atomicDLQ`.
pub validate : Options → Option Error × Options
unfolding validate_reservation_batch
validate o = validate_parts o.jobs_repo o.transactor o
