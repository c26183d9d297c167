-- ===== src/Core/Publish.antt =====
-- outbox/api.go: publishing one job, one job under a deduplication key, and a batch of such jobs.
pub mod Batches
use outbox.Base.{
  ℕ, Bool, true, false, Option, none, some, List, [], ◌∷◌, if◌then◌else◌, not, ltb, length, ◌==◌,
  nat_eq, Text, text_eq,
}
use outbox.Base.Dict.{Dict, contains, insert}
use outbox.Core.Errors.{Time, Error, sentinel, wrapped, foreign, unique_repository_not_configured}
use outbox.Core.Model.{
  JobId, is_zero, SchemaVersion, default_schema_version, JobCapability, validate_capability,
  UniqueBatchPut, UniquePutResult,
}
use outbox.Core.Retry.{Result, ok, err}
use outbox.Core.Batch.{max_reservation_batch_size}
use outbox.Core.Env.{State, ◌>>=◌, pure, Env}

abbrev pub empty_batch : Error
empty_batch = foreign 21

abbrev pub batch_too_large : Error
batch_too_large = foreign 22

abbrev pub empty_key : Error
empty_key = foreign 23

abbrev pub duplicate_key : Error
duplicate_key = foreign 24

abbrev pub wrong_result_count : Error
wrong_result_count = foreign 25

abbrev pub empty_job_id : Error
empty_job_id = foreign 26

abbrev pub capability_of : UniqueBatchPut → JobCapability
capability_of item = record { name = item.name; schema_version = item.schema_version }

abbrev pub or_wrapped : Option Error → Option Error → Option Error
or_wrapped none rest = rest
or_wrapped (some e) rest = some (wrapped e)

-- The loop of `PutVersionedUniqueBatch` over its items; `UTC` changes none of them.
pub check_items : List UniqueBatchPut → Dict Text Bool → Option Error
check_items [] seen = none
check_items (item ∷ items) seen =
    let rest = check_items items (insert item.deduplication_key true seen) in
    if item.deduplication_key == []
    then some empty_key
    else if contains item.deduplication_key seen
    then some duplicate_key
    else or_wrapped (validate_capability (capability_of item)) rest

pub check_batch : List UniqueBatchPut → Option Error
unfolding check_items
check_batch items =
    if length items == 0
    then some empty_batch
    else if ltb max_reservation_batch_size (length items)
    then some batch_too_large
    else check_items items []

-- Its loop over the results.
pub check_results : List UniquePutResult → Option Error
check_results [] = none
check_results (r ∷ rs) =
    let rest = check_results rs in if is_zero r.job_id then some empty_job_id else rest

abbrev pub wrap_err {ℓ} : {A : Type ℓ} → Result A → Result A
wrap_err (err e) = err (wrapped e)
wrap_err (ok a) = ok a

abbrev pub results_unless : Option Error → List UniquePutResult → Result (List UniquePutResult)
results_unless none rs = ok rs
results_unless (some e) rs = err e

-- The end of `PutVersionedUniqueBatch`, on the answer of the repository.
pub accept_results : ℕ → Result (List UniquePutResult) → Result (List UniquePutResult)
unfolding check_results
accept_results count (err e) = err (wrapped e)
accept_results count (ok rs) =
    if length rs == count then results_unless (check_results rs) rs else err wrong_result_count

module _ (env : Env) where
  open env use {World, Ctx, create_job, create_job_unique, create_job_unique_batch}

  abbrev pub unless_invalid :
      {A : Type 0} → Option Error → State World (Result A) → State World (Result A)
  unless_invalid none call = call
  unless_invalid (some e) call = λ w. (err e, w)

  -- `PutVersioned`
  pub put_versioned : Ctx → Text → SchemaVersion → Text → Time → State World (Result JobId)
  put_versioned c name version payload at =
      unless_invalid (validate_capability (record { name = name; schema_version = version }))
        (create_job c name version payload at >>= λ r. pure (wrap_err r))

  -- `Put`
  pub put : Ctx → Text → Text → Time → State World (Result JobId)
  unfolding put_versioned
  put c name payload at = put_versioned c name default_schema_version payload at

  -- `PutVersionedUnique`; the Boolean says that a repository is configured.
  pub put_versioned_unique : Bool → Ctx → UniqueBatchPut → State World (Result UniquePutResult)
  put_versioned_unique configured c item =
      if not configured
      then pure (err (sentinel unique_repository_not_configured))
      else if item.deduplication_key == []
      then pure (err empty_key)
      else unless_invalid (validate_capability (capability_of item))
          (create_job_unique c item >>= λ r. pure (wrap_err r))

  -- `PutVersionedUniqueBatch`
  pub put_versioned_unique_batch :
      Bool → Ctx → List UniqueBatchPut → State World (Result (List UniquePutResult))
  unfolding check_batch accept_results
  put_versioned_unique_batch configured c items =
      if not configured
      then pure (err (sentinel unique_repository_not_configured))
      else unless_invalid (check_batch items)
          (create_job_unique_batch c items >>= λ r. pure (accept_results (length items) r))
