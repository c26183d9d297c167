-- ===== src/Core/Batch.antt =====
-- outbox/batch.go: the limits of a batch, its items and results, and the check of a result.
pub mod Identifiers
pub mod Config
pub mod Results
pub mod Placement
pub mod Validation
use outbox.Base.{
  ℕ, zero, suc, ◌+◌, ◌≡◌, Bool, true, false, not, ◌&&◌, Option, none, some, List, [], ◌∷◌, ◌||◌,
  map, if◌then◌else◌, ltb, Text, length, set, replicate, ◌==◌, nat_eq, arith,
}
use outbox.Base.Int.{ℤ, pos, pos_part, ltb_ℤ, int_beq}
use outbox.Base.Dict.{Dict, lookup, contains, insert}
use outbox.Core.Errors.{Time, Error, Reason, sentinel, wrapped, foreign, invalid_batch_result}
use outbox.Core.Retry.{Result, ok, err, Duration}
use outbox.Core.Model.{JobId, is_zero}

pub record BatchConfig : Type 0 where
  pub max_messages : ℤ
  pub max_bytes : ℤ
  pub max_wait : Duration

-- No field is negative: `normalize` refuses the configurations where one is.
pub record NormalizedBatchConfig : Type 0 where
  pub max_messages : ℕ
  pub max_bytes : ℕ
  pub max_wait : ℕ

abbrev pub default_batch_max_messages : ℕ
default_batch_max_messages = 100

-- 4 << 20
abbrev pub default_batch_max_bytes : ℕ
default_batch_max_bytes = 4194304

-- 25 milliseconds
abbrev pub default_batch_max_wait : ℕ
default_batch_max_wait = 25000000

abbrev pub max_reservation_batch_size : ℕ
max_reservation_batch_size = 1000

-- math.MaxInt32
abbrev pub max_int32 : ℕ
max_int32 = 2147483647

abbrev pub negative_limits : Error
negative_limits = foreign 1

abbrev pub too_many_messages : Error
too_many_messages = foreign 2

abbrev pub too_many_bytes : Error
too_many_bytes = foreign 3

abbrev pub default_if_zero : ℤ → ℕ → ℕ
default_if_zero a d = if int_beq a (pos 0) then d else pos_part a

abbrev pub with_defaults : BatchConfig → NormalizedBatchConfig
with_defaults c = record {
  max_messages = default_if_zero c.max_messages default_batch_max_messages;
  max_bytes = default_if_zero c.max_bytes default_batch_max_bytes;
  max_wait = default_if_zero c.max_wait default_batch_max_wait;
}

-- `BatchConfig.normalize`
unfoldable pub normalize_config : BatchConfig → Result NormalizedBatchConfig
normalize_config c =
    if ltb_ℤ c.max_messages (pos 0) || ltb_ℤ c.max_bytes (pos 0) || ltb_ℤ c.max_wait (pos 0)
    then err negative_limits
    else if ltb max_reservation_batch_size (with_defaults c).max_messages
    then err too_many_messages
    else if ltb max_int32 (with_defaults c).max_bytes
    then err too_many_bytes
    else ok (with_defaults c)

abbrev exported : Result NormalizedBatchConfig → Result BatchConfig
exported (err e) = err e
exported (ok n) = ok (record {
  max_messages = pos n.max_messages;
  max_bytes = pos n.max_bytes;
  max_wait = pos n.max_wait;
})

-- `BatchConfig.Normalize`
unfoldable pub normalize : BatchConfig → Result BatchConfig
unfolding normalize_config
normalize c = exported (normalize_config c)

pub record BatchJobItem : Type 0 where
  pub job_id : JobId
  pub payload : Text
  pub attempt : ℤ

-- `none` is a nil `Err`.
pub record BatchItemResult : Type 0 where
  pub job_id : JobId
  pub error : Option Error

abbrev pub BatchResult : Type 0
BatchResult = List BatchItemResult

-- `BatchJobOutcomeKind`, each kind with the fields of `BatchJobOutcome` that it uses; the others
-- are zero.
pub data Outcome : Type 0 where
  success : Outcome
  retry : Time → Outcome
  defer : Time → Outcome
  dlq : Reason → Outcome

pub record BatchJobOutcome : Type 0 where
  pub job_id : JobId
  pub kind : Outcome

abbrev pub invalid_result : Error
invalid_result = wrapped (sentinel invalid_batch_result)

-- The first loop of `validateBatchResult`, from item `index` on: the position of each input.
pub index_inputs : List BatchJobItem → ℕ → Dict JobId ℕ → Result (Dict JobId ℕ)
index_inputs [] index positions = ok positions
index_inputs (item ∷ items) index positions =
    let rest = index_inputs items (index + 1) (insert item.job_id index positions) in
    if is_zero item.job_id
    then err invalid_result
    else if contains item.job_id positions
    then err invalid_result
    else rest

-- Its second loop, over the results: `seen` are the identifiers met so far.
pub place_results :
    Dict JobId ℕ
    → BatchResult
    → Dict JobId Bool
    → List (Option Error)
    → Result (List (Option Error))
place_results positions [] seen errs = ok errs
place_results positions (item ∷ items) seen errs = elim (lookup item.job_id positions) [
  | none ↦ err invalid_result
  | some position ↦
      let rest =
        place_results positions items (insert item.job_id true seen)
          (set errs position item.error) in
      if contains item.job_id seen then err invalid_result else rest
]

abbrev place :
    List BatchJobItem → BatchResult → Result (Dict JobId ℕ) → Result (List (Option Error))
place input result (err e) = err e
place input result (ok positions) =
    place_results positions result [] (replicate (length input) none)

pub validate_batch_result : List BatchJobItem → BatchResult → Result (List (Option Error))
validate_batch_result input result =
    if length result == length input
    then place input result (index_inputs input 0 [])
    else err invalid_result
