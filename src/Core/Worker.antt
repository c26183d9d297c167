-- ===== src/Core/Worker.antt =====
-- How a worker shares its turns: `processOneAvailableBatch` of outbox/service_execution_batch.go and
-- `processWorkerWork` of outbox/service.go. What a turn does is an argument: `process` is
-- `findAndProcessExecutionBatch`, `paused` is `batchCapabilityPaused` at the current time and
-- `single` is `findAndProcessBatch`, each on the state of the service and the outside world.
pub mod Fairness
use outbox.Base.{
  ℕ, zero, suc, ◌+◌, ◌%◌, ◌||◌, Bool, true, false, not, Option, none, some, List, [], ◌∷◌,
  if◌then◌else◌, length, get_elem?, ◌==◌, nat_eq, is_some,
}
use outbox.Core.Errors.{Error, errors_is, no_jobs, service_draining}
use outbox.Core.Model.{JobCapability}
use outbox.Core.Env.{State, pure}

-- The Go results `(bool, error)`
abbrev pub Work : Type 0
Work = Bool × Option Error

abbrev pub is_error : Option Error → (Error → Bool) → Bool
is_error none test = false
is_error (some e) test = test e

-- `workerSchedule`
pub record WorkerSchedule : Type 0 where
  pub batch_cursor : ℕ
  pub prefer_batch : Bool

module _ {S : Type 0} (paused : JobCapability → State S Bool)
    (process : JobCapability → State S Work) where
  abbrev pub settle : ℕ → ℕ → ℕ → State S (Work × ℕ) → Work → State S (Work × ℕ)
  settle index cursor n rest (true, e) = pure ((true, e), (index + 1) % n)
  settle index cursor n rest (false, some e) = pure ((false, some e), cursor)
  settle index cursor n rest (false, none) = rest

  -- One round of the loop; the index is in range, so that `none` does not come up.
  abbrev pub attempt : Option JobCapability → ℕ → ℕ → ℕ → State S (Work × ℕ) → State S (Work × ℕ)
  attempt none index cursor n rest s = (((false, none), cursor), s)
  attempt (some c) index cursor n rest s =
      let (p, s') = paused c s in
      if p then rest s' else (let (work, s'') = process c s' in settle index cursor n rest work s'')

  -- The loop of `processOneAvailableBatch` from an offset on.
  pub visit : List JobCapability → ℕ → ℕ → ℕ → ℕ → State S (Work × ℕ)
  visit caps start cursor offset zero s = (((false, none), cursor), s)
  visit caps start cursor offset (suc left) s =
      let rest = visit caps start cursor (offset + 1) left in
      let index = (start + offset) % length caps in
      attempt (get_elem? caps index) index cursor (length caps) rest s

  -- `processOneAvailableBatch`; the cursor comes back beside the results.
  pub process_one_available_batch : List JobCapability → ℕ → State S (Work × ℕ)
  unfolding visit
  process_one_available_batch caps cursor s =
      if length caps == 0
      then (((false, none), cursor), s)
      else visit caps (cursor % length caps) cursor 0 (length caps) s

-- `processOneAvailableSingle`, on the count of capabilities
abbrev pub single_work : Option Error → Work
single_work none = (true, none)
single_work (some e) =
    if errors_is e no_jobs || errors_is e service_draining then (false, none) else (false, some e)

pub process_one_available_single :
    {S : Type 0} → State S (Option Error) → List JobCapability → State S Work
process_one_available_single single caps s =
    if length caps == 0 then ((false, none), s) else (let (e, s') = single s in (single_work e, s'))

abbrev pub draining_error : Option Error → Bool
draining_error e = is_error e (λ f. errors_is f service_draining)

module _ {S : Type 0} (batch : ℕ → State S (Work × ℕ)) (single : State S Work) where
  -- The batch turn at the end of `processWorkerWork`.
  pub batch_last : WorkerSchedule → State S (Work × WorkerSchedule)
  batch_last schedule s =
      let (((did, e), cursor), s') = batch schedule.batch_cursor s in
      let schedule' = record schedule { batch_cursor = cursor } in
      if draining_error e
      then (((false, none), schedule'), s')
      else if did
      then (((did, e), record schedule' { prefer_batch = false }), s')
      else (((did, e), schedule'), s')

  -- From the single turn on.
  pub single_then_batch : WorkerSchedule → State S (Work × WorkerSchedule)
  unfolding batch_last
  single_then_batch schedule s =
      let ((did, e), s') = single s in
      if did
      then (((did, e), record schedule { prefer_batch = true }), s')
      else if is_some e
      then (((did, e), schedule), s')
      else if schedule.prefer_batch
      then (((false, none), schedule), s')
      else batch_last schedule s'

  -- `processWorkerWork`
  pub process_worker_work : WorkerSchedule → State S (Work × WorkerSchedule)
  unfolding single_then_batch
  process_worker_work schedule s =
      if schedule.prefer_batch
      then (let (((did, e), cursor), s') = batch schedule.batch_cursor s in
          let schedule' = record schedule { batch_cursor = cursor } in
          if draining_error e
          then (((false, none), schedule'), s')
          else if did
          then (((did, e), record schedule' { prefer_batch = false }), s')
          else if is_some e
          then (((did, e), schedule'), s')
          else single_then_batch schedule' s')
      else single_then_batch schedule s
