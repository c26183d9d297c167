-- ===== src/Core/Lease.antt =====
-- `batchLeaseManager` of outbox/service_batch.go: the ledger of the leases that a worker holds. Each
-- function is one critical section under the manager's mutex; the heartbeat's sections and the
-- worker's come in any order (`Steps`).
pub mod Deadlines
pub mod Invariant
pub mod Extension
pub mod Admission
pub mod Finalization
pub mod Dropping
pub mod Steps
pub mod Interleavings
use outbox.Base.{
  ℕ, zero, suc, ◌+◌, ◌*◌, ◌/◌, ◌≡◌, Bool, true, false, not, Option, none, some, List, [], ◌∷◌, ◌++◌,
  ◌==◌, nat_eq, nat_beq, ltb, if◌then◌else◌, length, ◌||◌, ◌&&◌,
}
use outbox.Base.Dict.{Dict, lookup, contains, insert, erase}
use outbox.Core.Errors.{Time, Error, sentinel, wrapped, joined, lease_lost, service_draining}
use outbox.Core.Retry.{Result, ok, err}
use outbox.Core.Model.{JobId, LeaseToken, Job}
use outbox.Core.Env.{State, ◌>>=◌, ◌>>◌, pure, Env}
use outbox.Core.Claim.{lost, validate_claimed_job_lease}

-- The fields that the ledger's functions read and write; `error` is the heartbeat's.
pub record Ledger : Type 0 where
  pub lease_token : LeaseToken
  pub reserve_for : ℕ
  pub ordered_ids : List JobId
  pub outstanding : Dict JobId Time
  pub earliest_until : Time
  pub error : Option Error

-- The ledger beside the world that the code runs in.
pub record Held (W : Type 0) : Type 0 where
  pub ledger : Ledger
  pub world : W

-- 5 seconds and 1 second
abbrev pub lease_finalization_timeout : ℕ
lease_finalization_timeout = 5000000000

abbrev pub batch_finalization_margin : ℕ
batch_finalization_margin = 1000000000

-- The smaller of two deadlines, where the zero time stands for none yet.
abbrev pub earlier : Time → Time → Time
earlier earliest until = if nat_beq earliest 0 || ltb until earliest then until else earliest

-- The minimum over the map, as `recomputeEarliestLocked` and `checkLeasesLocked` take it.
unfoldable pub earliest_of : Dict JobId Time → Time → Time
earliest_of [] earliest = earliest
earliest_of ((id, until) ∷ rest) earliest = earliest_of rest (earlier earliest until)

unfoldable pub recompute_earliest : Ledger → Ledger
unfolding earliest_of
recompute_earliest l = record l { earliest_until = earliest_of l.outstanding 0 }

-- A row of the map whose lease does not end after `now`.
pub any_expired : Dict JobId Time → Time → Bool
any_expired [] now = false
any_expired ((id, until) ∷ rest) now = not (ltb now until) || any_expired rest now

-- `earliestUntil = time.Time{}` once nothing is outstanding
unfoldable pub reset_if_empty : Ledger → Ledger
reset_if_empty l = if length l.outstanding == 0 then record l { earliest_until = 0 } else l

-- The loop of `ensureLeasesLocked` over `orderedIDs`: the rows to extend.
unfoldable pub due_ids : List JobId → Dict JobId Time → Time → List JobId
due_ids [] d required = []
due_ids (id ∷ ids) d required = elim (lookup id d) [
  | none ↦ due_ids ids d required
  | some until ↦ let rest = due_ids ids d required in if ltb until required then id ∷ rest else rest
]

-- The earliest deadline that the same loop finds.
unfoldable pub earliest_over : List JobId → Dict JobId Time → Time → Time
earliest_over [] d earliest = earliest
earliest_over (id ∷ ids) d earliest = elim (lookup id d) [
  | none ↦ earliest_over ids d earliest
  | some until ↦ earliest_over ids d (earlier earliest until)
]

-- `for _, jobID := range jobIDs { m.outstanding[jobID] = until }`
unfoldable pub set_all : List JobId → Time → Dict JobId Time → Dict JobId Time
set_all [] until d = d
set_all (id ∷ ids) until d = set_all ids until (insert id until d)

-- `until.Truncate(time.Millisecond).Add(time.Millisecond)`; Go truncates since the zero time.
abbrev pub next_millisecond : Time → Time
next_millisecond t = t / 1000000 * 1000000 + 1000000

-- `outstandingIDsLocked`
pub outstanding_ids : List JobId → Dict JobId Time → List JobId
outstanding_ids [] d = []
outstanding_ids (id ∷ ids) d =
    let rest = outstanding_ids ids d in if contains id d then id ∷ rest else rest

-- The ledger part of `newBatchLeaseManager` and of `add`: one more claimed row.
unfoldable pub take_row : Ledger → Job → Ledger
take_row l job = record l {
  ordered_ids = l.ordered_ids ++ job.id ∷ [];
  outstanding = insert job.id job.reserved_at.time l.outstanding;
  earliest_until = earlier l.earliest_until job.reserved_at.time;
}

unfoldable pub take_rows : Ledger → List Job → Ledger
take_rows l [] = l
take_rows l (job ∷ jobs) = take_rows (take_row l job) jobs

unfoldable pub new_ledger : List Job → LeaseToken → ℕ → Ledger
unfolding take_rows take_row
new_ledger jobs token reserve_for =
    take_rows
      (record {
        lease_token = token;
        reserve_for = reserve_for;
        ordered_ids = [];
        outstanding = [];
        earliest_until = 0;
        error = none;
      })
      jobs

abbrev pub unless : ℕ → Option Error → Result ℕ
unless n none = ok n
unless n (some e) = err e

abbrev pub record_extension : List JobId → Time → Ledger → Ledger
record_extension due until l =
    recompute_earliest (record l { outstanding = set_all due until l.outstanding })

abbrev pub at_least : Time → Time → Time
at_least target required = if ltb target required then required else target

abbrev pub drain_error : Bool → Option Error
drain_error true = some (sentinel service_draining)
drain_error false = none

abbrev pub drop_row : JobId → Ledger → Ledger
drop_row id l = reset_if_empty (record l { outstanding = erase id l.outstanding })

abbrev pub drop_all : Ledger → Ledger
drop_all l = record l { outstanding = []; earliest_until = 0 }

module _ (env : Env) where
  open env use {
    World, Ctx, now, cause, with_deadline, without_cancel, cancel_batch, draining, lock_context,
    extend_job_leases, release_unstarted_jobs,
  }

  abbrev pub Action : Type 0 → Type 0
  Action A = State (Held World) A

  -- A call of the outside world.
  abbrev pub outside : {A : Type 0} → State World A → Action A
  outside m s = let (a, w) = m s.world in (a, record s { world = w })

  abbrev pub update : (Ledger → Ledger) → Action (Option Error)
  update f s = (none, record s { ledger = f s.ledger })

  -- `failLeaseLocked`
  pub fail_lease : Error → Action (Option Error)
  fail_lease e s = (
    some e,
    record s { ledger = record (s.ledger) { error = some e }; world = cancel_batch e s.world },
  )

  -- `checkLeasesLocked`
  unfoldable pub check_leases : Time → Action (Option Error)
  unfolding any_expired
  check_leases t s =
      if ltb t s.ledger.earliest_until
      then (none, s)
      else if any_expired s.ledger.outstanding t
      then fail_lease lost s
      else update recompute_earliest s

  -- The extension's context must still be live once the repository has returned.
  abbrev pub confirm : Ctx → Result ℕ → Action (Result ℕ)
  confirm c (err e) = pure (err e)
  confirm c (ok n) = outside (cause c) >>= λ e. pure (unless n e)

  -- The end of `ensureLeasesLocked`, on the answer of the repository.
  unfoldable pub finish_extension : List JobId → Time → Result ℕ → Action (Option Error)
  finish_extension due until (err e) = fail_lease (joined (sentinel lease_lost) (wrapped e))
  finish_extension due until (ok n) =
      if n == length due
      then (update (record_extension due until) >> (outside now >>= check_leases))
      else fail_lease lost

  -- `ensureLeasesLocked` from the loop on; `t` is its first clock reading.
  unfoldable pub extend_rows : Ctx → Time → List JobId → Time → Time → Action (Option Error)
  extend_rows c t due earliest until s =
      (outside (extend_job_leases (with_deadline c earliest) due s.ledger.lease_token t until)
          >>= confirm (with_deadline c earliest)
          >>= finish_extension due until)
        s

  unfoldable pub extend_short : Ctx → Time → Time → Time → Action (Option Error)
  extend_short c t required target s =
      if not (ltb s.ledger.earliest_until required)
      then (none, s)
      else (let due = due_ids s.ledger.ordered_ids s.ledger.outstanding required in
          let earliest = earliest_over s.ledger.ordered_ids s.ledger.outstanding 0 in
          let s' = record s { ledger = record (s.ledger) { earliest_until = earliest } } in
          if length due == 0
          then (none, s')
          else extend_rows c t due earliest (next_millisecond (at_least target required)) s')

  -- `ensureLeasesLocked`
  unfoldable pub ensure_leases : Ctx → Time → Time → Action (Option Error)
  ensure_leases c required target =
      outside now >>= λ t. check_leases t >> extend_short c t required target

  -- `extend`, the heartbeat's section
  pub extend : Ctx → Action (Option Error)
  extend c s =
      (outside now >>= λ t. ensure_leases c (t + s.ledger.reserve_for) (t + s.ledger.reserve_for)) s

  -- `batchStartError`
  unfoldable pub batch_start_error : Ctx → Action (Option Error)
  batch_start_error c = outside (cause c) >> (outside draining >>= λ d. pure (drain_error d))

  unfoldable pub top_up : Ctx → Time → Action (Option Error)
  top_up c t s =
      if ltb s.ledger.earliest_until (t + s.ledger.reserve_for / 3)
      then ensure_leases c (t + s.ledger.reserve_for) (t + s.ledger.reserve_for) s
      else (none, s)

  abbrev pub require_outstanding : Action (Option Error)
  require_outstanding s =
      if length s.ledger.outstanding == 0 then (some (sentinel lease_lost), s) else (none, s)

  -- `admit`
  unfoldable pub admit : Ctx → Action (Option Error)
  admit c =
      batch_start_error c
      >> (require_outstanding
          >> ((outside now >>= λ t. check_leases t >> top_up c t) >> batch_start_error c))

  -- Waiting for the lock under a deadline; a failure cancels the batch.
  abbrev pub cancel_on : Option Error → Action (Option Error)
  cancel_on none s = (none, s)
  cancel_on (some e) s = (some e, record s { world = cancel_batch e s.world })

  abbrev pub locked : Ctx → Action (Option Error)
  locked c = outside (lock_context c) >>= cancel_on

  abbrev pub require_row : JobId → Action (Option Error)
  require_row id s =
      if contains id s.ledger.outstanding then (none, s) else (some (sentinel lease_lost), s)

  -- `finalize` up to the call of its callback
  abbrev pub prepare_row : Ctx → Time → JobId → Action (Option Error)
  prepare_row c deadline id s =
      (locked c
          >> (require_row id
              >> (ensure_leases c (deadline + batch_finalization_margin)
                    (deadline + batch_finalization_margin + s.ledger.reserve_for)
                  >> outside (cause c))))
        s

  -- `finalize`: the callback runs with every lease covering its deadline.
  unfoldable pub finalize : Ctx → JobId → (Ctx → State World (Option Error)) → Action (Option Error)
  finalize c id f = outside now >>= λ t.
      let c' = with_deadline (without_cancel c) (t + lease_finalization_timeout) in
      prepare_row c' (t + lease_finalization_timeout) id >> (outside (f c') >> update (drop_row id))

  -- `finalizeAll` up to the call of its callback
  abbrev pub prepare_all : Ctx → Time → Action (Option Error)
  prepare_all c until =
      locked c >> (require_outstanding >> (ensure_leases c until until >> outside (cause c)))

  -- `finalizeAll`
  pub finalize_all : Ctx → Time → State World (Option Error) → Action (Option Error)
  finalize_all c until f = prepare_all c until >> (outside f >> update drop_all)

  abbrev pub add_row : Job → Time → Action (Option Error)
  add_row job t s =
      (pure (validate_claimed_job_lease job s.ledger.lease_token t)
          >> (if contains job.id s.ledger.outstanding
              then pure (some lost)
              else update (λ l. take_row l job)))
        s

  -- `add`: the rows before a refused one stay.
  pub add : List Job → Action (Option Error)
  unfolding take_row
  add [] = pure none
  add (job ∷ jobs) = let rest = add jobs in (outside now >>= add_row job) >> rest

  -- `forget` and `forgetAll`
  pub forget : JobId → Action (Option Error)
  forget id = update (drop_row id)

  pub forget_all : Action (Option Error)
  forget_all = update drop_all

  abbrev pub released : ℕ → Result ℕ → Action (Option Error)
  released count (err e) = pure (some (wrapped e))
  released count (ok n) = if n == count then update drop_all else pure (some lost)

  pub release_call : Ctx → List JobId → Action (Result ℕ)
  release_call c ids s =
      (outside now >>= λ t. outside now >>= λ t'. outside (
          release_unstarted_jobs (with_deadline (without_cancel c) (t + lease_finalization_timeout))
            ids s.ledger.lease_token t'))
        s

  -- `releaseUnstarted`
  pub release_unstarted : Ctx → Action (Option Error)
  unfolding release_call
  release_unstarted c s =
      let ids = outstanding_ids s.ledger.ordered_ids s.ledger.outstanding in
      if length ids == 0 then (none, s) else (release_call c ids >>= released (length ids)) s
