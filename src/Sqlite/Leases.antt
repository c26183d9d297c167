-- ===== src/Sqlite/Leases.antt =====
-- The calls that a lease's holder makes on its rows, of backends/sqlite/repositories/jobsrepo/api.go, and
-- an abstract account of them: a map from identifiers to rows, which forgets the order of the table.
pub mod Refinement
use outbox.Base.{
  ℕ, ◌-◌, ◌≡◌, refl, Bool, true, false, ◌&&◌, Option, none, some, List, [], ◌∷◌, if◌then◌else◌, ltb,
  nat_beq, elem, nat_eq, ◌⊎◌, inl, inr, ◌∙◌, sym, ap, arith, Bool-cases, nat_beq_iff,
}
use outbox.Core.Errors.{Time, Error}
use outbox.Core.Model.{JobId, LeaseToken}
use outbox.Core.Retry.{Result, ok, err}
use outbox.Core.Batch.Identifiers.{Distinct}
use outbox.Sqlite.Table.{
  Row, to_ms, later_than, row_ids, find, is_held, count_where, update_where, delete_where,
}
use outbox.Sqlite.Table.Find.{find-id, find-update, find-delete, if_found, unless_found}
use outbox.Sqlite.Table.Count.{count_each, count_where-each, count_where-cong}
use outbox.Sqlite.Sql.{
  Db, Session, Faults, Fault, fails, unread, Sql, unless_error, statement, answer,
}
use outbox.Sqlite.Jobs.{
  extend_job_leases, release_unstarted_jobs, delete_job, reschedule_job, update_jobs, delete_jobs,
}

pub data LeaseCall : Type 0 where
  extending : List JobId → Time → LeaseCall
  releasing : List JobId → LeaseCall
  deleting : JobId → LeaseCall
  rescheduling : JobId → Time → LeaseCall

abbrev pub call_ids : LeaseCall → List JobId
call_ids (extending ids until) = ids
call_ids (releasing ids) = ids
call_ids (deleting id) = id ∷ []
call_ids (rescheduling id available) = id ∷ []

abbrev pub run_call : Faults → LeaseToken → Time → LeaseCall → Sql ℕ
run_call faults token now (extending ids until) = extend_job_leases faults ids token now until
run_call faults token now (releasing ids) = release_unstarted_jobs faults ids token now
run_call faults token now (deleting id) = delete_job faults id token now
run_call faults token now (rescheduling id available) = reschedule_job faults id token now available

-- The rows a call is for: held under the token at the time, and, for a release, with an attempt to give back.
abbrev pub concerns : LeaseToken → ℕ → LeaseCall → Row → Bool
concerns token ms (extending ids until) r =
    nat_beq r.lease_token token && later_than ms r.reserved_at
concerns token ms (releasing ids) r =
    nat_beq r.lease_token token && later_than ms r.reserved_at && ltb 0 r.attempts
concerns token ms (deleting id) r = nat_beq r.lease_token token && later_than ms r.reserved_at
concerns token ms (rescheduling id available) r =
    nat_beq r.lease_token token && later_than ms r.reserved_at

abbrev pub effect : LeaseCall → Row → Option Row
effect (extending ids until) r = some (record r { reserved_at = some (to_ms until) })
effect (releasing ids) r =
    some (record r { attempts = r.attempts - 1; reserved_at = none; lease_token = 0 })
effect (deleting id) r = none
effect (rescheduling id available) r =
    some (record r { available_at = to_ms available; reserved_at = none; lease_token = 0 })

abbrev pub affect : LeaseToken → ℕ → LeaseCall → Option Row → Option Row
affect token ms call none = none
affect token ms call (some r) = if concerns token ms call r then effect call r else some r

abbrev pub RowMap : Type 0
RowMap = JobId → Option Row

-- The abstract call: the listed identifiers' rows, and no others.
abbrev pub affect_all : LeaseToken → ℕ → LeaseCall → RowMap → RowMap
affect_all token ms call m id =
    if elem id (call_ids call) then affect token ms call (m id) else m id

abbrev pub IsView : RowMap → Db → Type 0
IsView m db = (id : JobId) → find id db.jobs ≡ m id

-- A call's result against the abstract call.
abbrev pub Refines : LeaseToken → ℕ → LeaseCall → Db → Result ℕ × Session → Type 0
Refines token ms call db (ok n, s) =
    IsView (affect_all token ms call (λ id. find id db.jobs)) s.db
    × (n ≡ count_each (call_ids call) (concerns token ms call) db.jobs)
Refines token ms call db (err e, s) =
    IsView (λ id. find id db.jobs) s.db
    ⊎ IsView (affect_all token ms call (λ id. find id db.jobs)) s.db
