-- ===== src/Sqlite/Leases/Refinement.antt =====
-- The calls of a lease's holder, of backends/sqlite/repositories/jobsrepo/api.go, against their abstract
-- account.
use outbox.Base.{
  ℕ, ◌≡◌, refl, Bool, ◌&&◌, Option, none, some, List, [], ◌∷◌, if◌then◌else◌, ltb, elem, nat_eq,
  inl, inr, ◌∙◌, arith,
}
use outbox.Core.Errors.{Time, Error}
use outbox.Core.Model.{JobId, LeaseToken}
use outbox.Core.Retry.{ok}
use outbox.Core.Batch.Identifiers.{Distinct}
use outbox.Sqlite.Table.{
  Row, to_ms, row_ids, find, is_held, count_where, update_where, delete_where,
}
use outbox.Sqlite.Table.Find.{find-id, find-update, find-delete, if_found, unless_found}
use outbox.Sqlite.Table.Count.{count_each, count_where-each, count_where-cong}
use outbox.Sqlite.Sql.{
  Db, Session, Faults, Fault, fails, unread, left_open, Sql, unless_error, statement, answer,
}
use outbox.Sqlite.Jobs.{
  validate_batch_lease, validate_one, extend_job_leases, release_unstarted_jobs, delete_job,
  reschedule_job, update_jobs, delete_jobs,
}
use outbox.Sqlite.Leases.{
  LeaseCall, extending, releasing, deleting, rescheduling, call_ids, run_call, concerns, effect,
  affect, affect_all, IsView, Refines,
}

module _ (token : LeaseToken) (ms : ℕ) (call : LeaseCall) where
  answer-Refines :
      (fault : Option Fault) (count : Db → ℕ) (after : Db → Db) (s : Session)
      → IsView (affect_all token ms call (λ id. find id s.db.jobs)) (after s.db)
      → count s.db ≡ count_each (call_ids call) (concerns token ms call) s.db.jobs
      → Refines token ms call s.db (answer fault (λ db. (ok (count db), after db)) s)
  answer-Refines none count after s v c = (v, c)
  answer-Refines (some (fails e)) count after s v c = inl (λ id. refl)
  answer-Refines (some (unread e)) count after s v c = inr v
  answer-Refines (some (left_open e)) count after s v c = inl (λ id. refl)

  unless_error-Refines :
      (e : Option Error) (m : Sql ℕ) (s : Session)
      → Refines token ms call s.db (m s)
      → Refines token ms call s.db (unless_error e m s)
  unless_error-Refines none m s h = h
  unless_error-Refines (some e) m s h = inl (λ id. refl)

  abbrev listed_concern : Row → Bool
  listed_concern r = elem r.id (call_ids call) && concerns token ms call r

  count-concern :
      (p : Row → Bool) (rows : List Row)
      → ((r : Row) → p r ≡ listed_concern r)
      → Distinct (call_ids call)
      → Distinct (row_ids rows)
      → count_where p rows ≡ count_each (call_ids call) (concerns token ms call) rows
  count-concern p rows same ids d =
      count_where-cong p listed_concern rows same
      ∙ count_where-each (call_ids call) (concerns token ms call) rows ids d

  update-IsView :
      (p : Row → Bool) (f : Row → Row) (rows : List Row) (id : JobId)
      → ((r : Row) → p r ≡ listed_concern r)
      → ((r : Row) → effect call r ≡ some (f r))
      → ((r : Row) → (f r).id ≡ r.id)
      → find id (update_where p f rows) ≡ affect_all token ms call (λ j. find j rows) id
  update-IsView p f rows id same does keeps =
      find-update p f id rows keeps ∙ go (find id rows) (find-id id rows)
    where
      go :
          (o : Option Row)
          → ((r : Row) → o ≡ some r → r.id ≡ id)
          → if_found o p f ≡ (if elem id (call_ids call) then affect token ms call o else o)
      go none h = ground arith
      go (some r) h = ground (arith, same r, does r, h r refl)

  delete-IsView :
      (p : Row → Bool) (rows : List Row) (id : JobId)
      → Distinct (row_ids rows)
      → ((r : Row) → p r ≡ listed_concern r)
      → ((r : Row) → effect call r ≡ none)
      → find id (delete_where p rows) ≡ affect_all token ms call (λ j. find j rows) id
  delete-IsView p rows id d same does =
      find-delete p id rows d ∙ go (find id rows) (find-id id rows)
    where
      go :
          (o : Option Row)
          → ((r : Row) → o ≡ some r → r.id ≡ id)
          → unless_found o p ≡ (if elem id (call_ids call) then affect token ms call o else o)
      go none h = ground arith
      go (some r) h = ground (arith, same r, does r, h r refl)

  module _ (faults : Faults) (e : Option Error) (p : Row → Bool) (s : Session)
      (same : (r : Row) → p r ≡ listed_concern r) (i : Distinct (call_ids call))
      (d : Distinct (row_ids s.db.jobs)) where
    update-Refines :
        (f : Row → Row)
        → ((r : Row) → effect call r ≡ some (f r))
        → ((r : Row) → (f r).id ≡ r.id)
        → Refines token ms call s.db (unless_error e (statement faults (update_jobs p f)) s)
    update-Refines f does keeps = unless_error-Refines e (statement faults (update_jobs p f)) s (
        answer-Refines (faults s.calls) (λ db. count_where p db.jobs)
          (λ db. record db { jobs = update_where p f db.jobs }) s
          (λ id. update-IsView p f s.db.jobs id same does keeps)
          (count-concern p s.db.jobs same i d))

    delete-Refines :
        ((r : Row) → effect call r ≡ none)
        → Refines token ms call s.db (unless_error e (statement faults (delete_jobs p)) s)
    delete-Refines does = unless_error-Refines e (statement faults (delete_jobs p)) s (
        answer-Refines (faults s.calls) (λ db. count_where p db.jobs)
          (λ db. record db { jobs = delete_where p db.jobs }) s
          (λ id. delete-IsView p s.db.jobs id d same does) (count-concern p s.db.jobs same i d))

module _ (faults : Faults) (token : LeaseToken) (now : Time) where
  -- For distinct identifiers, on a table without repeated ones, and whatever calls of the engine fail: each of
  -- the four calls does to the map of rows what the abstract call does, and counts the rows that it concerns;
  -- with an error it has done that, or nothing.
  pub run_call-Refines :
      (call : LeaseCall) (s : Session)
      → Distinct (call_ids call)
      → Distinct (row_ids s.db.jobs)
      → Refines token (to_ms now) call s.db (run_call faults token now call s)
  unfolding extend_job_leases release_unstarted_jobs delete_job reschedule_job
  run_call-Refines (extending ids until) s i d =
      update-Refines token (to_ms now) (extending ids until) faults (validate_batch_lease ids token)
        (is_held ids token (to_ms now)) s (λ r. ground arith) i d _ (λ r. refl) (λ r. refl)
  run_call-Refines (releasing ids) s i d =
      update-Refines token (to_ms now) (releasing ids) faults (validate_batch_lease ids token)
        (λ r. is_held ids token (to_ms now) r && ltb 0 r.attempts) s (λ r. ground arith) i d _
        (λ r. refl) (λ r. refl)
  run_call-Refines (deleting id) s i d =
      delete-Refines token (to_ms now) (deleting id) faults (validate_one faults id token)
        (is_held (id ∷ []) token (to_ms now)) s (λ r. ground arith) i d (λ r. refl)
  run_call-Refines (rescheduling id available) s i d =
      update-Refines token (to_ms now) (rescheduling id available) faults
        (validate_one faults id token) (is_held (id ∷ []) token (to_ms now)) s (λ r. ground arith) i
        d _ (λ r. refl) (λ r. refl)
