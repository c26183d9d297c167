-- ===== src/Sqlite/Integrity/Endings.antt =====
-- The calls under a lease and the outcomes of a batch, in backends/sqlite/repositories/jobsrepo/api.go, with the
-- tables sound.
use outbox.Base.{
  nat_beq, length, ltb, ◌&&◌, ◌+◌, nat_eq, text_eq, ◌≡◌, refl, Bool, List, [], ◌∷◌, Option, none,
  some,
}
use outbox.Core.Errors.{Error, Time}
use outbox.Core.Model.{LeaseToken}
use outbox.Core.Batch.{Outcome, success, retry, defer, dlq, BatchJobOutcome}
use outbox.Sqlite.Table.{Row, to_ms, is_held}
use outbox.Sqlite.Sql.{unless_error, unless_error, Faults, statement}
use outbox.Sqlite.Sql.Preservation.{
  Preserves, bind-Preserves, unless_error-Preserves, if-Preserves, statement-Preserves,
  run_in_tx-Preserves,
}
use outbox.Sqlite.Jobs.{
  validate_batch_lease, validate_one, extend_job_leases, release_unstarted_jobs, delete_job,
  reschedule_job, update_jobs, delete_jobs,
}
use outbox.Sqlite.Outcomes.{
  validate_batch_outcomes, apply_batch_job_outcomes, apply_all_outcomes, is_ended, is_pended, pend,
  input_of,
}
use outbox.Sqlite.Leases.{LeaseCall, extending, releasing, deleting, rescheduling, run_call}
use outbox.Sqlite.Integrity.{IsSound}
use outbox.Sqlite.Integrity.Tables.{update_jobs-IsSound, delete_jobs-IsSound}

module _ (faults : Faults) where
  update-IsSound :
      (e : Option Error) (p : Row → Bool) (f : Row → Row)
      → ((r : Row) → (f r).id ≡ r.id)
      → ((r : Row) → (f r).deduplication_key ≡ r.deduplication_key)
      → Preserves IsSound (unless_error e (statement faults (update_jobs p f)))
  update-IsSound e p f same key =
      unless_error-Preserves IsSound e (statement faults (update_jobs p f)) (
        statement-Preserves IsSound faults (update_jobs p f)
          (λ db i. update_jobs-IsSound p f db same key i))

  pub lease_call-IsSound :
      (token : LeaseToken) (now : Time) (c : LeaseCall)
      → Preserves IsSound (run_call faults token now c)
  unfolding extend_job_leases release_unstarted_jobs delete_job reschedule_job
  lease_call-IsSound token now (extending ids until) =
      update-IsSound (validate_batch_lease ids token) (is_held ids token (to_ms now)) _ (λ r. refl)
        (λ r. refl)
  lease_call-IsSound token now (releasing ids) =
      update-IsSound (validate_batch_lease ids token)
        (λ r. is_held ids token (to_ms now) r && ltb 0 r.attempts) _ (λ r. refl) (λ r. refl)
  lease_call-IsSound token now (deleting id) =
      unless_error-Preserves IsSound (validate_one faults id token)
        (statement faults (delete_jobs (is_held (id ∷ []) token (to_ms now))))
        (statement-Preserves IsSound faults (delete_jobs (is_held (id ∷ []) token (to_ms now)))
          (delete_jobs-IsSound (is_held (id ∷ []) token (to_ms now))))
  lease_call-IsSound token now (rescheduling id available) =
      update-IsSound (validate_one faults id token) (is_held (id ∷ []) token (to_ms now)) _
        (λ r. refl) (λ r. refl)

  pend-id : (o : Option Outcome) (r : Row) → (pend o r).id ≡ r.id
  pend-id none r = refl
  pend-id (some success) r = refl
  pend-id (some (retry at)) r = refl
  pend-id (some (defer at)) r = refl
  pend-id (some (dlq reason)) r = refl

  pend-key : (o : Option Outcome) (r : Row) → (pend o r).deduplication_key ≡ r.deduplication_key
  pend-key none r = refl
  pend-key (some success) r = refl
  pend-key (some (retry at)) r = refl
  pend-key (some (defer at)) r = refl
  pend-key (some (dlq reason)) r = refl

  pub apply-IsSound :
      (token : LeaseToken) (now : Time) (outcomes : List BatchJobOutcome) (in_tx : Bool)
      → Preserves IsSound (apply_batch_job_outcomes faults token now outcomes in_tx)
  unfolding apply_batch_job_outcomes apply_all_outcomes
  apply-IsSound token now outcomes in_tx =
      unless_error-Preserves IsSound (validate_batch_outcomes token outcomes) _ (λ s i.
        run_in_tx-Preserves IsSound faults in_tx (apply_all_outcomes faults token now outcomes)
          (bind-Preserves IsSound
            (statement faults (delete_jobs (is_ended faults token now outcomes))) _
            (statement-Preserves IsSound faults (delete_jobs (is_ended faults token now outcomes))
              (delete_jobs-IsSound (is_ended faults token now outcomes)))
            (λ deleted.
              bind-Preserves IsSound
                (statement faults (
                  update_jobs (is_pended faults token now outcomes)
                    (λ r. pend (input_of r.id outcomes) r)))
                _
                (statement-Preserves IsSound faults _ (λ db j.
                  update_jobs-IsSound (is_pended faults token now outcomes)
                    (λ r. pend (input_of r.id outcomes) r) db
                    (λ r. pend-id (input_of r.id outcomes) r)
                    (λ r. pend-key (input_of r.id outcomes) r) j))
                (λ updated.
                  if-Preserves IsSound (nat_beq (deleted + updated) (length outcomes)) _ _
                    (λ t j. j) (λ t j. j))))
          s i)
