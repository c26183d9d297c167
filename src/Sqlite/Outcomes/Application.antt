-- ===== src/Sqlite/Outcomes/Application.antt =====
-- `ApplyBatchJobOutcomes` of backends/sqlite/repositories/jobsrepo/api.go as a whole: all or nothing.
use outbox.Base.{ℕ, ◌≡◌, false, true, List, length, ◌⊎◌}
use outbox.Core.Errors.{Time}
use outbox.Core.Model.{LeaseToken}
use outbox.Core.Retry.{Result, ok, err}
use outbox.Core.Batch.{BatchJobOutcome}
use outbox.Sqlite.Table.{to_ms}
use outbox.Sqlite.Sql.{Db, Session, Sql, Faults, run_in_tx, ◌>>=◌}
use outbox.Sqlite.Jobs.{delete_jobs, update_jobs}
use outbox.Sqlite.Outcomes.{is_ended, is_pended, pend, input_of, apply_batch_job_outcomes}
use outbox.Sqlite.Outcomes.Settlement.{Settled}

module _ (faults : Faults) (token : LeaseToken) (now : Time) (outcomes : List BatchJobOutcome) where
  abbrev delete : Db → Result ℕ × Db
  delete = delete_jobs (is_ended faults token now outcomes)

  abbrev update : Db → Result ℕ × Db
  update = update_jobs (is_pended faults token now outcomes) (λ r. pend (input_of r.id outcomes) r)

  -- With a count, all is settled and the count is that of the outcomes; with an error, nothing is, unless
  -- the commit's answer was lost.
  abbrev pub AllOrNothing : Db → Result ℕ × Session → Type 0
  AllOrNothing db (ok n, s) = (n ≡ length outcomes) × Settled token (to_ms now) outcomes db s.db
  AllOrNothing db (err e, s) = (s.db ≡ db) ⊎ Settled token (to_ms now) outcomes db s.db

  module _ {A : Type 0} (before : Sql A) where
    -- The caller's transaction with what it does before the call.
    abbrev pub together : Sql ℕ
    together =
        run_in_tx faults false
          (before >>= λ a. apply_batch_job_outcomes faults token now outcomes true)

    -- The part before has succeeded from the start's tables, and all outcomes are settled in what it left.
    abbrev pub Both : Db → Db → Type 0
    Both db after =
        (t : Session) × (a : A) × (t.db ≡ db)
        × ((before t).0 ≡ ok a)
        × Settled token (to_ms now) outcomes (before t).1.db after

    abbrev pub BothOrNothing : Db → Result ℕ × Session → Type 0
    BothOrNothing db (ok n, s) = (n ≡ length outcomes) × Both db s.db
    BothOrNothing db (err e, s) = (s.db ≡ db) ⊎ Both db s.db
