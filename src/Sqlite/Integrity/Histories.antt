-- ===== src/Sqlite/Integrity/Histories.antt =====
-- Histories of the database of backends/sqlite: calls of the repositories, and transactions that end with a
-- rollback.
use outbox.Base.{ℕ, Bool, [], Text}
use outbox.Core.Errors.{Time}
use outbox.Sqlite.Sql.{Db, Session, Faults}
use outbox.Sqlite.Integrity.{IsSound}
use outbox.Sqlite.Integrity.Operations.{Operation, run_operation, run_operation-IsSound}

abbrev pub empty_db : Db
empty_db = record { jobs = []; failed = []; keys = [] }

-- The databases that calls lead to, where an owner's rollback goes back to any earlier database.
pub data IsReachable (faults : Faults) (digest : Text → Text) (format : Time → Text)
    : Session → Type 0 where
  created : (calls : ℕ) → IsReachable faults digest format (record { db = empty_db; calls = calls })
  called :
      (in_tx : Bool) (op : Operation) (s : Session)
      → IsReachable faults digest format s
      → IsReachable faults digest format (run_operation faults digest format in_tx op s)
  rolled_back :
      (earlier s : Session)
      → IsReachable faults digest format earlier
      → IsReachable faults digest format s
      → IsReachable faults digest format (record { db = earlier.db; calls = s.calls })

-- In every database that calls lead to, no two jobs have one identifier, and the key of each job that has
-- one is in the registry, for that job.
pub IsReachable-IsSound :
    (faults : Faults) (digest : Text → Text) (format : Time → Text) (s : Session)
    → IsReachable faults digest format s
    → IsSound s.db
IsReachable-IsSound faults digest format _ (created calls) = (tt, tt)
IsReachable-IsSound faults digest format _ (called in_tx op s h) =
    run_operation-IsSound faults digest format in_tx op s
      (IsReachable-IsSound faults digest format s h)
IsReachable-IsSound faults digest format _ (rolled_back earlier s g h) =
    IsReachable-IsSound faults digest format earlier g
