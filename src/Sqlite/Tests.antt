-- ===== src/Sqlite/Tests.antt =====
-- Sample tables, and the theorems on backends/sqlite at them.
use outbox.Base.{
  text_beq, ◌≤◌, ◌<◌, ◌+◌, ◌≡◌, refl, true, false, none, some, List, [], ◌∷◌, Text, text_eq, ◌==◌,
  length, arith,
}
use outbox.Base.Int.{pos}
use outbox.Core.Errors.{Time, foreign, permanent_failure}
use outbox.Core.Model.{JobId, JobCapability, UniqueBatchPut}
use outbox.Core.Batch.{success, BatchJobOutcome}
use outbox.Core.Batch.Identifiers.{Distinct}
use outbox.Core.Retry.{ok}
use outbox.Sqlite.Table.{Row, row_ids, find, count_where, to_ms}
use outbox.Sqlite.Sql.{Session, Sql, with_immediate_transaction}
use outbox.Sqlite.Failed.{create_failed_job}
use outbox.Sqlite.Sql.Success.{no_faults}
use outbox.Sqlite.Jobs.{find_and_reserve_jobs, reserve_jobs, validate_batch_claim, scan_jobs}
use outbox.Sqlite.Jobs.Selection.{IsSelection}
use outbox.Sqlite.Jobs.Claims.{ClaimResult, find_and_reserve_jobs-ClaimResult}
use outbox.Sqlite.Jobs.Exclusion.{find_and_reserve_jobs-live}
use outbox.Sqlite.Jobs.Bounded.{find_and_reserve_bounded}
use outbox.Sqlite.Jobs.BoundedClaims.{BoundedResult, find_and_reserve_bounded-BoundedResult}
use outbox.Sqlite.Jobs.Progress.{find_and_reserve_jobs-progress}
use outbox.Sqlite.Leases.{extending, run_call, Refines}
use outbox.Sqlite.Leases.Refinement.{run_call-Refines}
use outbox.Sqlite.Keys.{
  framed, canonical, create_job_unique_result, job_fingerprint, put_keyed, put_unique, key_row,
}
use outbox.Sqlite.Keys.Repetition.{repeated, create_job_unique_result-again}
use outbox.Sqlite.Keys.Canonical.{canonical_injective}
use outbox.Sqlite.Pages.{traverse}
use outbox.Sqlite.Pages.Descent.{Descending}
use outbox.Sqlite.Pages.Traversal.{traverse_complete}
use outbox.Sqlite.Stats.{QueueStats, get_queue_stats}
use outbox.Sqlite.Stats.Totals.{is_waiting, is_leased, get_queue_stats-totals}
use outbox.Sqlite.Integrity.{IsSound}
use outbox.Sqlite.Integrity.Operations.{put_one, run_operation}
use outbox.Sqlite.Integrity.Histories.{empty_db, created, called, IsReachable-IsSound}

abbrev mail : JobCapability
mail = record { name = 109 ∷ []; schema_version = pos 1 }

abbrev waiting : Row
waiting = record {
  id = 1;
  queue = [];
  name = 109 ∷ [];
  schema_version = pos 1;
  payload = 7 ∷ [];
  attempts = 0;
  reserved_at = none;
  lease_token = 0;
  deduplication_key = none;
  available_at = 1;
  created_at = 1;
}

-- Held under token 9 until 100 ms.
abbrev held : Row
held = record waiting { id = 2; attempts = 1; reserved_at = some 100; lease_token = 9 }

abbrev sample : Session
sample = record { db = record { jobs = waiting ∷ held ∷ []; failed = []; keys = [] }; calls = 0 }

abbrev sample-Distinct : Distinct (row_ids sample.db.jobs)
sample-Distinct = (refl, (refl, tt))

-- At 5 ms.
abbrev now : Time
now = 5000000

abbrev until : Time
until = 200000000

find_and_reserve_jobs-ClaimResult_example :
    ClaimResult no_faults now until 7
      (mail ∷ [])
      10
      sample.db
      (find_and_reserve_jobs no_faults false now until 7 (mail ∷ []) 10 sample)
find_and_reserve_jobs-ClaimResult_example =
    find_and_reserve_jobs-ClaimResult no_faults now until 7 (mail ∷ []) 10 sample sample-Distinct

find_and_reserve_jobs-live_example :
    find 2 (find_and_reserve_jobs no_faults false now until 7 (mail ∷ []) 10 sample).1.db.jobs
    ≡ some held
find_and_reserve_jobs-live_example =
    find_and_reserve_jobs-live no_faults now until 7 (mail ∷ []) 10 sample 2 held sample-Distinct
      refl refl

find_and_reserve_jobs-progress_example :
    (rows : List Row) × ((find_and_reserve_jobs no_faults false now until 7 (mail ∷ []) 10 sample).0
      ≡ ok (reserve_jobs 7 until rows))
    × (0 < length rows)
    × IsSelection (mail ∷ []) (to_ms now) 10 sample.db.jobs rows
unfolding validate_batch_claim text_beq
find_and_reserve_jobs-progress_example =
    find_and_reserve_jobs-progress until 7 now (mail ∷ []) 10 sample 1 waiting sample-Distinct refl
      refl refl refl

find_and_reserve_bounded-BoundedResult_example :
    BoundedResult no_faults now until 7 mail 10 64 sample.db
      (find_and_reserve_bounded no_faults false now until 7 mail 10 64 sample)
find_and_reserve_bounded-BoundedResult_example =
    find_and_reserve_bounded-BoundedResult no_faults now until 7 mail 10 64 sample sample-Distinct

abbrev sent : BatchJobOutcome
sent = record { job_id = 2; kind = success }

-- The dead letter of another job, inserted in the same transaction.
abbrev dead_letter : Sql JobId
dead_letter =
    create_failed_job no_faults 9 now 4 (109 ∷ []) (pos 1) (7 ∷ []) (permanent_failure (foreign 1))

run_call-Refines_example :
    Refines 9
      (to_ms now)
      (extending (2 ∷ []) until)
      sample.db
      (run_call no_faults 9 now (extending (2 ∷ []) until) sample)
run_call-Refines_example =
    run_call-Refines no_faults 9 now (extending (2 ∷ []) until) sample (refl, tt) sample-Distinct

abbrev hashed : Text → Text
hashed text = text

abbrev formatted : Time → Text
formatted at = at ∷ []

abbrev order : UniqueBatchPut
order = record {
  deduplication_key = 107 ∷ [];
  name = 109 ∷ [];
  schema_version = pos 1;
  payload = 7 ∷ [];
  available_at = now;
}

abbrev after_put : Session
after_put = run_operation no_faults hashed formatted false (put_one 3 now order) sample

IsReachable-IsSound_example :
    IsSound
      (run_operation no_faults hashed formatted false
        (put_one 3 now order)
        (record { db = empty_db; calls = 0 })).db
IsReachable-IsSound_example =
    IsReachable-IsSound no_faults hashed formatted
      (run_operation no_faults hashed formatted false (put_one 3 now order)
        (record { db = empty_db; calls = 0 }))
      (called false (put_one 3 now order) (record { db = empty_db; calls = 0 }) (created 0))

create_job_unique_result-again_example :
    ((create_job_unique_result no_faults hashed formatted false 4 now order after_put).0
      ≡ repeated hashed formatted 3
          (job_fingerprint hashed formatted order == job_fingerprint hashed formatted order))
    × ((create_job_unique_result no_faults hashed formatted false 4 now order after_put).1.db
        ≡ after_put.db)
unfolding create_job_unique_result put_unique put_keyed key_row with_immediate_transaction
    job_fingerprint canonical text_beq framed
create_job_unique_result-again_example =
    create_job_unique_result-again hashed formatted no_faults sample after_put 3 4 now now order
      order (record { job_id = 3; created = true }) refl refl refl refl

canonical_injective_example :
    (order.name ≡ order.name)
    × (order.schema_version ≡ order.schema_version)
    × (order.payload ≡ order.payload)
    × (formatted order.available_at ≡ formatted order.available_at)
canonical_injective_example = canonical_injective formatted order order refl

traverse_complete_example :
    (rows : List Row) × ((traverse no_faults 3 (pos 1) none sample).0 ≡ ok (scan_jobs rows))
    × Descending rows
    × Distinct (row_ids rows)
    × ((id : JobId) → find id rows ≡ find id sample.db.jobs)
traverse_complete_example =
    traverse_complete (pos 1) 3 sample (omega arith) sample-Distinct (omega arith)

get_queue_stats-totals_example :
    (stats : QueueStats) × ((get_queue_stats no_faults now sample).0 ≡ ok stats)
    × (stats.total ≡ length sample.db.jobs)
    × (stats.available ≡ count_where (is_waiting (to_ms now)) sample.db.jobs)
    × (stats.processing ≡ count_where (is_leased (to_ms now)) sample.db.jobs)
    × (stats.available + stats.processing ≤ stats.total)
get_queue_stats-totals_example = get_queue_stats-totals now sample
