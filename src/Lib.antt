-- ===== src/Lib.antt =====
-- A transactional outbox in Go: jobs are stored beside the caller's data, and workers claim them under
-- leases, run their handlers and finalize each row by deleting, rescheduling, deferring or moving it to
-- the dead-letter queue. This library models the worker runtime of the package outbox and
-- its repositories on SQLite.
--
-- Base: shared notation and lemmas. Base/Dict is a Go map, Base/Int the integers with int64 doubling.
-- Core/Errors: outbox/disposition.go, with errors.Is, errors.As and errors.Join.
-- Core/Model: outbox/models/job.go and outbox/capability.go.
-- Core/Retry: outbox/retry_policy.go and batchAttemptBackoff.
-- Core/Batch: outbox/batch.go; `validate_batch_result` is validateBatchResult.
-- Core/Env: the interfaces of outbox/contract.go, contexts, the clock and the drain, as one record of
--   functions on a state of the outside world. Each theorem holds for every such record, so for every
--   answer, failure and timing of the repositories.
-- Core/Claim: the checks of claimed rows in outbox/service_execution_batch.go and
--   outbox/service_batch.go.
-- Core/Reserve: outbox/service_claim.go.
-- Core/Lease: batchLeaseManager of outbox/service_batch.go. `Ledger` is its state; each function is one
--   critical section under its mutex (`ensure_leases` is ensureLeasesLocked, `check_leases`
--   checkLeasesLocked, `extend` the heartbeat's section). `Interleavings.Reach` runs the sections in any
--   order, with any change of the world between two of them.
-- Core/Pause: batchPaused and batchStreak of outbox/service.go.
-- Core/Outcome: finishExecutionBatch and applyExecutionBatchOutcomes of
--   outbox/service_execution_batch.go. Coverage is about the leases around its transaction, Callback
--   about the calls inside.
-- Core/Single: processBatchJob of outbox/service_batch.go and its four finalizations.
-- Core/Registry: RegisterJobs and RegisterBatchJob of outbox/service.go. Contents describes a
--   registration by the handlers alone.
-- Core/Publish: outbox/api.go.
-- Core/Worker: processWorkerWork and processOneAvailableBatch.
-- Core/Options: Options.Validate of outbox/service_options.go.
-- Core/Tests: sample data, and the theorems at it.
-- Sqlite/Table: the table of jobs and the clauses of SQL, after backends/sqlite/migrations and scanJob.
-- Sqlite/Sql: calls of database/sql on a session, each of which may fail before or after its effect, and
--   a COMMIT or ROLLBACK also so that its transaction stays open (`EndTransactions` is the hypothesis
--   that Commit and Rollback of database/sql do not), with
--   backends/sqlite/repositories/jobsrepo/immediate_transaction.go and RunInTx of
--   backends/sqlite/storage/transaction/manager.go. Sqlite/Sql/Atomicity, Success and Preservation are
--   the rules that the proofs go by.
-- Sqlite/Jobs, Outcomes, Keys, Bulk, Pages and Stats: backends/sqlite/repositories/jobsrepo/api.go and
--   pagination.go: claims and lease-bound changes, ApplyBatchJobOutcomes, single and batched unique puts
--   with the registry of keys, ListPage, and GetQueueStats.
-- Sqlite/Leases: the abstract account of the lease-bound calls, as a map from identifiers to rows.
-- Sqlite/Failed: backends/sqlite/repositories/jobsfailedrepo/api.go.
-- Sqlite/Integrity: what holds of the tables at all times.
-- Sqlite/Tests: sample tables, and the theorems at them.
--
-- Times are nanoseconds since Go's zero time, on the unbounded natural numbers; durations are int64, and
-- the only products of them, the doublings of the backoffs, wrap as int64 does. Counts, such as lengths,
-- byte sums and the streaks of failures, do not reach 2^63 and are natural numbers. An identifier is the
-- number of its 128 bits. No loop needs fuel: each is a recursion on a list, or on a count of rounds that
-- the loop's own bound gives. The two exceptions are the digits of a number, for which as many steps as
-- the number and one are allowed, and the traversal of pages, for which more pages than rows are enough.
--
-- Not modelled: messages, logs and the observer; the timer of the heartbeat, the channel inside
-- leaseMutex and the goroutines of Run; the collection of a batch (fillExecutionBatch); fan-out; the
-- other SQL backends, and the engine itself: a statement has the effect that its SQL describes. The digest
-- and the format of times behind a fingerprint are parameters.
pub mod Base
pub mod Core
pub mod Sqlite
