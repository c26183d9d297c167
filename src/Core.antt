-- ===== src/Core.antt =====
-- Package outbox: the worker runtime, its leases, batches, retries and fan-out.
pub mod Errors
pub mod Model
pub mod Retry
pub mod Batch
pub mod Env
pub mod Claim
pub mod Lease
pub mod Pause
pub mod Outcome
pub mod Registry
pub mod Publish
pub mod Worker
pub mod Single
pub mod Reserve
pub mod Options
pub mod Tests
