-- ===== src/Sqlite.antt =====
-- backends/sqlite: the tables of jobs, dead-letter rows and deduplication keys, and the repositories.
pub mod Table
pub mod Sql
pub mod Jobs
pub mod Outcomes
pub mod Leases
pub mod Keys
pub mod Bulk
pub mod Pages
pub mod Failed
pub mod Stats
pub mod Integrity
mod Tests
