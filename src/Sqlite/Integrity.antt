-- ===== src/Sqlite/Integrity.antt =====
-- What holds of the tables of backends/sqlite at all times: no two jobs have one identifier, and the
-- registry has the key of each job that has one, for that job.
pub mod Tables
pub mod Pruning
pub mod Puts
pub mod Prepared
pub mod Batches
pub mod Claims
pub mod Endings
pub mod Operations
pub mod Histories
use outbox.Base.{◌≡◌, Option, none, some, List, Text, All}
use outbox.Core.Model.{JobId}
use outbox.Core.Batch.Identifiers.{Distinct}
use outbox.Sqlite.Table.{Row, row_ids}
use outbox.Sqlite.Sql.{Db, KeyRow}
use outbox.Sqlite.Keys.{find_key}

abbrev pub IsRegisteredAs : List KeyRow → JobId → Option Text → Type 0
IsRegisteredAs keys id none = Unit {0}
IsRegisteredAs keys id (some key) = (k : KeyRow) × (find_key key keys ≡ some k) × (k.job_id ≡ id)

abbrev pub IsRegistered : List KeyRow → Row → Type 0
IsRegistered keys r = IsRegisteredAs keys r.id r.deduplication_key

abbrev pub IsSound : Db → Type 0
IsSound db = Distinct (row_ids db.jobs) × All (IsRegistered db.keys) db.jobs
