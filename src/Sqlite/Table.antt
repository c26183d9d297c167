-- ===== src/Sqlite/Table.antt =====
-- Tables as lists of rows, with what the clauses of SQL mean on them: WHERE, ORDER BY, LIMIT, UPDATE,
-- DELETE. The columns are those of backends/sqlite/migrations, and the rows become jobs as `scanJob`
-- of backends/sqlite/repositories/jobsrepo/api.go reads them.
pub mod Find
pub mod Order
pub mod Count
pub mod Filter
use outbox.Base.{
  ℕ, zero, suc, ◌+◌, ◌*◌, ◌/◌, Bool, true, false, not, ◌&&◌, ◌||◌, Option, none, some, List, [],
  ◌∷◌, if◌then◌else◌, ltb, leb, nat_beq, Text, elem, nat_eq,
}
use outbox.Base.Int.{pos}
use outbox.Core.Errors.{Time}
use outbox.Core.Model.{
  JobId, LeaseToken, SchemaVersion, Job, NullTime, JobCapability, capability_eq,
}

-- `UnixMilli` and `time.UnixMilli`; milliseconds count from the zero time too.
abbrev pub to_ms : Time → ℕ
to_ms t = t / 1000000

abbrev pub from_ms : ℕ → Time
from_ms ms = ms * 1000000

-- A row of the table `jobs`. The repository never lets `attempts` fall below zero.
pub record Row : Type 0 where
  pub id : JobId
  pub queue : Text
  pub name : Text
  pub schema_version : SchemaVersion
  pub payload : Text
  pub attempts : ℕ
  pub reserved_at : Option ℕ
  pub lease_token : LeaseToken
  pub deduplication_key : Option Text
  pub available_at : ℕ
  pub created_at : ℕ

abbrev pub null_time : Option ℕ → NullTime
null_time none = record { time = 0; valid = false }
null_time (some ms) = record { time = from_ms ms; valid = true }

-- `scanJob`
abbrev pub scan_job : Row → Job
scan_job r = record {
  id = r.id;
  queue = r.queue;
  name = r.name;
  schema_version = r.schema_version;
  payload = r.payload;
  attempts = pos r.attempts;
  reserved_at = null_time r.reserved_at;
  lease_token = r.lease_token;
  deduplication_key = r.deduplication_key;
  available_at = from_ms r.available_at;
  created_at = from_ms r.created_at;
}

-- `reserved_at > ?`, which NULL does not satisfy
abbrev pub later_than : ℕ → Option ℕ → Bool
later_than ms none = false
later_than ms (some reserved) = ltb ms reserved

-- `reserved_at IS NULL OR reserved_at <= ?`
abbrev pub null_or_up_to : ℕ → Option ℕ → Bool
null_or_up_to ms none = true
null_or_up_to ms (some reserved) = leb reserved ms

-- `id IN (...) AND lease_token = ? AND reserved_at > ?`
abbrev pub is_held : List JobId → LeaseToken → ℕ → Row → Bool
is_held ids token ms r = elem r.id ids && nat_beq r.lease_token token && later_than ms r.reserved_at

-- `available_at <= ? AND (reserved_at IS NULL OR reserved_at <= ?)`
abbrev pub is_due : ℕ → Row → Bool
is_due ms r = leb r.available_at ms && null_or_up_to ms r.reserved_at

abbrev pub row_capability : Row → JobCapability
row_capability r = record { name = r.name; schema_version = r.schema_version }

-- `AND (name = ? AND schema_version = ? OR ...)`
abbrev pub is_claimable : List JobCapability → ℕ → Row → Bool
is_claimable cs ms r = is_due ms r && elem (row_capability r) cs

-- The order of `ORDER BY available_at, created_at, id`
abbrev pub precedes : Row → Row → Bool
precedes r q =
    if nat_beq r.available_at q.available_at
    then (if nat_beq r.created_at q.created_at
        then ltb r.id q.id
        else ltb r.created_at q.created_at)
    else ltb r.available_at q.available_at

unfoldable pub where_rows : (Row → Bool) → List Row → List Row
where_rows p [] = []
where_rows p (r ∷ rows) = let rest = where_rows p rows in if p r then r ∷ rest else rest

pub insert_by : (Row → Row → Bool) → Row → List Row → List Row
insert_by before r [] = r ∷ []
insert_by before r (q ∷ rows) =
    let rest = insert_by before r rows in if before q r then q ∷ rest else r ∷ q ∷ rows

pub order_by : (Row → Row → Bool) → List Row → List Row
unfolding insert_by
order_by before [] = []
order_by before (r ∷ rows) = insert_by before r (order_by before rows)

unfoldable pub limit_to : ℕ → List Row → List Row
limit_to zero rows = []
limit_to (suc n) [] = []
limit_to (suc n) (r ∷ rows) = r ∷ limit_to n rows

-- `RowsAffected` of an UPDATE or a DELETE with the condition
unfoldable pub count_where : (Row → Bool) → List Row → ℕ
count_where p [] = 0
count_where p (r ∷ rows) = let rest = count_where p rows in if p r then suc rest else rest

unfoldable pub update_where : (Row → Bool) → (Row → Row) → List Row → List Row
update_where p f [] = []
update_where p f (r ∷ rows) = (if p r then f r else r) ∷ update_where p f rows

unfoldable pub delete_where : (Row → Bool) → List Row → List Row
delete_where p [] = []
delete_where p (r ∷ rows) = let rest = delete_where p rows in if p r then rest else r ∷ rest

abbrev pub row_ids : List Row → List JobId
row_ids [] = []
row_ids (r ∷ rows) = r.id ∷ row_ids rows

abbrev pub find : JobId → List Row → Option Row
find id [] = none
find id (r ∷ rows) = if nat_beq r.id id then some r else find id rows
