-- ===== src/Sqlite/Stats.antt =====
-- backends/sqlite/repositories/jobsrepo/api.go: `GetQueueStats`. The columns have a schema version in each
-- row, so that COALESCE changes none.
pub mod Totals
use outbox.Base.{
  ℕ, suc, ◌+◌, min, Bool, true, false, not, ◌&&◌, Option, none, some, List, [], ◌∷◌, if◌then◌else◌,
  Text, ◌==◌,
}
use outbox.Core.Errors.{Time}
use outbox.Core.Model.{SchemaVersion, JobCapability, capability_eq, capability_less, is_zero}
use outbox.Core.Retry.{Result, ok, err}
use outbox.Sqlite.Table.{Row, to_ms, from_ms, is_due, later_than, row_capability}
use outbox.Sqlite.Sql.{Db, Session, Faults, Sql, done, ◌>>=◌, query, next_ok}
use outbox.Sqlite.Keys.{wrapping}

-- `CapabilityQueueStats`; a group without available jobs has no oldest one.
pub record CapabilityQueueStats : Type 0 where
  pub capability : JobCapability
  pub total : ℕ
  pub available : ℕ
  pub processing : ℕ
  pub oldest_available_at : Option ℕ

pub record QueueStats : Type 0 where
  pub observed_at : Time
  pub total : ℕ
  pub available : ℕ
  pub processing : ℕ
  pub by_capability : List CapabilityQueueStats

-- `reserved_at > ? AND lease_token <> '00000000-0000-0000-0000-000000000000'`
abbrev pub is_processing : ℕ → Row → Bool
is_processing ms r = later_than ms r.reserved_at && not (is_zero r.lease_token)

-- CASE WHEN ... THEN 1 ELSE 0 END
abbrev pub one_when : Bool → ℕ
one_when true = 1
one_when false = 0

-- MIN, which passes over NULL
abbrev pub min_available : Option ℕ → ℕ → ℕ
min_available none at = at
min_available (some oldest) at = min oldest at

abbrev pub oldest_with : ℕ → Row → Option ℕ → Option ℕ
oldest_with ms r oldest = if is_due ms r then some (min_available oldest r.available_at) else oldest

-- The aggregates of a group with one row more.
abbrev pub count_row : ℕ → Row → CapabilityQueueStats → CapabilityQueueStats
count_row ms r g = record g {
  total = g.total + 1;
  available = g.available + one_when (is_due ms r);
  processing = g.processing + one_when (is_processing ms r);
  oldest_available_at = oldest_with ms r g.oldest_available_at;
}

abbrev pub new_group : JobCapability → CapabilityQueueStats
new_group c = record {
  capability = c;
  total = 0;
  available = 0;
  processing = 0;
  oldest_available_at = none;
}

-- GROUP BY and ORDER BY `name, schema_version`
pub add_to_groups : ℕ → Row → List CapabilityQueueStats → List CapabilityQueueStats
add_to_groups ms r [] = count_row ms r (new_group (row_capability r)) ∷ []
add_to_groups ms r (g ∷ groups) =
    let rest = add_to_groups ms r groups in
    if row_capability r == g.capability
    then count_row ms r g ∷ groups
    else if capability_less (row_capability r) g.capability
    then count_row ms r (new_group (row_capability r)) ∷ g ∷ groups
    else g ∷ rest

pub group_rows : ℕ → List Row → List CapabilityQueueStats
unfolding add_to_groups
group_rows ms [] = []
group_rows ms (r ∷ rows) = add_to_groups ms r (group_rows ms rows)

-- The loop over the groups, which adds them up.
pub add_groups : QueueStats → List CapabilityQueueStats → QueueStats
add_groups stats [] = stats
add_groups stats (g ∷ groups) =
    let rest =
      add_groups
        (record stats {
          total = stats.total + g.total;
          available = stats.available + g.available;
          processing = stats.processing + g.processing;
        })
        groups in
    record rest { by_capability = g ∷ rest.by_capability }

abbrev pub no_stats : Time → QueueStats
no_stats at = record {
  observed_at = at;
  total = 0;
  available = 0;
  processing = 0;
  by_capability = [];
}

-- `GetQueueStats`
unfoldable pub get_queue_stats : Faults → Time → Sql QueueStats
unfolding group_rows add_groups
get_queue_stats faults at =
    wrapping (query faults (λ db. group_rows (to_ms at) db.jobs)) >>= λ groups.
    done (add_groups (no_stats at) groups)
