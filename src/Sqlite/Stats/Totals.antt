-- ===== src/Sqlite/Stats/Totals.antt =====
-- `GetQueueStats` of backends/sqlite/repositories/jobsrepo/api.go against counts over the table.
use outbox.Base.{
  ℕ, suc, ◌+◌, ◌≤◌, ◌≡◌, refl, ap, ◌∙◌, Bool, true, false, not, ◌&&◌, ltb, leb, nat_beq, Option,
  none, some, List, [], ◌∷◌, length, arith, Bool-cases, inl, inr, ◌==◌,
}
use outbox.Core.Errors.{Time}
use outbox.Core.Model.{JobCapability, capability_eq, capability_less}
use outbox.Core.Retry.{ok}
use outbox.Sqlite.Table.{Row, to_ms, count_where, row_capability}
use outbox.Sqlite.Sql.{Session}
use outbox.Sqlite.Sql.Success.{no_faults}
use outbox.Sqlite.Stats.{
  CapabilityQueueStats, QueueStats, one_when, count_row, new_group, add_to_groups, group_rows,
  add_groups, no_stats, get_queue_stats,
}

abbrev ends_after : ℕ → Option ℕ → Bool
ends_after ms none = false
ends_after ms (some until) = ltb ms until

-- The row's lease ends later, and it has a token.
abbrev pub is_leased : ℕ → Row → Bool
is_leased ms r = ends_after ms r.reserved_at && not (nat_beq r.lease_token 0)

-- The row is available and has no reservation that ends later.
abbrev pub is_waiting : ℕ → Row → Bool
is_waiting ms r = leb r.available_at ms && not (ends_after ms r.reserved_at)

module _ (m : CapabilityQueueStats → ℕ) where
  abbrev sum_by : List CapabilityQueueStats → ℕ
  sum_by [] = 0
  sum_by (g ∷ groups) = m g + sum_by groups

  module _ (ms : ℕ) (p : Row → Bool)
      (adds : (r : Row) (g : CapabilityQueueStats) → m (count_row ms r g) ≡ m g + one_when (p r))
      (fresh : (c : JobCapability) → m (new_group c) ≡ 0) where
    sum_by-add :
        (r : Row) (groups : List CapabilityQueueStats)
        → sum_by (add_to_groups ms r groups) ≡ one_when (p r) + sum_by groups
    unfolding add_to_groups
    sum_by-add r [] = omega (arith, adds r (new_group (row_capability r)), fresh (row_capability r))
    sum_by-add r (g ∷ groups) = elim (Bool-cases (row_capability r == g.capability)) [
      | inl same ↦ rw same (omega (arith, adds r g))
      | inr other ↦ elim (Bool-cases (capability_less (row_capability r) g.capability)) [
        | inl first ↦ rw other (
            rw first
              (omega (arith, adds r (new_group (row_capability r)), fresh (row_capability r))))
        | inr later ↦ rw other (rw later (omega (arith, sum_by-add r groups)))
      ]
    ]

    sum_by-group_rows : (rows : List Row) → sum_by (group_rows ms rows) ≡ count_where p rows
    unfolding group_rows count_where
    sum_by-group_rows [] = refl
    sum_by-group_rows (r ∷ rows) = elim (Bool-cases (p r)) [
      | inl met ↦ sum_by-add r (group_rows ms rows) ∙ rw met (omega (arith, sum_by-group_rows rows))
      | inr unmet ↦
          sum_by-add r (group_rows ms rows) ∙ rw unmet (omega (arith, sum_by-group_rows rows))
    ]

add_groups-sums :
    (stats : QueueStats) (groups : List CapabilityQueueStats)
    → ((add_groups stats groups).total ≡ stats.total + sum_by (λ g. g.total) groups)
      × ((add_groups stats groups).available ≡ stats.available + sum_by (λ g. g.available) groups)
      × ((add_groups stats groups).processing
          ≡ stats.processing + sum_by (λ g. g.processing) groups)
unfolding add_groups
add_groups-sums stats [] = (omega arith, omega arith, omega arith)
add_groups-sums stats (g ∷ groups) =
    let (t, a, p) =
      add_groups-sums
        (record stats {
          total = stats.total + g.total;
          available = stats.available + g.available;
          processing = stats.processing + g.processing;
        })
        groups in
    (omega (arith, t), omega (arith, a), omega (arith, p))

count_all : (rows : List Row) → count_where (λ r. true) rows ≡ length rows
unfolding count_where
count_all [] = refl
count_all (r ∷ rows) = ap suc (count_all rows)

counts_waiting :
    (ms : ℕ) (r : Row) (g : CapabilityQueueStats)
    → (count_row ms r g).available ≡ g.available + one_when (is_waiting ms r)
counts_waiting ms r g = ground arith

counts_leased :
    (ms : ℕ) (r : Row) (g : CapabilityQueueStats)
    → (count_row ms r g).processing ≡ g.processing + one_when (is_leased ms r)
counts_leased ms r g = ground arith

-- No row is due and processed at once.
count_apart :
    (ms : ℕ) (rows : List Row)
    → count_where (is_waiting ms) rows + count_where (is_leased ms) rows ≤ length rows
unfolding count_where
count_apart ms [] = omega arith
count_apart ms (r ∷ rows) = ground (arith, count_apart ms rows)

-- Where the engine does not fail: the totals of `GetQueueStats` are the counts over the table of all jobs, of
-- those that are available with no reservation that ends later, and of those with a reservation that ends later
-- and a token; no job is counted as both of the last two.
pub get_queue_stats-totals :
    (at : Time) (s : Session)
    → (stats : QueueStats) × ((get_queue_stats no_faults at s).0 ≡ ok stats)
      × (stats.total ≡ length s.db.jobs)
      × (stats.available ≡ count_where (is_waiting (to_ms at)) s.db.jobs)
      × (stats.processing ≡ count_where (is_leased (to_ms at)) s.db.jobs)
      × (stats.available + stats.processing ≤ stats.total)
unfolding get_queue_stats
get_queue_stats-totals at s =
    let ms = to_ms at in
    let groups = group_rows ms s.db.jobs in
    let (t, a, p) = add_groups-sums (no_stats at) groups in
    let total =
      sum_by-group_rows (λ g. g.total) ms (λ r. true) (λ r g. refl) (λ c. refl) s.db.jobs in
    let available =
      sum_by-group_rows (λ g. g.available) ms (is_waiting ms) (λ r g. counts_waiting ms r g)
        (λ c. refl) s.db.jobs in
    let processing =
      sum_by-group_rows (λ g. g.processing) ms (is_leased ms) (λ r g. counts_leased ms r g)
        (λ c. refl) s.db.jobs in
    let all = count_all s.db.jobs in
    (
      add_groups (no_stats at) groups,
      refl,
      omega (arith, t, total, all),
      omega (arith, a, available),
      omega (arith, p, processing),
      omega (arith, t, a, p, total, all, available, processing, count_apart ms s.db.jobs),
    )
