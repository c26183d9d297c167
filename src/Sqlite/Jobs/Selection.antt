-- ===== src/Sqlite/Jobs/Selection.antt =====
-- `FindAndReserveJobsForCapabilities` of backends/sqlite/repositories/jobsrepo/api.go: which rows a claim
-- takes, and which it leaves out.
use outbox.Base.{
  ℕ, ◌≤◌, ◌≡◌, refl, Bool, true, false, none, some, List, nat_eq, length, arith, sym, ◌∙◌, not,
  Bool-cases, inl, inr, ◌⊎◌, ltb,
}
use outbox.Core.Model.{JobId, JobCapability}
use outbox.Core.Batch.Identifiers.{Distinct}
use outbox.Sqlite.Table.{Row, is_claimable, where_rows, order_by, limit_to, precedes, row_ids, find}
use outbox.Sqlite.Table.Find.{unless_found-some, unless_found, find-where, Distinct-where}
use outbox.Sqlite.Table.Order.{
  Distinct-order_by, find-order_by, order_by-Sorted, precedes_asym, precedes_not_trans, Sorted,
  length-limit_to, Distinct-limit_to, find-limit_to, limit_to_first, limit_to-Sorted, limit_to_all,
}
use outbox.Sqlite.Sql.{Db}
use outbox.Sqlite.Jobs.{claimable}

-- A row left out is not claimable, or the batch is full of rows that do not stand after it.
abbrev pub IsRefused : List JobCapability → ℕ → ℕ → List Row → Row → Type 0
IsRefused cs ms limit chosen q =
    (is_claimable cs ms q ≡ false)
    ⊎ ((limit ≤ length chosen)
        × ((id : JobId) (r : Row) → find id chosen ≡ some r → precedes q r ≡ false))

-- What a claim may choose: at most the limit of rows, no two with one identifier, in the claim's order,
-- each a claimable row of the table; and what it leaves out.
abbrev pub IsSelection : List JobCapability → ℕ → ℕ → List Row → List Row → Type 0
IsSelection cs ms limit rows chosen =
    (length chosen ≤ limit)
    × Distinct (row_ids chosen)
    × Sorted precedes chosen
    × ((id : JobId) (r : Row)
        → find id chosen ≡ some r
        → (find id rows ≡ some r) × (is_claimable cs ms r ≡ true))
    × ((id : JobId) (q : Row)
        → find id chosen ≡ none
        → find id rows ≡ some q
        → IsRefused cs ms limit chosen q)

unless_found-none : (q : Row) (p : Row → Bool) → unless_found (some q) p ≡ none → p q ≡ true
unless_found-none q p h = ground arith

module _ (p : Row → Bool) (limit : ℕ) (rows : List Row) (d : Distinct (row_ids rows)) where
  abbrev sorted : List Row
  sorted = order_by precedes (where_rows p rows)

  find-sorted : (id : JobId) → find id sorted ≡ unless_found (find id rows) (λ r. not (p r))
  find-sorted id =
      find-order_by precedes id (where_rows p rows) (Distinct-where p rows d)
      ∙ find-where p id rows d

  chosen_found :
      (id : JobId) (r : Row)
      → find id (limit_to limit sorted) ≡ some r
      → (find id rows ≡ some r) × (p r ≡ true)
  chosen_found id r h =
      let (found, met) =
        unless_found-some (find id rows) (λ q. not (p q)) r
          (sym (find-sorted id) ∙ find-limit_to id limit sorted r h) in
      (found, ground arith)

  kept : (id : JobId) (q : Row) → find id rows ≡ some q → p q ≡ true → find id sorted ≡ some q
  kept id q k e = find-sorted id ∙ (rw k (rw e refl))

  full :
      (id : JobId) (q : Row)
      → find id (limit_to limit sorted) ≡ none
      → find id sorted ≡ some q
      → limit ≤ length (limit_to limit sorted)
  full id q h k = elim (Bool-cases (ltb (length (limit_to limit sorted)) limit)) [
    | inr all ↦ ground arith
    | inl short ↦ ground (arith, limit_to_all limit id sorted (ground arith))
  ]

  left_out :
      (id : JobId) (q : Row)
      → find id (limit_to limit sorted) ≡ none
      → find id rows ≡ some q
      → (p q ≡ false)
        ⊎ ((limit ≤ length (limit_to limit sorted))
            × ((j : JobId) (r : Row)
                → find j (limit_to limit sorted) ≡ some r
                → precedes q r ≡ false))
  left_out id q h k = elim (Bool-cases (p q)) [
    | inr unmet ↦ inl unmet
    | inl met ↦ inr (
      full id q h (kept id q k met),
      λ j r m.
          limit_to_first precedes limit j id sorted r q
            (order_by-Sorted precedes precedes_asym precedes_not_trans (where_rows p rows)) m
            (kept id q k met) h,
    )
  ]

pub claimable-IsSelection :
    (cs : List JobCapability) (ms limit : ℕ) (db : Db)
    → Distinct (row_ids db.jobs)
    → IsSelection cs ms limit db.jobs (claimable cs ms limit db)
claimable-IsSelection cs ms limit db d = (
  length-limit_to limit (sorted (is_claimable cs ms) limit db.jobs d),
  Distinct-limit_to limit (sorted (is_claimable cs ms) limit db.jobs d) (
      Distinct-order_by precedes (where_rows (is_claimable cs ms) db.jobs)
        (Distinct-where (is_claimable cs ms) db.jobs d)),
  limit_to-Sorted precedes limit (sorted (is_claimable cs ms) limit db.jobs d) (
      order_by-Sorted precedes precedes_asym precedes_not_trans
        (where_rows (is_claimable cs ms) db.jobs)),
  chosen_found (is_claimable cs ms) limit db.jobs d,
  left_out (is_claimable cs ms) limit db.jobs d,
)
