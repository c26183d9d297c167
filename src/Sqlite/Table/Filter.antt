-- ===== src/Sqlite/Table/Filter.antt =====
-- WHERE and ORDER BY commute, and WHERE on rows that all or none meet its condition.
use outbox.Base.{
  ◌≡◌, refl, Bool, true, false, List, [], ◌∷◌, ◌++◌, if◌then◌else◌, arith, All, Bool-cases, inl,
  inr,
}
use outbox.Sqlite.Table.{Row, where_rows, insert_by, order_by}
use outbox.Sqlite.Table.Order.{Sorted, order_by-Sorted}

pub where_none :
    (p : Row → Bool) (rows : List Row) → All (λ r. p r ≡ false) rows → where_rows p rows ≡ []
unfolding where_rows
where_none p [] all = refl
where_none p (r ∷ rows) all = ground (arith, all.0, where_none p rows all.1)

pub where-All :
    (p : Row → Bool) (rows : List Row) → All (λ r. p r ≡ true) rows → where_rows p rows ≡ rows
unfolding where_rows
where-All p [] all = refl
where-All p (r ∷ rows) all = ground (arith, all.0, where-All p rows all.1)

pub where-append :
    (p : Row → Bool) (rows more : List Row)
    → where_rows p (rows ++ more) ≡ where_rows p rows ++ where_rows p more
unfolding where_rows
where-append p [] more = refl
where-append p (r ∷ rows) more = ground (arith, where-append p rows more)

All-where :
    (P : Row → Type 0) (p : Row → Bool) (rows : List Row) → All P rows → All P (where_rows p rows)
unfolding where_rows
All-where P p [] all = tt
All-where P p (r ∷ rows) all = elim (Bool-cases (p r)) [
  | inl kept ↦ rw kept (all.0, All-where P p rows all.1)
  | inr gone ↦ rw gone (All-where P p rows all.1)
]

module _ (before : Row → Row → Bool) (asym : (r q : Row) → before r q ≡ true → before q r ≡ false)
    (not_trans : (r q t : Row) → before q r ≡ false → before t q ≡ false → before t r ≡ false) where
  -- Where a row stands in a sorted list does not depend on the rows that a condition leaves out.
  insert_first :
      (r : Row) (rows : List Row)
      → All (λ q. before q r ≡ false) rows
      → insert_by before r rows ≡ r ∷ rows
  unfolding insert_by
  insert_first r [] all = refl
  insert_first r (q ∷ rows) all = ground (arith, all.0)

  after-All :
      (r q : Row) (rows : List Row)
      → before q r ≡ false
      → All (λ t. before t q ≡ false) rows
      → All (λ t. before t r ≡ false) rows
  after-All r q [] h all = tt
  after-All r q (t ∷ rows) h all = (not_trans r q t h all.0, after-All r q rows h all.1)

  where-insert :
      (p : Row → Bool) (r : Row) (rows : List Row)
      → Sorted before rows
      → where_rows p (insert_by before r rows)
        ≡ (if p r then insert_by before r (where_rows p rows) else where_rows p rows)
  unfolding where_rows insert_by
  where-insert p r [] s = ground arith
  where-insert p r (q ∷ rows) s = elim (Bool-cases (before q r)) [
    | inl after ↦ ground (arith, where-insert p r rows s.1)
    | inr first ↦ ground (
      arith,
      insert_first r (where_rows p rows) (All-where _ p rows (after-All r q rows first s.0)),
    )
  ]

  pub where-order_by :
      (p : Row → Bool) (rows : List Row)
      → order_by before (where_rows p rows) ≡ where_rows p (order_by before rows)
  unfolding where_rows order_by
  where-order_by p [] = refl
  where-order_by p (r ∷ rows) = ground (
    arith,
    where-order_by p rows,
    where-insert p r (order_by before rows) (order_by-Sorted before asym not_trans rows),
  )
