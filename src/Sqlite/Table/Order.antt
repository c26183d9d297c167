-- ===== src/Sqlite/Table/Order.antt =====
-- ORDER BY and LIMIT: the first rows of the order, and no row is lost by sorting.
use outbox.Base.{
  ℕ, zero, suc, ◌≤◌, ◌<◌, ◌≡◌, refl, Bool, true, false, none, some, List, [], ◌∷◌, elem, nat_eq,
  nat_beq, nat_beq_iff, arith, Bool-cases, inl, inr, length, All,
}
use outbox.Core.Model.{JobId}
use outbox.Core.Batch.Identifiers.{Distinct}
use outbox.Sqlite.Table.{Row, row_ids, find, insert_by, order_by, limit_to, precedes}

pub precedes_asym : (r q : Row) → precedes r q ≡ true → precedes q r ≡ false
precedes_asym r q h =
    ground (arith, nat_beq_iff r.available_at q.available_at, nat_beq_iff r.created_at q.created_at)

pub precedes_not_trans :
    (r q t : Row) → precedes q r ≡ false → precedes t q ≡ false → precedes t r ≡ false
precedes_not_trans r q t h k = ground arith

pub length-limit_to : (n : ℕ) (rows : List Row) → length (limit_to n rows) ≤ n
unfolding limit_to
length-limit_to zero rows = omega arith
length-limit_to (suc n) [] = omega arith
length-limit_to (suc n) (r ∷ rows) = omega (arith, length-limit_to n rows)

elem-limit_to :
    (id n : ℕ) (rows : List Row)
    → elem id (row_ids rows) ≡ false
    → elem id (row_ids (limit_to n rows)) ≡ false
unfolding limit_to
elem-limit_to id zero rows h = refl
elem-limit_to id (suc n) [] h = refl
elem-limit_to id (suc n) (r ∷ rows) h = ground (arith, elem-limit_to id n rows)

pub Distinct-limit_to :
    (n : ℕ) (rows : List Row) → Distinct (row_ids rows) → Distinct (row_ids (limit_to n rows))
unfolding limit_to
Distinct-limit_to zero rows d = tt
Distinct-limit_to (suc n) [] d = tt
Distinct-limit_to (suc n) (r ∷ rows) d =
    (elem-limit_to r.id n rows d.0, Distinct-limit_to n rows d.1)

pub find-limit_to :
    (id n : ℕ) (rows : List Row) (r : Row)
    → find id (limit_to n rows) ≡ some r
    → find id rows ≡ some r
unfolding limit_to
find-limit_to id zero rows r h = cc
find-limit_to id (suc n) [] r h = cc
find-limit_to id (suc n) (q ∷ rows) r h = ground (arith, find-limit_to id n rows r)

All-limit_to : (P : Row → Type 0) (n : ℕ) (rows : List Row) → All P rows → All P (limit_to n rows)
unfolding limit_to
All-limit_to P zero rows all = tt
All-limit_to P (suc n) [] all = tt
All-limit_to P (suc n) (r ∷ rows) all = (all.0, All-limit_to P n rows all.1)

All-find :
    (P : Row → Bool) (id : ℕ) (rows : List Row) (r : Row)
    → All (λ q. P q ≡ false) rows
    → find id rows ≡ some r
    → P r ≡ false
All-find P id [] r all h = cc
All-find P id (q ∷ rows) r all h = elim (Bool-cases (nat_beq q.id id)) [
  | inl here ↦ ground (arith, all.0)
  | inr there ↦ All-find P id rows r all.1 (ground arith)
]

pub limit_to_all :
    (n j : ℕ) (rows : List Row)
    → length (limit_to n rows) < n
    → find j (limit_to n rows) ≡ find j rows
unfolding limit_to
limit_to_all zero j rows h = absurd (omega arith)
limit_to_all (suc n) j [] h = refl
limit_to_all (suc n) j (r ∷ rows) h = ground (arith, limit_to_all n j rows (omega arith))

module _ (before : Row → Row → Bool) where
  elem-insert :
      (id : JobId) (r : Row) (rows : List Row)
      → elem id (row_ids (insert_by before r rows)) ≡ elem id (row_ids (r ∷ rows))
  unfolding insert_by
  elem-insert id r [] = refl
  elem-insert id r (q ∷ rows) = ground (arith, elem-insert id r rows)

  find-insert :
      (id : JobId) (r : Row) (rows : List Row)
      → Distinct (row_ids (r ∷ rows))
      → find id (insert_by before r rows) ≡ find id (r ∷ rows)
  unfolding insert_by
  find-insert id r [] d = refl
  find-insert id r (q ∷ rows) d = ground (
    arith,
    find-insert id r rows (ground arith, d.1.1),
    nat_beq_iff r.id id,
    nat_beq_iff q.id id,
    nat_beq_iff q.id r.id,
    d.0,
  )

  Distinct-insert :
      (r : Row) (rows : List Row)
      → Distinct (row_ids (r ∷ rows))
      → Distinct (row_ids (insert_by before r rows))
  unfolding insert_by
  Distinct-insert r [] d = d
  Distinct-insert r (q ∷ rows) d = elim (Bool-cases (before q r)) [
    | inl after ↦ rw after (
      ground (
        arith,
        elem-insert q.id r rows,
        d.1.0,
        d.0,
        nat_beq_iff r.id q.id,
        nat_beq_iff q.id r.id,
      ),
      Distinct-insert r rows (ground arith, d.1.1),
    )
    | inr before ↦ rw before d
  ]

  pub elem-order_by :
      (id : JobId) (rows : List Row)
      → elem id (row_ids (order_by before rows)) ≡ elem id (row_ids rows)
  unfolding order_by
  elem-order_by id [] = refl
  elem-order_by id (r ∷ rows) =
      ground (arith, elem-insert id r (order_by before rows), elem-order_by id rows)

  pub Distinct-order_by :
      (rows : List Row) → Distinct (row_ids rows) → Distinct (row_ids (order_by before rows))
  unfolding order_by
  Distinct-order_by [] d = tt
  Distinct-order_by (r ∷ rows) d =
      Distinct-insert r (order_by before rows)
        (ground (arith, elem-order_by r.id rows, d.0), Distinct-order_by rows d.1)

  pub find-order_by :
      (id : JobId) (rows : List Row)
      → Distinct (row_ids rows)
      → find id (order_by before rows) ≡ find id rows
  unfolding order_by
  find-order_by id [] d = refl
  find-order_by id (r ∷ rows) d = ground (
    arith,
    find-insert id r (order_by before rows)
        (ground (arith, elem-order_by r.id rows, d.0), Distinct-order_by rows d.1),
    find-order_by id rows d.1,
  )

  pub length-insert :
      (r : Row) (rows : List Row) → length (insert_by before r rows) ≡ suc (length rows)
  unfolding insert_by
  length-insert r [] = refl
  length-insert r (q ∷ rows) = ground (arith, length-insert r rows)

  pub length-order_by : (rows : List Row) → length (order_by before rows) ≡ length rows
  unfolding order_by
  length-order_by [] = refl
  length-order_by (r ∷ rows) =
      omega (arith, length-insert r (order_by before rows), length-order_by rows)

  -- No row stands after one that it precedes.
  abbrev pub Sorted : List Row → Type 0
  Sorted [] = Unit {0}
  Sorted (r ∷ rows) = All (λ q. before q r ≡ false) rows × Sorted rows

  pub limit_to-Sorted : (n : ℕ) (rows : List Row) → Sorted rows → Sorted (limit_to n rows)
  unfolding limit_to
  limit_to-Sorted zero rows s = tt
  limit_to-Sorted (suc n) [] s = tt
  limit_to-Sorted (suc n) (r ∷ rows) s = (All-limit_to _ n rows s.0, limit_to-Sorted n rows s.1)

  -- In a sorted list, a row within the limit is not after one beyond it, and beyond it stands nothing
  -- unless the limit is reached.
  pub limit_to_first :
      (n id j : ℕ) (rows : List Row) (r q : Row)
      → Sorted rows
      → find id (limit_to n rows) ≡ some r
      → find j rows ≡ some q
      → find j (limit_to n rows) ≡ none
      → before q r ≡ false
  unfolding limit_to
  limit_to_first zero id j rows r q s h k out = cc
  limit_to_first (suc n) id j [] r q s h k out = cc
  limit_to_first (suc n) id j (t ∷ rows) r q s h k out = elim (Bool-cases (nat_beq t.id id)) [
    | inl here ↦ ground (arith, All-find (λ u. before u t) j rows q s.0)
    | inr there ↦ limit_to_first n id j rows r q s.1 (ground arith) (ground arith) (ground arith)
  ]

  module _ (asym : (r q : Row) → before r q ≡ true → before q r ≡ false)
      (not_trans : (r q t : Row)
        → before q r ≡ false
        → before t q ≡ false
        → before t r ≡ false) where
    All-insert :
        (q r : Row) (rows : List Row)
        → before r q ≡ false
        → All (λ t. before t q ≡ false) rows
        → All (λ t. before t q ≡ false) (insert_by before r rows)
    unfolding insert_by
    All-insert q r [] h all = (h, tt)
    All-insert q r (t ∷ rows) h all = elim (Bool-cases (before t r)) [
      | inl after ↦ rw after (all.0, All-insert q r rows h all.1)
      | inr before ↦ rw before (h, all)
    ]

    All-not_trans :
        (r q : Row) (rows : List Row)
        → before q r ≡ false
        → All (λ t. before t q ≡ false) rows
        → All (λ t. before t r ≡ false) rows
    All-not_trans r q [] h all = tt
    All-not_trans r q (t ∷ rows) h all = (not_trans r q t h all.0, All-not_trans r q rows h all.1)

    insert-Sorted : (r : Row) (rows : List Row) → Sorted rows → Sorted (insert_by before r rows)
    unfolding insert_by
    insert-Sorted r [] s = (tt, tt)
    insert-Sorted r (q ∷ rows) s = elim (Bool-cases (before q r)) [
      | inl after ↦ rw after (All-insert q r rows (asym q r after) s.0, insert-Sorted r rows s.1)
      | inr before ↦ rw before ((before, All-not_trans r q rows before s.0), s)
    ]

    pub order_by-Sorted : (rows : List Row) → Sorted (order_by before rows)
    unfolding order_by
    order_by-Sorted [] = tt
    order_by-Sorted (r ∷ rows) = insert-Sorted r (order_by before rows) (order_by-Sorted rows)
