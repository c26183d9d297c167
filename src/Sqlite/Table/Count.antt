-- ===== src/Sqlite/Table/Count.antt =====
-- An UPDATE of listed identifiers that all are in the table affects as many rows as are listed.
use outbox.Base.{
  ℕ, ◌+◌, ◌≡◌, refl, Bool, false, ◌&&◌, List, [], ◌∷◌, if◌then◌else◌, elem, nat_eq, nat_beq,
  nat_beq_iff, arith, some, none, Option,
}
use outbox.Core.Model.{JobId}
use outbox.Core.Batch.Identifiers.{Distinct}
use outbox.Sqlite.Table.{Row, row_ids, find, count_where}

count_none :
    (i : JobId) (p : Row → Bool) (rows : List Row)
    → elem i (row_ids rows) ≡ false
    → count_where (λ r. nat_beq i r.id && p r) rows ≡ 0
unfolding count_where
count_none i p [] h = refl
count_none i p (r ∷ rows) h =
    ground (arith, count_none i p rows, nat_beq_iff i r.id, nat_beq_iff r.id i)

-- The row of one identifier, if it satisfies the condition.
abbrev pub one_if : Option Row → (Row → Bool) → ℕ
one_if none p = 0
one_if (some r) p = if p r then 1 else 0

count_one :
    (i : JobId) (p : Row → Bool) (rows : List Row)
    → Distinct (row_ids rows)
    → count_where (λ r. nat_beq i r.id && p r) rows ≡ one_if (find i rows) p
unfolding count_where
count_one i p [] d = refl
count_one i p (r ∷ rows) d = ground (
  arith,
  count_one i p rows d.1,
  count_none i p rows,
  nat_beq_iff i r.id,
  nat_beq_iff r.id i,
  d.0,
)

count_split :
    (i : JobId) (ids : List JobId) (p : Row → Bool) (rows : List Row)
    → elem i ids ≡ false
    → count_where (λ r. elem r.id (i ∷ ids) && p r) rows
      ≡ count_where (λ r. nat_beq i r.id && p r) rows + count_where (λ r. elem r.id ids && p r) rows
unfolding count_where
count_split i ids p [] h = omega arith
count_split i ids p (r ∷ rows) h = ground (arith, count_split i ids p rows h, nat_beq_iff i r.id)

-- The sum over the identifiers.
abbrev pub count_each : List JobId → (Row → Bool) → List Row → ℕ
count_each [] p rows = 0
count_each (i ∷ ids) p rows = one_if (find i rows) p + count_each ids p rows

count_nothing : (p : Row → Bool) (rows : List Row) → count_where (λ r. elem r.id [] && p r) rows ≡ 0
unfolding count_where
count_nothing p [] = refl
count_nothing p (r ∷ rows) = count_nothing p rows

pub count_where-each :
    (ids : List JobId) (p : Row → Bool) (rows : List Row)
    → Distinct ids
    → Distinct (row_ids rows)
    → count_where (λ r. elem r.id ids && p r) rows ≡ count_each ids p rows
count_where-each [] p rows d e = count_nothing p rows
count_where-each (i ∷ ids) p rows d e =
    omega
      (arith, count_split i ids p rows d.0, count_one i p rows e, count_where-each ids p rows d.1 e)

pub count_where-cong :
    (p q : Row → Bool) (rows : List Row)
    → ((r : Row) → p r ≡ q r)
    → count_where p rows ≡ count_where q rows
unfolding count_where
count_where-cong p q [] same = refl
count_where-cong p q (r ∷ rows) same = ground (arith, same r, count_where-cong p q rows same)
