-- ===== src/Sqlite/Pages/Descent.antt =====
-- The order of the pages of backends/sqlite/repositories/jobsrepo/pagination.go, and what a cursor leaves of it.
use outbox.Base.{
  ◌++◌, ◌∙◌, ◌≡◌, true, false, List, [], ◌∷◌, nat_beq, nat_beq_iff, elem, nat_eq, arith, All,
}
use outbox.Core.Batch.Identifiers.{Distinct}
use outbox.Sqlite.Table.{where_rows, Row, from_ms, row_ids}
use outbox.Sqlite.Table.Filter.{where-All}
use outbox.Sqlite.Table.Order.{Sorted}
use outbox.Sqlite.Pages.{PageCursor, newer, is_before}

pub newer_asym : (r q : Row) → newer r q ≡ true → newer q r ≡ false
newer_asym r q h = ground (arith, nat_beq_iff r.created_at q.created_at)

pub newer_not_trans : (r q t : Row) → newer q r ≡ false → newer t q ≡ false → newer t r ≡ false
newer_not_trans r q t h k = ground arith

newer_total : (r q : Row) → nat_beq q.id r.id ≡ false → newer q r ≡ false → newer r q ≡ true
newer_total r q h k = ground arith

abbrev pub cursor_of : Row → PageCursor
cursor_of r = record { created_at = from_ms r.created_at; id = r.id }

is_before-newer : (r q : Row) → is_before (cursor_of r) q ≡ newer r q
is_before-newer r q = ground arith

-- Each row stands before those that follow it, strictly.
abbrev pub Descending : List Row → Type 0
Descending [] = Unit {0}
Descending (r ∷ rows) = All (λ q. newer r q ≡ true) rows × Descending rows

All-newer :
    (r : Row) (rows : List Row)
    → elem r.id (row_ids rows) ≡ false
    → All (λ q. newer q r ≡ false) rows
    → All (λ q. newer r q ≡ true) rows
All-newer r [] h all = tt
All-newer r (q ∷ rows) h all =
    (newer_total r q (ground arith) all.0, All-newer r rows (ground arith) all.1)

pub Sorted-Descending :
    (rows : List Row) → Distinct (row_ids rows) → Sorted newer rows → Descending rows
Sorted-Descending [] d s = tt
Sorted-Descending (r ∷ rows) d s = (All-newer r rows d.0 s.0, Sorted-Descending rows d.1 s.1)

All-mid : (P : Row → Type 0) (xs : List Row) (c : Row) (ys : List Row) → All P (xs ++ c ∷ ys) → P c
All-mid P [] c ys all = all.0
All-mid P (x ∷ xs) c ys all = All-mid P xs c ys all.1

newer_self : (r : Row) → newer r r ≡ false
newer_self r = ground arith

All-before :
    (c : Row) (rows : List Row)
    → All (λ q. newer c q ≡ true) rows
    → All (λ q. is_before (cursor_of c) q ≡ true) rows
All-before c [] all = tt
All-before c (q ∷ rows) all = (is_before-newer c q ∙ all.0, All-before c rows all.1)

-- What a cursor leaves: the rows behind the row that it was taken from.
pub after_cursor :
    (xs : List Row) (c : Row) (ys : List Row)
    → Descending (xs ++ c ∷ ys)
    → where_rows (is_before (cursor_of c)) (xs ++ c ∷ ys) ≡ ys
unfolding where_rows
after_cursor [] c ys d = ground (
  arith,
  is_before-newer c c,
  newer_self c,
  where-All (is_before (cursor_of c)) ys (All-before c ys d.0),
)
after_cursor (x ∷ xs) c ys d = ground (
  arith,
  is_before-newer c x,
  newer_asym x c (All-mid (λ q. newer x q ≡ true) xs c ys d.0),
  after_cursor xs c ys d.1,
)
