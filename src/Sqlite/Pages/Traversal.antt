-- ===== src/Sqlite/Pages/Traversal.antt =====
-- `ListPage` of backends/sqlite/repositories/jobsrepo/pagination.go, page after page.
use mathlib.Core.Path.{subst}
use mathlib.Core.List.{append_assoc}
use outbox.Base.{
  refl, length, ◌++◌, zero, suc, ap, sym, ◌∙◌, ◌<◌, some, none, Option, ◌≤◌, ℕ, ◌≡◌, List, [], ◌∷◌,
  nat_eq, arith,
}
use outbox.Core.Batch.Identifiers.{Distinct}
use outbox.Sqlite.Pages.Descent.{
  newer_asym, newer_not_trans, cursor_of, Descending, Sorted-Descending, after_cursor,
}
use outbox.Sqlite.Table.{find, where_rows, limit_to, order_by, scan_job, Row, row_ids}
use outbox.Sqlite.Table.Filter.{where-order_by}
use outbox.Sqlite.Table.Order.{order_by-Sorted, Distinct-order_by, length-order_by, find-order_by}
use outbox.Sqlite.Pages.{
  JobId, last_cursor, PageCursor, newer, is_before, candidates, page_size, max_page_size, list_page,
  after_page, traverse,
}
use outbox.Sqlite.Jobs.{scan_jobs}
use outbox.Sqlite.Sql.Success.{no_faults}
use outbox.Sqlite.Sql.{next_ok, next_ok, Session, Sql, ◌>>=◌, done, counted}
use outbox.Core.Retry.{ok}
use outbox.Base.Int.{ℤ}

scan_jobs-append : (xs ys : List Row) → scan_jobs (xs ++ ys) ≡ scan_jobs xs ++ scan_jobs ys
scan_jobs-append [] ys = refl
scan_jobs-append (x ∷ xs) ys = ap (λ l. scan_job x ∷ l) (scan_jobs-append xs ys)

-- A page ends with a row `c`; the cursor is that row's, and fewer rows are left.
abbrev Split : ℕ → List Row → Type 0
Split n rows =
    (xs : List Row) × (c : Row) × (ys : List Row) × (limit_to n rows ≡ xs ++ c ∷ [])
    × (rows ≡ xs ++ c ∷ ys)
    × (last_cursor (scan_jobs (limit_to n rows)) ≡ some (cursor_of c))
    × (length ys < length rows)

split : (k : ℕ) (r : Row) (rows : List Row) → Split (suc k) (r ∷ rows)
unfolding limit_to
split zero r rows = ([], r, rows, refl, refl, refl, omega arith)
split (suc k) r [] = ([], r, [], refl, refl, refl, omega arith)
split (suc k) r (q ∷ rows) =
    let (xs, c, ys, page, all, cursor, less) = split k q rows in
    (r ∷ xs, c, ys, ap (λ l. r ∷ l) page, ap (λ l. r ∷ l) all, cursor, omega (arith, less))

then_ok :
    {A B : Type 0} (m : Sql A) (f : A → B) (s : Session) (a : A)
    → (m s).0 ≡ ok a
    → ((m >>= λ x. done (f x)) s).0 ≡ ok (f a)
then_ok m f s a h = rw h refl

page_size-positive : (limit : ℤ) → 0 < page_size limit
page_size-positive limit = ground arith

page_size-suc : (limit : ℤ) → (k : ℕ) × (page_size limit ≡ suc k)
page_size-suc limit = go (page_size limit) (page_size-positive limit)
  where
    go : (n : ℕ) → 0 < n → (k : ℕ) × (n ≡ suc k)
    go zero h = absurd (omega (arith, h))
    go (suc n) h = (n, refl)

list_page-answer :
    (limit : ℤ) (before : Option PageCursor) (s : Session)
    → page_size limit ≤ max_page_size
    → list_page no_faults limit before s ≡ (
      ok (scan_jobs (limit_to (page_size limit) (order_by newer (candidates before s.db.jobs)))),
      counted s,
    )
unfolding list_page
list_page-answer limit before s h = ground arith

-- A page and what is left after it make up the rows.
split_whole :
    (page rows xs : List Row) (c : Row) (ys : List Row)
    → page ≡ xs ++ c ∷ []
    → rows ≡ xs ++ c ∷ ys
    → scan_jobs page ++ scan_jobs ys ≡ scan_jobs rows
split_whole page rows xs c ys e e' =
    sym (scan_jobs-append page ys)
    ∙ ap scan_jobs (ap (λ p. p ++ ys) e ∙ append_assoc xs (c ∷ []) ys ∙ sym e')

limit_to_nil : (n : ℕ) → limit_to n [] ≡ []
unfolding limit_to
limit_to_nil zero = refl
limit_to_nil (suc n) = refl

module _ (limit : ℤ) (bounded : page_size limit ≤ max_page_size) (rows : List Row)
    (d : Distinct (row_ids rows)) where
  abbrev listing : List Row
  listing = order_by newer rows

  listing-Descending : Descending listing
  listing-Descending =
      Sorted-Descending listing (Distinct-order_by newer rows d)
        (order_by-Sorted newer newer_asym newer_not_trans rows)

  -- The rows behind a cursor that was taken from a row of the listing.
  candidates_after :
      (pre : List Row) (c : Row) (ys : List Row)
      → listing ≡ pre ++ c ∷ ys
      → order_by newer (candidates (some (cursor_of c)) rows) ≡ ys
  candidates_after pre c ys e =
      where-order_by newer newer_asym newer_not_trans (is_before (cursor_of c)) rows
      ∙ ap (where_rows (is_before (cursor_of c))) e
      ∙ after_cursor pre c ys (subst Descending e listing-Descending)

  page_of :
      (s : Session) (cursor : Option PageCursor) (left : List Row) (n : ℕ)
      → s.db.jobs ≡ rows
      → order_by newer (candidates cursor rows) ≡ left
      → page_size limit ≡ n
      → list_page no_faults limit cursor s ≡ (ok (scan_jobs (limit_to n left)), counted s)
  page_of s cursor left n same here size =
      list_page-answer limit cursor s bounded
      ∙ ap (λ l. (ok (scan_jobs l), counted s))
          (ap (λ l. limit_to (page_size limit) (order_by newer (candidates cursor l))) same
            ∙ ap (limit_to (page_size limit)) here
            ∙ ap (λ m. limit_to m left) size)

  traverse_rest :
      (fuel : ℕ) (s : Session) (cursor : Option PageCursor) (pre left : List Row)
      → s.db.jobs ≡ rows
      → listing ≡ pre ++ left
      → order_by newer (candidates cursor rows) ≡ left
      → length left < fuel
      → (traverse no_faults fuel limit cursor s).0 ≡ ok (scan_jobs left)
  unfolding traverse limit_to
  traverse_rest zero s cursor pre left same all here less = absurd (omega (arith, less))
  traverse_rest (suc fuel) s cursor pre [] same all here less =
      ap (λ x. (next_ok (after_page no_faults (λ c. traverse no_faults fuel limit c)) x.0 x.1).0)
        (page_of s cursor [] (page_size limit) same here refl
          ∙ ap (λ l. (ok (scan_jobs l), counted s)) (limit_to_nil (page_size limit)))
  traverse_rest (suc fuel) s cursor pre (r ∷ left) same all here less =
      let (k, size) = page_size-suc limit in
      let (xs, c, ys, page, whole, last, shorter) = split k r left in
      let now : listing ≡ (pre ++ xs) ++ c ∷ ys =
        all ∙ ap (λ l. pre ++ l) whole ∙ sym (append_assoc pre xs (c ∷ ys)) in
      let rest =
        traverse_rest fuel (counted s) (some (cursor_of c)) ((pre ++ xs) ++ c ∷ []) ys same
          (now ∙ sym (append_assoc (pre ++ xs) (c ∷ []) ys)) (candidates_after (pre ++ xs) c ys now)
          (omega (arith, shorter, less)) in
      ap
        (λ x.
          (next_ok (after_page no_faults (λ cursor. traverse no_faults fuel limit cursor)) x.0
            x.1).0)
        (page_of s cursor (r ∷ left) (suc k) same here size)
      ∙ then_ok
          (traverse no_faults fuel limit (last_cursor (scan_jobs (limit_to (suc k) (r ∷ left)))))
          (λ jobs. scan_jobs (limit_to (suc k) (r ∷ left)) ++ jobs) (counted s) (scan_jobs ys)
          (rw last rest)
      ∙ ap ok (split_whole (limit_to (suc k) (r ∷ left)) (r ∷ left) xs c ys page whole)

-- `ListPage` page by page until a page is empty, with a limit that it accepts, on a table without repeated
-- identifiers that does not change, and where no call of the engine fails: with more pages allowed than there
-- are rows, the traversal ends without an error and lists each row of the table once, newest first.
pub traverse_complete :
    (limit : ℤ) (fuel : ℕ) (s : Session)
    → page_size limit ≤ max_page_size
    → Distinct (row_ids s.db.jobs)
    → length s.db.jobs < fuel
    → (rows : List Row) × ((traverse no_faults fuel limit none s).0 ≡ ok (scan_jobs rows))
      × Descending rows
      × Distinct (row_ids rows)
      × ((id : JobId) → find id rows ≡ find id s.db.jobs)
traverse_complete limit fuel s bounded d enough = (
  order_by newer s.db.jobs,
  traverse_rest limit bounded s.db.jobs d fuel s none [] (order_by newer s.db.jobs) refl refl refl
      (omega (arith, length-order_by newer s.db.jobs, enough)),
  listing-Descending limit bounded s.db.jobs d,
  Distinct-order_by newer s.db.jobs d,
  λ id. find-order_by newer id s.db.jobs d,
)
