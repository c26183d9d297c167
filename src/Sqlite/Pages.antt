-- ===== src/Sqlite/Pages.antt =====
-- The listing of backends/sqlite/repositories/jobsrepo: `ListPage` of pagination.go.
pub mod Descent
pub mod Traversal
use outbox.Base.{
  ℕ, zero, suc, Bool, true, false, ◌&&◌, ◌||◌, Option, none, some, List, [], ◌∷◌, ◌++◌,
  if◌then◌else◌, ltb, nat_beq,
}
use outbox.Base.Int.{ℤ, pos, pos_part, leb_ℤ}
use outbox.Core.Errors.{Time}
use outbox.Core.Model.{JobId, Job}
use outbox.Core.Retry.{Result, ok, err}
use outbox.Sqlite.Table.{Row, to_ms, where_rows, order_by, limit_to}
use outbox.Sqlite.Sql.{Db, Session, Faults, Sql, done, refuse, ◌>>=◌, query, next_ok}
use outbox.Sqlite.Jobs.{invalid_argument, scan_jobs}

pub record PageCursor : Type 0 where
  pub created_at : Time
  pub id : JobId

abbrev pub default_page_size : ℕ
default_page_size = 10

abbrev pub max_page_size : ℕ
max_page_size = 1000

-- The order of `ORDER BY created_at DESC, LOWER(id) DESC`
abbrev pub newer : Row → Row → Bool
newer r q =
    if nat_beq q.created_at r.created_at then ltb q.id r.id else ltb q.created_at r.created_at

-- `created_at < ? OR (created_at = ? AND LOWER(id) < ?)`
abbrev pub is_before : PageCursor → Row → Bool
is_before cursor r =
    ltb r.created_at (to_ms cursor.created_at)
    || (nat_beq r.created_at (to_ms cursor.created_at) && ltb r.id cursor.id)

abbrev pub candidates : Option PageCursor → List Row → List Row
candidates none rows = rows
candidates (some cursor) rows = where_rows (is_before cursor) rows

abbrev pub page_size : ℤ → ℕ
page_size limit = if leb_ℤ limit (pos 0) then default_page_size else pos_part limit

abbrev pub last_cursor : List Job → Option PageCursor
last_cursor [] = none
last_cursor (job ∷ []) = some (record { created_at = job.created_at; id = job.id })
last_cursor (job ∷ next ∷ jobs) = last_cursor (next ∷ jobs)

module _ (faults : Faults) where
  -- `ListPage`
  pub list_page : ℤ → Option PageCursor → Sql (List Job)
  list_page limit before =
      if ltb max_page_size (page_size limit)
      then refuse invalid_argument
      else (query faults
            (λ db. limit_to (page_size limit) (order_by newer (candidates before db.jobs)))
          >>= λ rows. done (scan_jobs rows))

  abbrev pub after_page : (Option PageCursor → Sql (List Job)) → List Job → Sql (List Job)
  after_page next [] = done []
  after_page next (job ∷ jobs) =
      next (last_cursor (job ∷ jobs)) >>= λ rest. done ((job ∷ jobs) ++ rest)

  -- The traversal that `ListPage` documents: the first page without a cursor, then from the last job of
  -- each page on, until a page is empty. `fuel` bounds the number of pages.
  pub traverse : ℕ → ℤ → Option PageCursor → Sql (List Job)
  unfolding list_page
  traverse zero limit before = done []
  traverse (suc fuel) limit before =
      list_page limit before >>= after_page (λ cursor. traverse fuel limit cursor)
