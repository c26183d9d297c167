-- ===== src/Sqlite/Integrity/Tables.antt =====
-- INSERT, UPDATE and DELETE on `jobs` and INSERT on the registry keep the tables sound.
use mathlib.Core.Path.{subst}
use outbox.Base.{
  ◌≡◌, refl, sym, Bool, true, false, ◌||◌, Option, none, some, List, [], ◌∷◌, ◌++◌, if◌then◌else◌,
  Text, text_eq, is_some, elem, nat_eq, nat_beq, nat_beq_iff, arith, All, All-append, All-map,
  Bool-cases, inl, inr,
}
use outbox.Core.Model.{JobId}
use outbox.Core.Batch.Identifiers.{Distinct}
use outbox.Sqlite.Table.{Row, row_ids, update_where, delete_where}
use outbox.Sqlite.Table.Find.{row_ids-update, Distinct-delete}
use outbox.Sqlite.Sql.{Db, KeyRow}
use outbox.Sqlite.Jobs.{update_jobs, delete_jobs, insert_job, any_row, has_key}
use outbox.Sqlite.Keys.{find_key, insert_key, has_job}
use outbox.Sqlite.Integrity.{IsRegisteredAs, IsRegistered, IsSound}

All-update :
    (keys : List KeyRow) (p : Row → Bool) (f : Row → Row) (rows : List Row)
    → ((r : Row) → (f r).id ≡ r.id)
    → ((r : Row) → (f r).deduplication_key ≡ r.deduplication_key)
    → All (IsRegistered keys) rows
    → All (IsRegistered keys) (update_where p f rows)
unfolding update_where
All-update keys p f [] same key all = tt
All-update keys p f (r ∷ rows) same key all = (go (p r), All-update keys p f rows same key all.1)
  where
    go : (b : Bool) → IsRegistered keys (if b then f r else r)
    go true =
        subst (λ i. IsRegisteredAs keys i (f r).deduplication_key) (sym (same r))
          (subst (IsRegisteredAs keys r.id) (sym (key r)) all.0)
    go false = all.0

All-delete :
    (P : Row → Type 0) (p : Row → Bool) (rows : List Row) → All P rows → All P (delete_where p rows)
unfolding delete_where
All-delete P p [] all = tt
All-delete P p (r ∷ rows) all = elim (Bool-cases (p r)) [
  | inl gone ↦ rw gone (All-delete P p rows all.1)
  | inr kept ↦ rw kept (all.0, All-delete P p rows all.1)
]

pub update_jobs-IsSound :
    (p : Row → Bool) (f : Row → Row) (db : Db)
    → ((r : Row) → (f r).id ≡ r.id)
    → ((r : Row) → (f r).deduplication_key ≡ r.deduplication_key)
    → IsSound db
    → IsSound (update_jobs p f db).1
update_jobs-IsSound p f db same key (d, all) = (
  subst Distinct (sym (row_ids-update p f db.jobs same)) d,
  All-update db.keys p f db.jobs same key all,
)

pub delete_jobs-IsSound : (p : Row → Bool) (db : Db) → IsSound db → IsSound (delete_jobs p db).1
delete_jobs-IsSound p db (d, all) =
    (Distinct-delete p db.jobs d, All-delete (IsRegistered db.keys) p db.jobs all)

elem-snoc :
    (id : JobId) (rows : List Row) (r : Row)
    → elem id (row_ids rows) ≡ false
    → nat_beq r.id id ≡ false
    → elem id (row_ids (rows ++ r ∷ [])) ≡ false
elem-snoc id [] r h e = ground arith
elem-snoc id (q ∷ rows) r h e = ground (arith, elem-snoc id rows r)

Distinct-snoc :
    (rows : List Row) (r : Row)
    → Distinct (row_ids rows)
    → elem r.id (row_ids rows) ≡ false
    → Distinct (row_ids (rows ++ r ∷ []))
Distinct-snoc [] r d h = (refl, tt)
Distinct-snoc (q ∷ rows) r d h = (
  elem-snoc q.id rows r d.0 (ground (arith, nat_beq_iff q.id r.id, nat_beq_iff r.id q.id)),
  Distinct-snoc rows r d.1 (ground arith),
)

pub keys_insert_job : (r : Row) (db : Db) → (insert_job r db).1.keys ≡ db.keys
keys_insert_job r db =
    elim (Bool-cases
      (elem r.id (row_ids db.jobs) || any_row (has_key r.deduplication_key) db.jobs)) [
        | inl taken ↦ rw taken refl
        | inr free ↦ rw free refl
      ]

pub insert_job-IsSound :
    (r : Row) (db : Db) → IsRegistered db.keys r → IsSound db → IsSound (insert_job r db).1
insert_job-IsSound r db new (d, all) =
    elim (Bool-cases
      (elem r.id (row_ids db.jobs) || any_row (has_key r.deduplication_key) db.jobs)) [
        | inl taken ↦ rw taken (d, all)
        | inr free ↦ rw free (
          Distinct-snoc db.jobs r d (ground arith),
          All-append (IsRegistered db.keys) db.jobs (r ∷ []) all (new, tt),
        )
      ]

find_key-snoc :
    (key : Text) (keys : List KeyRow) (k j : KeyRow)
    → find_key key keys ≡ some k
    → find_key key (keys ++ j ∷ []) ≡ some k
find_key-snoc key [] k j h = cc
find_key-snoc key (i ∷ keys) k j h = ground (arith, find_key-snoc key keys k j)

IsRegisteredAs-snoc :
    (keys : List KeyRow) (j : KeyRow) (id : JobId) (o : Option Text)
    → IsRegisteredAs keys id o
    → IsRegisteredAs (keys ++ j ∷ []) id o
IsRegisteredAs-snoc keys j id none h = tt
IsRegisteredAs-snoc keys j id (some key) (k, found, same) =
    (k, find_key-snoc key keys k j found, same)

pub insert_key-IsSound : (k : KeyRow) (db : Db) → IsSound db → IsSound (insert_key k db).1
insert_key-IsSound k db (d, all) =
    elim (Bool-cases (is_some (find_key k.deduplication_key db.keys))) [
      | inl known ↦ rw known (d, all)
      | inr new ↦ elim (Bool-cases (has_job k.job_id db.keys)) [
        | inl taken ↦ rw new (rw taken (d, all))
        | inr free ↦ rw new (
            rw free (
              d,
              All-map (IsRegistered db.keys) _ db.jobs
                  (λ r. IsRegisteredAs-snoc db.keys k r.id r.deduplication_key) all,
            ))
      ]
    ]
