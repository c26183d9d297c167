-- ===== src/Sqlite/Table/Find.antt =====
-- What the clauses do to the row of an identifier, in tables without repeated identifiers.
use outbox.Base.{
  ◌≡◌, refl, Bool, true, false, Option, none, some, List, [], ◌∷◌, if◌then◌else◌, elem, nat_eq,
  nat_beq, nat_beq_iff, arith, Bool-cases, inl, inr, not,
}
use outbox.Core.Model.{JobId}
use outbox.Core.Batch.Identifiers.{Distinct}
use outbox.Sqlite.Table.{Row, row_ids, find, where_rows, update_where, delete_where}

abbrev pub if_found : Option Row → (Row → Bool) → (Row → Row) → Option Row
if_found none p f = none
if_found (some r) p f = some (if p r then f r else r)

abbrev pub unless_found : Option Row → (Row → Bool) → Option Row
unless_found none p = none
unless_found (some r) p = if p r then none else some r

pub unless_found-some :
    (o : Option Row) (p : Row → Bool) (r : Row)
    → unless_found o p ≡ some r
    → (o ≡ some r) × (p r ≡ false)
unless_found-some none p r h = cc
unless_found-some (some q) p r h = ground arith

pub find-elem :
    (id : JobId) (rows : List Row) (r : Row) → find id rows ≡ some r → elem id (row_ids rows) ≡ true
find-elem id [] r h = cc
find-elem id (q ∷ rows) r h = ground (arith, find-elem id rows r)

pub find-id : (id : JobId) (rows : List Row) (r : Row) → find id rows ≡ some r → r.id ≡ id
find-id id [] r h = cc
find-id id (q ∷ rows) r h = ground (arith, nat_beq_iff q.id id, find-id id rows r)

pub find-none :
    (id : JobId) (rows : List Row) → elem id (row_ids rows) ≡ false → find id rows ≡ none
find-none id [] h = refl
find-none id (q ∷ rows) h = ground (arith, find-none id rows)

pub elem-find :
    (id : JobId) (rows : List Row)
    → elem id (row_ids rows) ≡ true
    → (r : Row) × (find id rows ≡ some r)
elem-find id [] h = cc
elem-find id (q ∷ rows) h = elim (Bool-cases (nat_beq q.id id)) [
  | inl here ↦ (q, rw here refl)
  | inr there ↦ let (r, found) = elem-find id rows (ground arith) in (r, rw there found)
]

module _ (p : Row → Bool) where
  pub find-update :
      (f : Row → Row) (id : JobId) (rows : List Row)
      → ((r : Row) → (f r).id ≡ r.id)
      → find id (update_where p f rows) ≡ if_found (find id rows) p f
  unfolding update_where
  find-update f id [] keeps = refl
  find-update f id (r ∷ rows) keeps = ground (arith, keeps r, find-update f id rows keeps)

  pub row_ids-update :
      (f : Row → Row) (rows : List Row)
      → ((r : Row) → (f r).id ≡ r.id)
      → row_ids (update_where p f rows) ≡ row_ids rows
  unfolding update_where
  row_ids-update f [] keeps = refl
  row_ids-update f (r ∷ rows) keeps = ground (arith, keeps r, row_ids-update f rows keeps)

  pub elem-delete :
      (id : JobId) (rows : List Row)
      → elem id (row_ids rows) ≡ false
      → elem id (row_ids (delete_where p rows)) ≡ false
  unfolding delete_where
  elem-delete id [] h = refl
  elem-delete id (r ∷ rows) h = ground (arith, elem-delete id rows)

  pub find-delete :
      (id : JobId) (rows : List Row)
      → Distinct (row_ids rows)
      → find id (delete_where p rows) ≡ unless_found (find id rows) p
  unfolding delete_where
  find-delete id [] d = refl
  find-delete id (r ∷ rows) d =
      ground (arith, find-delete id rows d.1, find-none id rows, d.0, nat_beq_iff r.id id)

  pub Distinct-delete :
      (rows : List Row) → Distinct (row_ids rows) → Distinct (row_ids (delete_where p rows))
  unfolding delete_where
  Distinct-delete [] d = tt
  Distinct-delete (r ∷ rows) d = elim (Bool-cases (p r)) [
    | inl gone ↦ rw gone (Distinct-delete rows d.1)
    | inr kept ↦ rw kept (elem-delete r.id rows d.0, Distinct-delete rows d.1)
  ]

  pub elem-where :
      (id : JobId) (rows : List Row)
      → elem id (row_ids rows) ≡ false
      → elem id (row_ids (where_rows p rows)) ≡ false
  unfolding where_rows
  elem-where id [] h = refl
  elem-where id (r ∷ rows) h = ground (arith, elem-where id rows)

  pub find-where :
      (id : JobId) (rows : List Row)
      → Distinct (row_ids rows)
      → find id (where_rows p rows) ≡ unless_found (find id rows) (λ r. not (p r))
  unfolding where_rows
  find-where id [] d = refl
  find-where id (r ∷ rows) d =
      ground (arith, find-where id rows d.1, find-none id rows, d.0, nat_beq_iff r.id id)

  pub Distinct-where :
      (rows : List Row) → Distinct (row_ids rows) → Distinct (row_ids (where_rows p rows))
  unfolding where_rows
  Distinct-where [] d = tt
  Distinct-where (r ∷ rows) d = elim (Bool-cases (p r)) [
    | inl kept ↦ rw kept (elem-where r.id rows d.0, Distinct-where rows d.1)
    | inr gone ↦ rw gone (Distinct-where rows d.1)
  ]
