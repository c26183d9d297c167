-- ===== src/Sqlite/Outcomes/Inputs.antt =====
-- The rows of `input` of `ApplyBatchJobOutcomes`, backends/sqlite/repositories/jobsrepo/api.go.
use outbox.Base.{
  ◌+◌, ◌≤◌, ◌≡◌, refl, Bool, true, false, not, Option, none, some, List, [], ◌∷◌, elem, nat_eq,
  nat_beq_iff, length, arith, Bool-cases, inl, inr,
}
use outbox.Base.Dict.{Dict, contains, insert, lookup-insert}
use outbox.Core.Model.{JobId}
use outbox.Core.Batch.{Outcome, success, retry, defer, dlq, BatchJobOutcome}
use outbox.Core.Batch.Identifiers.{Distinct}
use outbox.Sqlite.Table.{Row, find}
use outbox.Sqlite.Table.Count.{one_if, count_each}
use outbox.Sqlite.Outcomes.{is_terminal, is_pending, ids_where, input_of, validate_items}

is_pending-terminal : (k : Outcome) → is_pending k ≡ not (is_terminal k)
is_pending-terminal success = refl
is_pending-terminal (retry at) = refl
is_pending-terminal (defer at) = refl
is_pending-terminal (dlq reason) = refl

pub length-ids_where :
    (outcomes : List BatchJobOutcome)
    → length (ids_where is_terminal outcomes) + length (ids_where is_pending outcomes)
      ≡ length outcomes
length-ids_where [] = refl
length-ids_where (o ∷ outcomes) =
    ground (arith, is_pending-terminal o.kind, length-ids_where outcomes)

module _ (p : Outcome → Bool) where
  pub elem-ids_where :
      (id : JobId) (k : Outcome) (outcomes : List BatchJobOutcome)
      → input_of id outcomes ≡ some k
      → p k ≡ true
      → elem id (ids_where p outcomes) ≡ true
  elem-ids_where id k [] h e = cc
  elem-ids_where id k (o ∷ outcomes) h e =
      ground (arith, nat_beq_iff o.job_id id, nat_beq_iff id o.job_id, elem-ids_where id k outcomes)

  pub ids_where-none :
      (id : JobId) (outcomes : List BatchJobOutcome)
      → input_of id outcomes ≡ none
      → elem id (ids_where p outcomes) ≡ false
  ids_where-none id [] h = refl
  ids_where-none id (o ∷ outcomes) h =
      ground (arith, nat_beq_iff o.job_id id, nat_beq_iff id o.job_id, ids_where-none id outcomes)

  ids_where-seen :
      (outcomes : List BatchJobOutcome) (seen : Dict JobId Bool) (id : JobId)
      → validate_items outcomes seen ≡ none
      → contains id seen ≡ true
      → elem id (ids_where p outcomes) ≡ false
  unfolding validate_items
  ids_where-seen [] seen id h e = refl
  ids_where-seen (o ∷ outcomes) seen id h e = ground (
    arith,
    nat_beq_iff o.job_id id,
    lookup-insert o.job_id id true seen,
    ids_where-seen outcomes (insert o.job_id true seen) id,
  )

  pub ids_where-Distinct :
      (outcomes : List BatchJobOutcome) (seen : Dict JobId Bool)
      → validate_items outcomes seen ≡ none
      → Distinct (ids_where p outcomes)
  unfolding validate_items
  ids_where-Distinct [] seen h = tt
  ids_where-Distinct (o ∷ outcomes) seen h =
      let next : validate_items outcomes (insert o.job_id true seen) ≡ none = ground arith in
      let rest = ids_where-Distinct outcomes (insert o.job_id true seen) next in
      elim (Bool-cases (p o.kind)) [
        | inr other ↦ rw other rest
        | inl one ↦ rw one (
          ids_where-seen outcomes (insert o.job_id true seen) o.job_id next (
              ground
                (arith, nat_beq_iff o.job_id o.job_id, lookup-insert o.job_id o.job_id true seen)),
          rest,
        )
      ]

one_if-le : (o : Option Row) (p : Row → Bool) → one_if o p ≤ 1
one_if-le none p = omega arith
one_if-le (some r) p = ground arith

pub count_each-le :
    (ids : List JobId) (p : Row → Bool) (rows : List Row) → count_each ids p rows ≤ length ids
count_each-le [] p rows = omega arith
count_each-le (i ∷ ids) p rows = omega (arith, one_if-le (find i rows) p, count_each-le ids p rows)

-- Where the count is full, each identifier counts.
pub count_each-full :
    (ids : List JobId) (p : Row → Bool) (rows : List Row) (id : JobId)
    → length ids ≤ count_each ids p rows
    → elem id ids ≡ true
    → one_if (find id rows) p ≡ 1
count_each-full [] p rows id h e = cc
count_each-full (i ∷ ids) p rows id h e =
    let here : one_if (find i rows) p ≡ 1 =
      omega (arith, h, one_if-le (find i rows) p, count_each-le ids p rows) in
    let rest : length ids ≤ count_each ids p rows =
      omega (arith, h, one_if-le (find i rows) p, count_each-le ids p rows) in
    ground (arith, nat_beq_iff i id, count_each-full ids p rows id rest)

pub one_if-found :
    (o : Option Row) (p : Row → Bool) → one_if o p ≡ 1 → (r : Row) × (o ≡ some r) × (p r ≡ true)
one_if-found none p h = cc
one_if-found (some r) p h = (r, refl, ground arith)
