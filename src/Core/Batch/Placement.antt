-- ===== src/Core/Batch/Placement.antt =====
-- The second loop of `validateBatchResult`: each error is written at the position of its input.
use outbox.Base.{
  elem, ℕ, zero, suc, ◌≡◌, refl, Bool, true, false, Option, none, some, List, [], ◌∷◌,
  if◌then◌else◌, length, length-set, set, get_elem?, ◌==◌, nat_eq, nat_beq, nat_beq_iff, arith,
  Bool-cases, Option-cases, inl, inr,
}
use outbox.Base.Dict.{Dict, lookup, contains, insert, lookup-insert}
use outbox.Core.Errors.{Error}
use outbox.Core.Model.{JobId}
use outbox.Core.Retry.{ok}
use outbox.Core.Batch.{BatchItemResult, BatchResult, place_results}
use outbox.Core.Batch.Identifiers.{Distinct}
use outbox.Core.Batch.Results.{IsIndex, result_ids}

-- The error that a result gives for an input.
pub error_for : JobId → BatchResult → Option Error
error_for id [] = none
error_for id (item ∷ items) = if item.job_id == id then item.error else error_for id items

get_elem?-set :
    {A : Type 0} (xs : List A) (i j : ℕ) (v : A)
    → get_elem? (set xs i v) j ≡ (
        if nat_beq i j
        then (elim (get_elem? xs j) [ none ↦ none | some _ ↦ some v ])
        else get_elem? xs j)
get_elem?-set [] i j v = ground arith
get_elem?-set (x ∷ xs) zero zero v = refl
get_elem?-set (x ∷ xs) zero (suc j) v = ground arith
get_elem?-set (x ∷ xs) (suc i) zero v = ground arith
get_elem?-set (x ∷ xs) (suc i) (suc j) v = ground (arith, get_elem?-set xs i j v)

module _ (positions : Dict JobId ℕ) where
  -- What one round of the loop has checked.
  place_step :
      (item : BatchItemResult) (items : BatchResult) (seen : Dict JobId Bool)
      (errs out : List (Option Error))
      → place_results positions (item ∷ items) seen errs ≡ ok out
      → (p : ℕ) × (lookup item.job_id positions ≡ some p)
        × (contains item.job_id seen ≡ false)
        × (place_results positions items (insert item.job_id true seen) (set errs p item.error)
            ≡ ok out)
  unfolding place_results
  place_step item items seen errs out h = elim (Option-cases (lookup item.job_id positions)) [
    | inl absent ↦ ground arith
    | inr (p, found) ↦ (p, found, ground arith, ground arith)
  ]

  pub place_unseen :
      (items : BatchResult) (seen : Dict JobId Bool) (errs out : List (Option Error)) (id : JobId)
      → place_results positions items seen errs ≡ ok out
      → elem id (result_ids items) ≡ true
      → (contains id seen ≡ false) × (contains id positions ≡ true)
  place_unseen [] seen errs out id h e = cc
  place_unseen (item ∷ items) seen errs out id h e =
      let (p, found, new, rest) = place_step item items seen errs out h in
      ground (
        arith,
        nat_beq_iff item.job_id id,
        place_unseen items (insert item.job_id true seen) (set errs p item.error) out id rest,
        lookup-insert item.job_id id true seen,
      )

  pub place-Distinct :
      (items : BatchResult) (seen : Dict JobId Bool) (errs out : List (Option Error))
      → place_results positions items seen errs ≡ ok out
      → Distinct (result_ids items)
  place-Distinct [] seen errs out h = tt
  place-Distinct (item ∷ items) seen errs out h =
      let (p, found, new, rest) = place_step item items seen errs out h in
      (
        ground (
          arith,
          nat_beq_iff item.job_id item.job_id,
          place_unseen items (insert item.job_id true seen) (set errs p item.error) out item.job_id
              rest,
          lookup-insert item.job_id item.job_id true seen,
        ),
        place-Distinct items (insert item.job_id true seen) (set errs p item.error) out rest,
      )

  pub length-place :
      (items : BatchResult) (seen : Dict JobId Bool) (errs out : List (Option Error))
      → place_results positions items seen errs ≡ ok out
      → length out ≡ length errs
  unfolding place_results
  length-place [] seen errs out h = ground arith
  length-place (item ∷ items) seen errs out h =
      let (p, found, new, rest) = place_step item items seen errs out h in
      ground (
        arith,
        length-place items (insert item.job_id true seen) (set errs p item.error) out rest,
        length-set errs p item.error,
      )

  -- At the position of an identifier stands the error of its result, or what stood there.
  pub place_value :
      (items : BatchResult) (seen : Dict JobId Bool) (errs out : List (Option Error)) (n id p : ℕ)
      (old : Option Error)
      → IsIndex n positions
      → place_results positions items seen errs ≡ ok out
      → lookup id positions ≡ some p
      → get_elem? errs p ≡ some old
      → get_elem? out p ≡ some (if elem id (result_ids items) then error_for id items else old)
  unfolding place_results error_for
  place_value [] seen errs out n id p old q h e f = ground arith
  place_value (item ∷ items) seen errs out n id p old q h e f =
      let (p', found, new, rest) = place_step item items seen errs out h in
      let ih = λ (v : Option Error).
        place_value items (insert item.job_id true seen) (set errs p' item.error) out n id p v q
          rest e in
      let d = place-Distinct (item ∷ items) seen errs out h in
      elim (Bool-cases (item.job_id == id)) [
        | inl here ↦ ground (
          arith,
          ih item.error,
          d.0,
          get_elem?-set errs p' p item.error,
          nat_beq_iff item.job_id id,
        )
        | inr there ↦ ground (
          arith,
          ih old,
          get_elem?-set errs p' p item.error,
          nat_beq_iff item.job_id id,
          q.injective item.job_id id p,
        )
      ]

  -- The loop succeeds on distinct identifiers that have a position and were not seen.
  pub place_complete :
      (items : BatchResult) (seen : Dict JobId Bool) (errs : List (Option Error))
      → Distinct (result_ids items)
      → ((id : JobId)
          → elem id (result_ids items) ≡ true
          → (contains id seen ≡ false) × (contains id positions ≡ true))
      → (out : List (Option Error)) × (place_results positions items seen errs ≡ ok out)
  unfolding place_results
  place_complete [] seen errs d k = (errs, refl)
  place_complete (item ∷ items) seen errs d k = elim (Option-cases (lookup item.job_id positions)) [
    | inl absent ↦
        ground (arith, k item.job_id (ground (arith, nat_beq_iff item.job_id item.job_id)))
    | inr (p, found) ↦
        let (new, _) = k item.job_id (ground (arith, nat_beq_iff item.job_id item.job_id)) in
        let (out, rest) =
          place_complete items (insert item.job_id true seen) (set errs p item.error) d.1 (λ id e. (
            ground (
              arith,
              nat_beq_iff item.job_id id,
              d.0,
              k id,
              lookup-insert item.job_id id true seen,
            ),
            ground (arith, k id),
          )) in
        (out, ground arith)
  ]
