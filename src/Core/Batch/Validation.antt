-- ===== src/Core/Batch/Validation.antt =====
-- `validateBatchResult` accepts exactly the results that answer each input once.
use outbox.Base.{
  ◌⊎◌, set, ◌∙◌, elem, ℕ, zero, suc, ◌+◌, ◌<◌, ◌≡◌, refl, Bool, true, Option, none, some, List, [],
  ◌∷◌, length, get_elem?, replicate, nat_eq, nat_beq_iff, arith, Bool-cases, Option-cases, inl, inr,
}
use outbox.Base.Dict.{insert, Dict, lookup, contains}
use outbox.Core.Errors.{Error, errors_is, invalid_batch_result}
use outbox.Core.Model.{JobId}
use outbox.Core.Retry.{Result, ok, err}
use outbox.Core.Batch.{
  BatchJobItem, BatchResult, index_inputs, place_results, invalid_result, validate_batch_result,
}
use outbox.Core.Batch.Identifiers.{Distinct, Subset, Subset-of_length, length-le_of_Subset}
use outbox.Core.Batch.Results.{
  item_ids, result_ids, Nonzero, index-Distinct, index_position, index_inputs-IsIndex, index_keeps,
  index_held, index_complete,
}
use outbox.Core.Batch.Placement.{
  error_for, place_unseen, place-Distinct, length-place, place_value, place_complete,
}

indexed_cases : {A : Type 0} (r : Result A) → ((a : A) × (r ≡ ok a)) ⊎ ((e : Error) × (r ≡ err e))
indexed_cases (ok a) = inl (a, refl)
indexed_cases (err e) = inr (e, refl)

-- Each input has one result, and each result an input; inputs are nonzero and distinct.
pub record IsCovering (input : List BatchJobItem) (result : BatchResult) : Type 0 where
  pub nonzero : Nonzero (item_ids input)
  pub distinct_inputs : Distinct (item_ids input)
  pub distinct_results : Distinct (result_ids result)
  pub answered : Subset (item_ids input) (result_ids result)
  pub asked : Subset (result_ids result) (item_ids input)

abbrev pub Validates : List BatchJobItem → BatchResult → Result (List (Option Error)) → Type 0
Validates input result (ok errs) =
    IsCovering input result
    × (length errs ≡ length input)
    × ((i : ℕ) (item : BatchJobItem)
        → get_elem? input i ≡ some item
        → get_elem? errs i ≡ some (error_for item.job_id result))
Validates input result (err e) =
    (¬ IsCovering input result) × (errors_is e invalid_batch_result ≡ true)

length-item_ids : (input : List BatchJobItem) → length (item_ids input) ≡ length input
length-item_ids [] = refl
length-item_ids (item ∷ input) = omega (arith, length-item_ids input)

length-result_ids : (result : BatchResult) → length (result_ids result) ≡ length result
length-result_ids [] = refl
length-result_ids (item ∷ result) = omega (arith, length-result_ids result)

length-replicate : {A : Type 0} (n : ℕ) (a : A) → length (replicate n a) ≡ n
length-replicate zero a = refl
length-replicate (suc n) a = omega (arith, length-replicate n a)

get_elem?-replicate : {A : Type 0} (n i : ℕ) (a : A) → i < n → get_elem? (replicate n a) i ≡ some a
get_elem?-replicate zero i a h = elim h [ ]
get_elem?-replicate (suc n) zero a h = refl
get_elem?-replicate (suc n) (suc i) a h = get_elem?-replicate n i a (omega arith)

index_in_range :
    (input : List BatchJobItem) (i : ℕ) (item : BatchJobItem)
    → get_elem? input i ≡ some item
    → (i < length input) × (elem item.job_id (item_ids input) ≡ true)
index_in_range [] i item h = cc
index_in_range (x ∷ input) zero item h =
    (omega arith, ground (arith, nat_beq_iff x.job_id x.job_id))
index_in_range (x ∷ input) (suc i) item h =
    let ih = index_in_range input i item h in (omega (arith, ih.0), ground (arith, ih.1))

module _ (input : List BatchJobItem) (result : BatchResult) (positions : Dict JobId ℕ)
    (indexed : index_inputs input 0 [] ≡ ok positions) where
  known_key : (id : JobId) → contains id positions ≡ true → elem id (item_ids input) ≡ true
  known_key id h = elim (Bool-cases (elem id (item_ids input))) [
    | inl held ↦ held
    | inr gone ↦ ground (arith, index_keeps input 0 [] positions id indexed gone)
  ]

  input_key : (id : JobId) → elem id (item_ids input) ≡ true → contains id positions ≡ true
  input_key id h = index_held input 0 [] positions id indexed h

  accepted :
      (errs : List (Option Error))
      → length result ≡ length input
      → place_results positions result [] (replicate (length input) none) ≡ ok errs
      → Validates input result (ok errs)
  accepted errs same placed =
      let start : List (Option Error) = replicate (length input) none in
      let inputs = index-Distinct input 0 [] positions indexed in
      let asked : Subset (result_ids result) (item_ids input) =
        λ id e. known_key id (place_unseen positions result [] start errs id placed e).1 in
      let distinct = place-Distinct positions result [] start errs placed in
      let answered : Subset (item_ids input) (result_ids result) =
        Subset-of_length (result_ids result) (item_ids input) distinct asked
          (omega (arith, length-item_ids input, length-result_ids result)) in
      let (n, index) =
        index_inputs-IsIndex input 0 [] positions indexed
          (record { below = λ id p e. cc; injective = λ i j p e f. cc }) in
      (
        record {
          nonzero = inputs.0;
          distinct_inputs = inputs.1;
          distinct_results = distinct;
          answered = answered;
          asked = asked;
        },
        length-place positions result [] start errs placed ∙ length-replicate (length input) none,
        λ i item e.
            let (below, member) = index_in_range input i item e in
            ground (
              arith,
              place_value positions result [] start errs n item.job_id i none index placed
                  (ground (arith, index_position input 0 [] positions i item indexed e))
                  (get_elem?-replicate (length input) i none below),
              answered item.job_id member,
            ),
      )

  placed_all :
      IsCovering input result
      → (errs : List (Option Error)) × (place_results positions result []
            (replicate (length input) none)
          ≡ ok errs)
  placed_all h =
      place_complete positions result [] (replicate (length input) none) h.distinct_results
        (λ id e. (refl, input_key id (h.asked id e)))

index_err :
    (items : List BatchJobItem) (k : ℕ) (d : Dict JobId ℕ) (e : Error)
    → index_inputs items k d ≡ err e
    → e ≡ invalid_result
unfolding index_inputs
index_err [] k d e h = cc
index_err (item ∷ items) k d e h =
    ground (arith, index_err items (k + 1) (insert item.job_id k d) e)

place_err :
    (positions : Dict JobId ℕ) (items : BatchResult) (seen : Dict JobId Bool)
    (errs : List (Option Error)) (e : Error)
    → place_results positions items seen errs ≡ err e
    → e ≡ invalid_result
unfolding place_results
place_err positions [] seen errs e h = cc
place_err positions (item ∷ items) seen errs e h =
    elim (Option-cases (lookup item.job_id positions)) [
      | inl absent ↦ ground arith
      | inr (p, found) ↦ ground (
        arith,
        place_err positions items (insert item.job_id true seen) (set errs p item.error) e,
      )
    ]

same_length :
    (input : List BatchJobItem) (result : BatchResult)
    → IsCovering input result
    → length result ≡ length input
same_length input result h = omega (
  arith,
  length-item_ids input,
  length-result_ids result,
  length-le_of_Subset (item_ids input) (result_ids result) h.distinct_inputs h.answered,
  length-le_of_Subset (result_ids result) (item_ids input) h.distinct_results h.asked,
)

refused :
    (input : List BatchJobItem) (result : BatchResult) (r : Result (List (Option Error)))
    → validate_batch_result input result ≡ r
    → (IsCovering input result → (errs : List (Option Error)) × (r ≡ ok errs))
    → ((errs : List (Option Error)) → r ≡ ok errs → Validates input result (ok errs))
    → ((e : Error) → r ≡ err e → e ≡ invalid_result)
    → Validates input result r
unfolding errors_is
refused input result (ok errs) h complete accept refuse = accept errs refl
refused input result (err e) h complete accept refuse =
    (λ c. ground (arith, complete c), rw (refuse e refl))

covering_indexed :
    (input : List BatchJobItem) (result : BatchResult)
    → IsCovering input result
    → (positions : Dict JobId ℕ) × (index_inputs input 0 [] ≡ ok positions)
covering_indexed input result h =
    index_complete input 0 [] h.nonzero h.distinct_inputs (λ id e. refl)

covering_accepted :
    (input : List BatchJobItem) (result : BatchResult)
    → IsCovering input result
    → (errs : List (Option Error)) × (validate_batch_result input result ≡ ok errs)
unfolding validate_batch_result
covering_accepted input result h =
    let (positions, indexed) = covering_indexed input result h in
    let (errs, placed) = placed_all input result positions indexed h in
    (errs, ground (arith, same_length input result h, nat_beq_iff (length result) (length input)))

accepted_covers :
    (input : List BatchJobItem) (result : BatchResult) (errs : List (Option Error))
    → validate_batch_result input result ≡ ok errs
    → Validates input result (ok errs)
unfolding validate_batch_result
accepted_covers input result errs h = elim (indexed_cases (index_inputs input 0 [])) [
  | inl (positions, indexed) ↦
      accepted input result positions indexed errs
        (ground (arith, nat_beq_iff (length result) (length input))) (ground arith)
  | inr (e, failed) ↦ ground arith
]

refused_invalid :
    (input : List BatchJobItem) (result : BatchResult) (e : Error)
    → validate_batch_result input result ≡ err e
    → e ≡ invalid_result
unfolding validate_batch_result
refused_invalid input result e h = elim (indexed_cases (index_inputs input 0 [])) [
  | inl (positions, indexed) ↦
      ground (arith, place_err positions result [] (replicate (length input) none) e)
  | inr (f, failed) ↦ ground (arith, index_err input 0 [] f failed)
]

-- `validate_batch_result` returns errors exactly when the inputs are nonzero and distinct and the
-- results answer each input once and nothing else; it then gives, at the position of each input,
-- the error of that input's result. Otherwise its error is an invalid batch result.
pub validate_batch_result-Validates :
    (input : List BatchJobItem) (result : BatchResult)
    → Validates input result (validate_batch_result input result)
validate_batch_result-Validates input result =
    refused input result (validate_batch_result input result) refl (covering_accepted input result)
      (accepted_covers input result) (refused_invalid input result)
