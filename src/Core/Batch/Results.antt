-- ===== src/Core/Batch/Results.antt =====
-- The two loops of `validateBatchResult`: when each succeeds, and what the second writes.
use outbox.Base.{
  refl, elem, ℕ, zero, suc, ◌+◌, ◌<◌, ◌≡◌, true, false, some, List, [], ◌∷◌, get_elem?, nat_eq,
  nat_beq_iff, arith, All,
}
use outbox.Base.Dict.{Dict, lookup, contains, insert, lookup-insert}
use outbox.Core.Model.{JobId}
use outbox.Core.Retry.{ok}
use outbox.Core.Batch.{BatchJobItem, BatchResult, index_inputs}
use outbox.Core.Batch.Identifiers.{Distinct}

abbrev pub item_ids : List BatchJobItem → List JobId
item_ids [] = []
item_ids (item ∷ items) = item.job_id ∷ item_ids items

abbrev pub result_ids : BatchResult → List JobId
result_ids [] = []
result_ids (item ∷ items) = item.job_id ∷ result_ids items

abbrev pub Nonzero : List JobId → Type 0
Nonzero = All (λ id. 0 < id)

-- A map from identifiers to positions below `k`, each position used once.
pub record IsIndex (k : ℕ) (d : Dict JobId ℕ) : Type 0 where
  pub below : (id p : ℕ) → lookup id d ≡ some p → p < k
  pub injective : (id j p : ℕ) → lookup id d ≡ some p → lookup j d ≡ some p → id ≡ j

insert-IsIndex :
    (k id : ℕ) (d : Dict JobId ℕ)
    → contains id d ≡ false
    → IsIndex k d
    → IsIndex (k + 1) (insert id k d)
insert-IsIndex k id d new h = record {
  below = λ j p e. ground (arith, lookup-insert id j k d, h.below j p);
  injective = λ i j p e f. ground (
    arith,
    lookup-insert id i k d,
    lookup-insert id j k d,
    h.below i p,
    h.below j p,
    h.injective i j p,
    nat_beq_iff id i,
    nat_beq_iff id j,
  );
}

module _ (item : BatchJobItem) (items : List BatchJobItem) (k : ℕ) (d d' : Dict JobId ℕ) where
  -- What one round of the first loop has checked.
  index_step :
      index_inputs (item ∷ items) k d ≡ ok d'
      → (0 < item.job_id)
        × (contains item.job_id d ≡ false)
        × (index_inputs items (k + 1) (insert item.job_id k d) ≡ ok d')
  unfolding index_inputs
  index_step h = (ground arith, ground arith, ground arith)

pub index_inputs-IsIndex :
    (items : List BatchJobItem) (k : ℕ) (d d' : Dict JobId ℕ)
    → index_inputs items k d ≡ ok d'
    → IsIndex k d
    → (n : ℕ) × IsIndex n d'
unfolding index_inputs
index_inputs-IsIndex [] k d d' h q = (k, record { below = ground arith; injective = ground arith })
index_inputs-IsIndex (item ∷ items) k d d' h q =
    let (_, new, rest) = index_step item items k d d' h in
    index_inputs-IsIndex items (k + 1) (insert item.job_id k d) d' rest
      (insert-IsIndex k item.job_id d new q)

index_unseen :
    (items : List BatchJobItem) (k : ℕ) (d d' : Dict JobId ℕ) (id : JobId)
    → index_inputs items k d ≡ ok d'
    → elem id (item_ids items) ≡ true
    → contains id d ≡ false
index_unseen [] k d d' id h e = cc
index_unseen (item ∷ items) k d d' id h e =
    let (_, new, rest) = index_step item items k d d' h in
    ground (
      arith,
      nat_beq_iff item.job_id id,
      index_unseen items (k + 1) (insert item.job_id k d) d' id rest,
      lookup-insert item.job_id id k d,
    )

pub index-Distinct :
    (items : List BatchJobItem) (k : ℕ) (d d' : Dict JobId ℕ)
    → index_inputs items k d ≡ ok d'
    → Nonzero (item_ids items) × Distinct (item_ids items)
index-Distinct [] k d d' h = (tt, tt)
index-Distinct (item ∷ items) k d d' h =
    let (positive, new, rest) = index_step item items k d d' h in
    let ih = index-Distinct items (k + 1) (insert item.job_id k d) d' rest in
    (
      (positive, ih.0),
      (
        ground (
          arith,
          nat_beq_iff item.job_id item.job_id,
          index_unseen items (k + 1) (insert item.job_id k d) d' item.job_id rest,
          lookup-insert item.job_id item.job_id k d,
        ),
        ih.1,
      ),
    )

-- A key outside the inputs keeps its entry.
pub index_keeps :
    (items : List BatchJobItem) (k : ℕ) (d d' : Dict JobId ℕ) (id : JobId)
    → index_inputs items k d ≡ ok d'
    → elem id (item_ids items) ≡ false
    → lookup id d' ≡ lookup id d
unfolding index_inputs
index_keeps [] k d d' id h e = ground arith
index_keeps (item ∷ items) k d d' id h e =
    let (_, new, rest) = index_step item items k d d' h in
    ground (
      arith,
      index_keeps items (k + 1) (insert item.job_id k d) d' id rest,
      lookup-insert item.job_id id k d,
    )

-- Each input's position is its place in the list.
pub index_position :
    (items : List BatchJobItem) (k : ℕ) (d d' : Dict JobId ℕ) (i : ℕ) (item : BatchJobItem)
    → index_inputs items k d ≡ ok d'
    → get_elem? items i ≡ some item
    → lookup item.job_id d' ≡ some (k + i)
index_position [] k d d' i item h e = cc
index_position (x ∷ items) k d d' zero item h e =
    let (_, new, rest) = index_step x items k d d' h in
    ground (
      arith,
      nat_beq_iff x.job_id x.job_id,
      index_keeps items (k + 1) (insert x.job_id k d) d' x.job_id rest,
      (index-Distinct (x ∷ items) k d d' h).1.0,
      lookup-insert x.job_id x.job_id k d,
    )
index_position (x ∷ items) k d d' (suc i) item h e =
    let (_, new, rest) = index_step x items k d d' h in
    ground (arith, index_position items (k + 1) (insert x.job_id k d) d' i item rest e)

-- Each input has a position.
pub index_held :
    (items : List BatchJobItem) (k : ℕ) (d d' : Dict JobId ℕ) (id : JobId)
    → index_inputs items k d ≡ ok d'
    → elem id (item_ids items) ≡ true
    → contains id d' ≡ true
index_held [] k d d' id h e = cc
index_held (x ∷ items) k d d' id h e =
    let (_, new, rest) = index_step x items k d d' h in
    ground (
      arith,
      nat_beq_iff x.job_id id,
      index_position (x ∷ items) k d d' zero x h refl,
      index_held items (k + 1) (insert x.job_id k d) d' id rest,
    )

-- The first loop succeeds on nonzero distinct identifiers that are no keys yet.
pub index_complete :
    (items : List BatchJobItem) (k : ℕ) (d : Dict JobId ℕ)
    → Nonzero (item_ids items)
    → Distinct (item_ids items)
    → ((id : JobId) → elem id (item_ids items) ≡ true → contains id d ≡ false)
    → (d' : Dict JobId ℕ) × (index_inputs items k d ≡ ok d')
unfolding index_inputs
index_complete [] k d p q r = (d, refl)
index_complete (item ∷ items) k d p q r =
    let new : contains item.job_id d ≡ false =
      r item.job_id (ground (arith, nat_beq_iff item.job_id item.job_id)) in
    let (d', rest) = index_complete items (k + 1) (insert item.job_id k d) p.1 q.1 (λ id e.
      ground (arith, nat_beq_iff item.job_id id, q.0, r id, lookup-insert item.job_id id k d)) in
    (d', ground (arith, p.0))
