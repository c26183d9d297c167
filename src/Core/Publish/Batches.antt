-- ===== src/Core/Publish/Batches.antt =====
-- When a batch of unique jobs reaches the repository, and which answers are passed on.
use outbox.Base.{
  ◌⊎◌, ◌≤◌, ◌<◌, ◌≡◌, refl, Bool, true, false, none, List, [], ◌∷◌, ◌==◌, length, arith, Bool-cases,
  Option-cases, inl, inr, Text, text_eq, text_beq_iff, elem, All, nat_eq, nat_beq_iff, ◌↔◌,
}
use outbox.Base.Int.{pos, leb_ℤ}
use outbox.Base.Dict.{Dict, contains, insert, lookup-insert}
use outbox.Core.Model.{UniqueBatchPut, UniquePutResult}
use outbox.Core.Retry.{Result, ok, err}
use outbox.Core.Env.{Env}
use outbox.Core.Publish.{
  check_items, check_batch, check_results, accept_results, put_versioned_unique_batch,
}

abbrev pub keys : List UniqueBatchPut → List Text
keys [] = []
keys (item ∷ items) = item.deduplication_key ∷ keys items

abbrev pub DistinctKeys : List Text → Type 0
DistinctKeys [] = Unit {0}
DistinctKeys (k ∷ ks) = (elem k ks ≡ false) × DistinctKeys ks

-- A key, and a schema version of at least 1.
abbrev pub IsValidItem : UniqueBatchPut → Type 0
IsValidItem item =
    ((item.deduplication_key == []) ≡ false) × (leb_ℤ item.schema_version (pos 0) ≡ false)

pub record IsAcceptable (items : List UniqueBatchPut) : Type 0 where
  pub some_items : 0 < length items
  pub few_items : length items ≤ 1000
  pub valid : All IsValidItem items
  pub distinct : DistinctKeys (keys items)

check_step :
    (item : UniqueBatchPut) (items : List UniqueBatchPut) (seen : Dict Text Bool)
    → check_items (item ∷ items) seen ≡ none
    → IsValidItem item
      × (contains item.deduplication_key seen ≡ false)
      × (check_items items (insert item.deduplication_key true seen) ≡ none)
unfolding check_items
check_step item items seen h = ((ground arith, ground arith), ground arith, ground arith)

check_unseen :
    (items : List UniqueBatchPut) (seen : Dict Text Bool) (k : Text)
    → check_items items seen ≡ none
    → elem k (keys items) ≡ true
    → contains k seen ≡ false
check_unseen [] seen k h e = cc
check_unseen (item ∷ items) seen k h e =
    let (_, new, rest) = check_step item items seen h in
    ground (
      arith,
      text_beq_iff item.deduplication_key k,
      check_unseen items (insert item.deduplication_key true seen) k rest,
      lookup-insert item.deduplication_key k true seen,
    )

check_sound :
    (items : List UniqueBatchPut) (seen : Dict Text Bool)
    → check_items items seen ≡ none
    → All IsValidItem items × DistinctKeys (keys items)
check_sound [] seen h = (tt, tt)
check_sound (item ∷ items) seen h =
    let (valid, new, rest) = check_step item items seen h in
    let ih = check_sound items (insert item.deduplication_key true seen) rest in
    (
      (valid, ih.0),
      (
        ground (
          arith,
          text_beq_iff item.deduplication_key item.deduplication_key,
          check_unseen items (insert item.deduplication_key true seen) item.deduplication_key rest,
          lookup-insert item.deduplication_key item.deduplication_key true seen,
        ),
        ih.1,
      ),
    )

check_complete :
    (items : List UniqueBatchPut) (seen : Dict Text Bool)
    → All IsValidItem items
    → DistinctKeys (keys items)
    → ((k : Text) → elem k (keys items) ≡ true → contains k seen ≡ false)
    → check_items items seen ≡ none
unfolding check_items
check_complete [] seen v d u = refl
check_complete (item ∷ items) seen v d u =
    let key = item.deduplication_key in
    let new = u key (ground (arith, text_beq_iff key key)) in
    let rest =
      check_complete items (insert key true seen) v.1 d.1
        (λ k e. ground (arith, text_beq_iff key k, d.0, u k, lookup-insert key k true seen)) in
    ground (arith, v.0.0, v.0.1)

pub check_batch-IsAcceptable :
    (items : List UniqueBatchPut) → (check_batch items ≡ none) ↔ IsAcceptable items
unfolding check_batch
check_batch-IsAcceptable items = (
  λ h.
      let sound = check_sound items [] (ground arith) in
      record {
        some_items = ground (arith, nat_beq_iff (length items) 0);
        few_items = ground arith;
        valid = sound.0;
        distinct = sound.1;
      },
  λ h. ground (
    arith,
    nat_beq_iff (length items) 0,
    h.some_items,
    h.few_items,
    check_complete items [] h.valid h.distinct (λ k e. refl),
  ),
)

check_results-All :
    (rs : List UniquePutResult) → check_results rs ≡ none → All (λ r. 0 < r.job_id) rs
unfolding check_results
check_results-All [] h = tt
check_results-All (r ∷ rs) h =
    (ground (arith, nat_beq_iff r.job_id 0), check_results-All rs (ground arith))

module _ (env : Env) where
  open env use {World, Ctx, create_job_unique_batch}

  -- What a publication of a batch from the world `w` promises of its result.
  abbrev pub Publishes :
      Ctx → List UniqueBatchPut → World → Result (List UniquePutResult) × World → Type 0
  Publishes c items w (ok rs, w') =
      IsAcceptable items
      × (create_job_unique_batch c items w ≡ (ok rs, w'))
      × (length rs ≡ length items)
      × All (λ r. 0 < r.job_id) rs
  Publishes c items w (err e, w') =
      ((¬ IsAcceptable items) × (w' ≡ w))
      ⊎ (IsAcceptable items × (w' ≡ (create_job_unique_batch c items w).1))

  accepted_Publishes :
      (c : Ctx) (items : List UniqueBatchPut) (w w' : World) (r : Result (List UniquePutResult))
      → IsAcceptable items
      → create_job_unique_batch c items w ≡ (r, w')
      → Publishes c items w (accept_results (length items) r, w')
  unfolding accept_results
  accepted_Publishes c items w w' (err e) h call = inr (h, rw call refl)
  accepted_Publishes c items w w' (ok rs) h call = elim (Bool-cases (length rs == length items)) [
    | inr other ↦ rw other (inr (h, rw call refl))
    | inl same ↦ elim (Option-cases (check_results rs)) [
      | inr (e, zero_id) ↦ rw (same, zero_id) (inr (h, rw call refl))
      | inl good ↦
          rw (same, good)
            (
              h,
              call,
              ground (arith, nat_beq_iff (length rs) (length items)),
              check_results-All rs good,
            )
    ]
  ]

  -- With a repository configured, a batch reaches it, as it is and in one call, exactly if it has 1
  -- to 1000 items, each with a key and a positive schema version, and no key twice; otherwise
  -- nothing is called. Results are passed on only if there is one for each item, with a nonzero
  -- identifier.
  pub put_versioned_unique_batch-Publishes :
      (c : Ctx) (items : List UniqueBatchPut) (w : World)
      → Publishes c items w (put_versioned_unique_batch env true c items w)
  unfolding put_versioned_unique_batch
  put_versioned_unique_batch-Publishes c items w = elim (Option-cases (check_batch items)) [
    | inl good ↦ rw good (
        accepted_Publishes c items w (create_job_unique_batch c items w).1
          (create_job_unique_batch c items w).0 ((check_batch-IsAcceptable items).0 good) refl)
    | inr (e, bad) ↦ rw bad (inl (λ h. ground (arith, (check_batch-IsAcceptable items).1 h), refl))
  ]
