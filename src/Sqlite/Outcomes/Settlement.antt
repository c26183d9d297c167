-- ===== src/Sqlite/Outcomes/Settlement.antt =====
-- `ApplyBatchJobOutcomes` of backends/sqlite/repositories/jobsrepo/api.go settles all rows of its outcomes
-- or none.
use outbox.Base.{
  ℕ, ◌+◌, ◌-◌, ◌≤◌, ◌≡◌, refl, sym, ap, ◌∙◌, Bool, true, false, ◌&&◌, Option, none, some, List, [],
  ltb, nat_beq, elem, nat_eq, length, arith, inl, inr, Bool-cases,
}
use outbox.Core.Errors.{Time}
use outbox.Core.Model.{JobId, LeaseToken}
use outbox.Core.Batch.{Outcome, success, retry, defer, dlq, BatchJobOutcome}
use outbox.Core.Batch.Identifiers.{Distinct}
use outbox.Sqlite.Table.{
  Row, to_ms, later_than, row_ids, find, count_where, update_where, delete_where,
}
use outbox.Sqlite.Table.Find.{
  unless_found-some, find-id, find-update, find-delete, Distinct-delete, if_found, unless_found,
}
use outbox.Sqlite.Table.Count.{count_each, count_where-each, count_where-cong}
use outbox.Sqlite.Sql.{Db, Faults}
use outbox.Sqlite.Outcomes.{
  validate_items, is_terminal, is_pending, ids_where, input_of, pend, is_ended, is_pended,
}
use outbox.Sqlite.Outcomes.Inputs.{
  length-ids_where, elem-ids_where, ids_where-none, ids_where-Distinct, count_each-le,
  count_each-full, one_if-found,
}

-- What an outcome makes of the row of its job.
abbrev pub settle_row : Outcome → Row → Option Row
settle_row success r = none
settle_row (retry at) r =
    some (record r { available_at = to_ms at; reserved_at = none; lease_token = 0 })
settle_row (defer at) r = some (record r {
  attempts = r.attempts - 1;
  available_at = to_ms at;
  reserved_at = none;
  lease_token = 0;
})
settle_row (dlq reason) r = none

abbrev pub is_live : LeaseToken → ℕ → Row → Bool
is_live token ms r = nat_beq r.lease_token token && later_than ms r.reserved_at

-- Each job of an outcome has had a row held under the token, which the outcome has settled; the other rows,
-- the failed jobs and the keys are as before.
abbrev pub Settled : LeaseToken → ℕ → List BatchJobOutcome → Db → Db → Type 0
Settled token ms outcomes db after =
    ((id : JobId) (k : Outcome)
      → input_of id outcomes ≡ some k
      → (r : Row) × (find id db.jobs ≡ some r)
        × (is_live token ms r ≡ true)
        × (find id after.jobs ≡ settle_row k r))
    × ((id : JobId) → input_of id outcomes ≡ none → find id after.jobs ≡ find id db.jobs)
    × (after.failed ≡ db.failed)
    × (after.keys ≡ db.keys)

settle_row-terminal : (k : Outcome) (r : Row) → is_terminal k ≡ true → settle_row k r ≡ none
settle_row-terminal success r h = refl
settle_row-terminal (retry at) r h = cc
settle_row-terminal (defer at) r h = cc
settle_row-terminal (dlq reason) r h = refl

settle_row-pending :
    (k : Outcome) (r : Row) → is_terminal k ≡ false → settle_row k r ≡ some (pend (some k) r)
settle_row-pending success r h = cc
settle_row-pending (retry at) r h = refl
settle_row-pending (defer at) r h = refl
settle_row-pending (dlq reason) r h = cc

pending_of : (k : Outcome) → is_terminal k ≡ false → is_pending k ≡ true
pending_of success h = cc
pending_of (retry at) h = refl
pending_of (defer at) h = refl
pending_of (dlq reason) h = cc

module _ (faults : Faults) (token : LeaseToken) (now : Time) (outcomes : List BatchJobOutcome)
    (valid : validate_items outcomes [] ≡ none) (rows : List Row)
    (d : Distinct (row_ids rows)) where
  abbrev ended : List JobId
  ended = ids_where is_terminal outcomes

  abbrev pended : List JobId
  pended = ids_where is_pending outcomes

  abbrev pub left : List Row
  left = delete_where (is_ended faults token now outcomes) rows

  abbrev pub settled : List Row
  settled =
      update_where (is_pended faults token now outcomes) (λ r. pend (input_of r.id outcomes) r) left

  abbrev live_started : Row → Bool
  live_started r = is_live token (to_ms now) r && ltb 0 r.attempts

  count_ended :
      count_where (is_ended faults token now outcomes) rows
      ≡ count_each ended (is_live token (to_ms now)) rows
  count_ended =
      count_where-cong (is_ended faults token now outcomes)
        (λ r. elem r.id ended && is_live token (to_ms now) r) rows (λ r. ground arith)
      ∙ count_where-each ended (is_live token (to_ms now)) rows
          (ids_where-Distinct is_terminal outcomes [] valid) d

  count_pended :
      count_where (is_pended faults token now outcomes) left ≡ count_each pended live_started left
  count_pended =
      count_where-cong (is_pended faults token now outcomes)
        (λ r. elem r.id pended && live_started r) left (λ r. ground arith)
      ∙ count_where-each pended live_started left (ids_where-Distinct is_pending outcomes [] valid)
          (Distinct-delete (is_ended faults token now outcomes) rows d)

  find-left :
      (id : JobId) → find id left ≡ unless_found (find id rows) (is_ended faults token now outcomes)
  find-left id = find-delete (is_ended faults token now outcomes) id rows d

  keeps_id : (k : Option Outcome) (r : Row) → (pend k r).id ≡ r.id
  keeps_id none r = refl
  keeps_id (some success) r = refl
  keeps_id (some (retry at)) r = refl
  keeps_id (some (defer at)) r = refl
  keeps_id (some (dlq reason)) r = refl

  find-settled :
      (id : JobId)
      → find id settled
        ≡ if_found
            (find id left)
            (is_pended faults token now outcomes)
            (λ r. pend (input_of r.id outcomes) r)
  find-settled id =
      find-update _ (λ r. pend (input_of r.id outcomes) r) id left
        (λ r. keeps_id (input_of r.id outcomes) r)

  pub untouched : (id : JobId) → input_of id outcomes ≡ none → find id settled ≡ find id rows
  untouched id h = find-settled id ∙ go (find id rows) refl
    where
      go :
          (o : Option Row)
          → find id rows ≡ o
          → if_found
              (find id left)
              (is_pended faults token now outcomes)
              (λ r. pend (input_of r.id outcomes) r)
            ≡ find id rows
      go none e = ground (arith, find-left id)
      go (some r) e = ground (
        arith,
        find-left id,
        find-id id rows r e,
        ids_where-none is_terminal id outcomes h,
        ids_where-none is_pending id outcomes h,
      )

  module _
      (all : count_where (is_ended faults token now outcomes) rows
          + count_where (is_pended faults token now outcomes) left
        ≡ length outcomes) where
    ended_full : length ended ≤ count_each ended (is_live token (to_ms now)) rows
    ended_full = omega (
      arith,
      all,
      count_ended,
      count_pended,
      length-ids_where outcomes,
      count_each-le pended live_started left,
    )

    pended_full : length pended ≤ count_each pended live_started left
    pended_full = omega (
      arith,
      all,
      count_ended,
      count_pended,
      length-ids_where outcomes,
      count_each-le ended (is_live token (to_ms now)) rows,
    )

    pub settled_one :
        (id : JobId) (k : Outcome)
        → input_of id outcomes ≡ some k
        → (r : Row) × (find id rows ≡ some r)
          × (is_live token (to_ms now) r ≡ true)
          × (find id settled ≡ settle_row k r)
    settled_one id k h = elim (Bool-cases (is_terminal k)) [
      | inl terminal ↦
          let listed = elem-ids_where is_terminal id k outcomes h terminal in
          let (r, found, live) =
            one_if-found (find id rows) (is_live token (to_ms now))
              (count_each-full ended (is_live token (to_ms now)) rows id ended_full listed) in
          let gone : find id left ≡ none = ground (arith, find-left id, find-id id rows r found) in
          (r, found, live, find-settled id ∙ (rw gone (sym (settle_row-terminal k r terminal))))
      | inr pending ↦
          let listed = elem-ids_where is_pending id k outcomes h (pending_of k pending) in
          let (r, found, live) =
            one_if-found (find id left) live_started
              (count_each-full pended live_started left id pended_full listed) in
          let same = find-id id left r found in
          let met : is_pended faults token now outcomes r ≡ true = ground arith in
          (
            r,
            (unless_found-some (find id rows) (is_ended faults token now outcomes) r
                (sym (find-left id) ∙ found)).0,
            ground arith,
            find-settled id
                ∙ (rw found (
                    rw met (ap some (rw same (rw h refl)) ∙ sym (settle_row-pending k r pending)))),
          )
    ]
