-- ===== src/Core/Lease/Steps.antt =====
-- Each critical section of the manager keeps the ledger sound, whatever it returns.
use outbox.Base.{
  elem, ℕ, ◌<◌, ◌≡◌, refl, true, Option, none, some, List, [], ◌∷◌, ◌++◌, arith, Bool-cases, inl,
  inr, length, nat_beq, ◌==◌, nat_eq, ◌||◌, All,
}
use outbox.Base.Dict.{Dict, contains, lookup, erase, lookup-erase, lookup-insert}
use outbox.Core.Errors.{Time, Error}
use outbox.Core.Model.{JobId, LeaseToken, Job}
use outbox.Core.Retry.{Result, ok, err}
use outbox.Core.Env.{Env, State, ◌>>=◌, ◌>>◌, next}
use outbox.Core.Claim.{validate_claimed_job_lease}
use outbox.Core.Lease.{
  Ledger, Held, outside, update, prepare_row, prepare_all, finalize, finalize_all, drop_row,
  drop_all, reset_if_empty, take_row, take_rows, extend, add, add_row, release_unstarted,
  release_call, released, outstanding_ids,
}
use outbox.Core.Lease.Deadlines.{erase-Positive, insert-Positive}
use outbox.Core.Lease.Invariant.{IsSound}
use outbox.Core.Lease.Extension.{ensure_leases-Renews}
use outbox.Core.Lease.Finalization.{prepare_row-Renews, prepare_all-Renews}

lookup-of-empty :
    (id : JobId) (d : Dict JobId Time) → nat_beq (length d) 0 ≡ true → lookup id d ≡ none
lookup-of-empty id [] h = refl
lookup-of-empty id (row ∷ d) h = ground arith

elem-append :
    (id j : JobId) (ids : List JobId) → elem id (ids ++ j ∷ []) ≡ (elem id ids || (j == id))
elem-append id j [] = ground arith
elem-append id j (k ∷ ids) = ground (arith, elem-append id j ids)

pub drop_all-IsSound : (l : Ledger) → IsSound (drop_all l)
drop_all-IsSound l = record { bound = λ id u e. cc; known = λ id u e. cc; positive = tt }

pub drop_row-IsSound : (id : JobId) (l : Ledger) → IsSound l → IsSound (drop_row id l)
unfolding reset_if_empty
drop_row-IsSound id l h = elim (Bool-cases (nat_beq (length (erase id l.outstanding)) 0)) [
  | inl nothing ↦ rw nothing (record {
    bound = λ i u e. absurd (cc (lookup-of-empty i (erase id l.outstanding) nothing));
    known = λ i u e. ground (arith, lookup-erase id i l.outstanding, h.known i u);
    positive = erase-Positive id l.outstanding h.positive;
  })
  | inr more ↦ rw more (record {
    bound = λ i u e. ground (arith, lookup-erase id i l.outstanding, h.bound i u);
    known = λ i u e. ground (arith, lookup-erase id i l.outstanding, h.known i u);
    positive = erase-Positive id l.outstanding h.positive;
  })
]

take_row-IsSound :
    (l : Ledger) (job : Job) → 0 < job.reserved_at.time → IsSound l → IsSound (take_row l job)
unfolding take_row
take_row-IsSound l job p h = record {
  bound = λ i u e.
      ground (arith, lookup-insert job.id i job.reserved_at.time l.outstanding, h.bound i u);
  known = λ i u e. ground (
    arith,
    lookup-insert job.id i job.reserved_at.time l.outstanding,
    h.known i u,
    elem-append i job.id l.ordered_ids,
  );
  positive = insert-Positive job.id job.reserved_at.time l.outstanding p h.positive;
}

pub take_rows-IsSound :
    (l : Ledger) (jobs : List Job)
    → All (λ job. 0 < job.reserved_at.time) jobs
    → IsSound l
    → IsSound (take_rows l jobs)
unfolding take_rows
take_rows-IsSound l [] p h = h
take_rows-IsSound l (job ∷ jobs) p h =
    take_rows-IsSound (take_row l job) jobs p.1 (take_row-IsSound l job p.0 h)

-- A row that passes the claim check has a deadline after the clock.
pub validated_deadline :
    (job : Job) (token : LeaseToken) (t : Time)
    → validate_claimed_job_lease job token t ≡ none
    → 0 < job.reserved_at.time
unfolding validate_claimed_job_lease
validated_deadline job token t e = ground arith

abbrev pub Preserves : {W : Type 0} → State (Held W) (Option Error) → Type 0
Preserves {W} m = (s : Held W) → IsSound s.ledger → IsSound (m s).1.ledger

next-Preserves :
    {W : Type 0} (k : State (Held W) (Option Error)) (o : Option Error)
    → Preserves k
    → Preserves (next k o)
next-Preserves k none p s h = p s h
next-Preserves k (some e) p s h = h

>>-Preserves :
    {W : Type 0} (m k : State (Held W) (Option Error))
    → Preserves m
    → Preserves k
    → Preserves (m >> k)
>>-Preserves m k p q s h = next-Preserves k (m s).0 q (m s).1 (p s h)

module _ (env : Env) where
  open env use {World, Ctx, now}

  pub extend-Preserves : (c : Ctx) → Preserves (extend env c)
  unfolding extend
  extend-Preserves c s h =
      (ensure_leases-Renews env c _ _ (record s { world = (now s.world).1 }) h).sound

  pub finalize-Preserves :
      (c : Ctx) (id : JobId) (f : Ctx → State World (Option Error))
      → Preserves (finalize env c id f)
  unfolding finalize
  finalize-Preserves c id f s h =
      >>-Preserves (prepare_row env _ _ id) (outside env (f _) >> update env (drop_row id))
        (λ s' h'. (prepare_row-Renews env _ _ id s' h').sound)
        (>>-Preserves (outside env (f _)) (update env (drop_row id)) (λ s' h'. h')
          (λ s' h'. drop_row-IsSound id s'.ledger h'))
        (record s { world = (now s.world).1 }) h

  pub finalize_all-Preserves :
      (c : Ctx) (until : Time) (f : State World (Option Error))
      → Preserves (finalize_all env c until f)
  unfolding finalize_all
  finalize_all-Preserves c until f =
      >>-Preserves (prepare_all env c until) (outside env f >> update env drop_all)
        (λ s h. (prepare_all-Renews env c until s h).sound)
        (>>-Preserves (outside env f) (update env drop_all) (λ s h. h)
          (λ s h. drop_all-IsSound s.ledger))

  add_row-Preserves : (job : Job) (t : Time) → Preserves (add_row env job t)
  add_row-Preserves job t s h = go (validate_claimed_job_lease job s.ledger.lease_token t) refl
    where
      go :
          (o : Option Error)
          → validate_claimed_job_lease job s.ledger.lease_token t ≡ o
          → IsSound (add_row env job t s).1.ledger
      go (some e) p = rw p h
      go none p = elim (Bool-cases (contains job.id s.ledger.outstanding)) [
        | inl twice ↦ rw (p, twice) h
        | inr once ↦
            rw (p, once)
              (take_row-IsSound s.ledger job (validated_deadline job s.ledger.lease_token t p) h)
      ]

  pub add-Preserves : (jobs : List Job) → Preserves (add env jobs)
  unfolding add
  add-Preserves [] s h = h
  add-Preserves (job ∷ jobs) s h =
      >>-Preserves (outside env now >>= add_row env job) (add env jobs)
        (λ s' h'.
          add_row-Preserves job (now s'.world).0 (record s' { world = (now s'.world).1 }) h')
        (add-Preserves jobs) s h

  released-Preserves : (count : ℕ) (r : Result ℕ) → Preserves (released env count r)
  released-Preserves count (err e) s h = h
  released-Preserves count (ok n) s h = elim (Bool-cases (nat_beq n count)) [
    | inl all ↦ rw all (drop_all-IsSound s.ledger)
    | inr some_lost ↦ rw some_lost h
  ]

  pub release_unstarted-Preserves : (c : Ctx) → Preserves (release_unstarted env c)
  unfolding release_unstarted release_call
  release_unstarted-Preserves c s h =
      let ids = outstanding_ids s.ledger.ordered_ids s.ledger.outstanding in
      elim (Bool-cases (nat_beq (length ids) 0)) [
        | inl nothing ↦ rw nothing h
        | inr some_rows ↦ rw some_rows (
            released-Preserves (length ids) (release_call env c ids s).0
              (release_call env c ids s).1 h)
      ]
