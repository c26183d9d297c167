-- ===== src/Core/Lease/Invariant.antt =====
-- The invariant of the ledger, and what a renewal keeps.
use outbox.Base.{
  elem, ◌≤◌, suc, ◌≡◌, refl, true, Option, none, some, nat_eq, ltb, arith, ◌∙◌, Bool-cases, inl,
  inr,
}
use outbox.Base.Dict.{lookup}
use outbox.Core.Errors.{Time, Error}
use outbox.Core.Model.{JobId}
use outbox.Core.Env.{Env, State, ◌>>◌, next}
use outbox.Core.Lease.{
  Ledger, Held, recompute_earliest, earliest_of, any_expired, fail_lease, check_leases,
}
use outbox.Core.Lease.Deadlines.{
  AllFrom, Bounds, Positive, Later, Later-refl, Later-trans, earliest_of-Bounds,
  any_expired-AllFrom,
}

-- While a row is outstanding `earliest_until` is set, and no outstanding deadline precedes it; every
-- outstanding row stands in the order of the rows; deadlines are not the zero time.
pub record IsSound (l : Ledger) : Type 0 where
  pub bound : Bounds l.earliest_until l.outstanding
  pub known :
      (id : JobId) (u : Time) → lookup id l.outstanding ≡ some u → elem id l.ordered_ids ≡ true
  pub positive : Positive l.outstanding

-- What every renewal leaves alone.
pub record Keeps (l l' : Ledger) : Type 0 where
  pub later : Later l.outstanding l'.outstanding
  pub token : l'.lease_token ≡ l.lease_token
  pub term : l'.reserve_for ≡ l.reserve_for
  pub order : l'.ordered_ids ≡ l.ordered_ids

-- From ledger `l` a section ended in `r`, sound, with every row kept and none of its deadlines moved
-- earlier; if it ended with no error, every deadline is at or after `t`.
pub record Renews {W : Type 0} (t : Time) (l : Ledger) (r : Option Error × Held W) : Type 0 where
  pub sound : IsSound r.1.ledger
  pub keeps : Keeps l r.1.ledger
  pub covered : r.0 ≡ none → AllFrom t r.1.ledger.outstanding

pub Keeps-refl : (l : Ledger) → Keeps l l
Keeps-refl l = record { later = Later-refl l.outstanding; token = refl; term = refl; order = refl }

pub Keeps-trans : {a b c : Ledger} → Keeps a b → Keeps b c → Keeps a c
Keeps-trans {a} {b} {c} h k = record {
  later = Later-trans a.outstanding b.outstanding c.outstanding h.later k.later;
  token = k.token ∙ h.token;
  term = k.term ∙ h.term;
  order = k.order ∙ h.order;
}

module _ {W : Type 0} where
  next-Renews :
      (t u : Time) (l : Ledger) (k : State (Held W) (Option Error)) (r : Option Error × Held W)
      → Renews t l r
      → ((s : Held W) → IsSound s.ledger → AllFrom t s.ledger.outstanding → Renews u s.ledger (k s))
      → Renews u l (next k r.0 r.1)
  next-Renews t u l k (some e, s) h f = record {
    sound = h.sound;
    keeps = h.keeps;
    covered = λ p. cc;
  }
  next-Renews t u l k (none, s) h f =
      let q = f s h.sound (h.covered refl) in
      record { sound = q.sound; keeps = Keeps-trans h.keeps q.keeps; covered = q.covered }

  -- Two sections in a row, the second where the first had no error.
  pub >>-Renews :
      (t u : Time) (m k : State (Held W) (Option Error)) (s : Held W)
      → Renews t s.ledger (m s)
      → ((s' : Held W)
          → IsSound s'.ledger
          → AllFrom t s'.ledger.outstanding
          → Renews u s'.ledger (k s'))
      → Renews u s.ledger ((m >> k) s)
  >>-Renews t u m k s h f = next-Renews t u s.ledger k (m s) h f

  -- A section that fails and leaves the rows alone.
  pub failed-Renews :
      (t : Time) (l : Ledger) (e : Error) (f : Option Error) (w : W)
      → IsSound l
      → Renews t l (some e, record { ledger = record l { error = f }; world = w })
  failed-Renews t l e f w h = record {
    sound = record { bound = h.bound; known = h.known; positive = h.positive };
    keeps = record { later = Later-refl l.outstanding; token = refl; term = refl; order = refl };
    covered = λ p. cc;
  }

  -- A section that ends well and at most recomputes the bound.
  pub unchanged-Renews :
      (t b : Time) (l : Ledger) (w : W)
      → IsSound l
      → Bounds b l.outstanding
      → AllFrom t l.outstanding
      → Renews t l (none, record { ledger = record l { earliest_until = b }; world = w })
  unchanged-Renews t b l w h k c = record {
    sound = record { bound = k; known = h.known; positive = h.positive };
    keeps = record { later = Later-refl l.outstanding; token = refl; term = refl; order = refl };
    covered = λ p. c;
  }

  -- A call of the outside world leaves the ledger alone.
  pub outside-Renews :
      (t : Time) (m : State W (Option Error)) (s : Held W)
      → IsSound s.ledger
      → AllFrom t s.ledger.outstanding
      → Renews t s.ledger ((m s.world).0, record s { world = (m s.world).1 })
  outside-Renews t m s h c = record { sound = h; keeps = Keeps-refl s.ledger; covered = λ p. c }

  -- As `>>-Renews`, with the state that the first section left.
  pub >>-Renews_here :
      (t u : Time) (m k : State (Held W) (Option Error)) (s : Held W)
      → Renews t s.ledger (m s)
      → (IsSound (m s).1.ledger
          → AllFrom t (m s).1.ledger.outstanding
          → Renews u (m s).1.ledger (k (m s).1))
      → Renews u s.ledger ((m >> k) s)
  >>-Renews_here t u m k s = go (m s)
    where
      go :
          (r : Option Error × Held W)
          → Renews t s.ledger r
          → (IsSound r.1.ledger → AllFrom t r.1.ledger.outstanding → Renews u r.1.ledger (k r.1))
          → Renews u s.ledger (next k r.0 r.1)
      go (some e, s') h f = record { sound = h.sound; keeps = h.keeps; covered = λ p. cc }
      go (none, s') h f =
          let q = f h.sound (h.covered refl) in
          record { sound = q.sound; keeps = Keeps-trans h.keeps q.keeps; covered = q.covered }

  pub Renews-mono :
      (t u : Time) (l : Ledger) (r : Option Error × Held W) → u ≤ t → Renews t l r → Renews u l r
  Renews-mono t u l r le h = record {
    sound = h.sound;
    keeps = h.keeps;
    covered = λ p id v e. let q : t ≤ v = h.covered p id v e in omega arith;
  }

module _ (env : Env) where
  open env use {World}

  -- After a check that passes at `t`, every outstanding lease ends after `t`.
  pub check_leases-Renews :
      (t : Time) (s : Held World)
      → IsSound s.ledger
      → Renews (suc t) s.ledger (check_leases env t s)
  unfolding check_leases fail_lease recompute_earliest
  check_leases-Renews t s h = elim (Bool-cases (ltb t s.ledger.earliest_until)) [
    | inl early ↦ rw early (
        unchanged-Renews (suc t) s.ledger.earliest_until s.ledger s.world h h.bound
          (λ id u e. ground (arith, h.bound id u e)))
    | inr late ↦ elim (Bool-cases (any_expired s.ledger.outstanding t)) [
      | inl gone ↦ rw (late, gone) (failed-Renews (suc t) s.ledger _ _ _ h)
      | inr live ↦
          rw (late, live)
            (unchanged-Renews (suc t) (earliest_of s.ledger.outstanding 0) s.ledger s.world h
              (earliest_of-Bounds s.ledger.outstanding 0 h.positive)
              (any_expired-AllFrom s.ledger.outstanding t live))
    ]
  ]
