-- ===== src/Core/Lease/Deadlines.antt =====
-- Facts of the ledger's map of deadlines and of the loops over it.
use outbox.Base.{
  elem, true, Option-cases, inl, inr, ℕ, suc, ◌≤◌, ◌<◌, ◌≡◌, refl, Bool, false, Option, none, some,
  List, [], ◌∷◌, nat_eq, ltb, if◌then◌else◌, ◌&&◌, arith, nat_beq_iff, All,
}
use outbox.Base.Dict.{Dict, lookup, insert, erase, lookup-insert}
use outbox.Core.Errors.{Time}
use outbox.Core.Model.{JobId}
use outbox.Core.Lease.{earlier, earliest_of, any_expired, due_ids, set_all, earliest_over}

-- Every deadline of the map is at or after `t`.
abbrev pub AllFrom : Time → Dict JobId Time → Type 0
AllFrom t d = (id : JobId) (u : Time) → lookup id d ≡ some u → t ≤ u

-- `b` is a deadline, not the zero time, that no deadline of the map precedes.
abbrev pub Bounds : Time → Dict JobId Time → Type 0
Bounds b d = (id : JobId) (u : Time) → lookup id d ≡ some u → (0 < b) × (b ≤ u)

abbrev pub Positive : Dict JobId Time → Type 0
Positive = All (λ row. 0 < row.1)

pub insert-Positive :
    (id : JobId) (u : Time) (d : Dict JobId Time) → 0 < u → Positive d → Positive (insert id u d)
insert-Positive id u [] h p = (h, tt)
insert-Positive id u ((j, v) ∷ d) h p = ground (arith, insert-Positive id u d h p.1)

pub erase-Positive : (id : JobId) (d : Dict JobId Time) → Positive d → Positive (erase id d)
erase-Positive id [] p = tt
erase-Positive id ((j, v) ∷ d) p = ground (arith, erase-Positive id d p.1)

pub set_all-Positive :
    (ids : List JobId) (u : Time) (d : Dict JobId Time)
    → 0 < u
    → Positive d
    → Positive (set_all ids u d)
unfolding set_all
set_all-Positive [] u d h p = p
set_all-Positive (id ∷ ids) u d h p =
    set_all-Positive ids u (insert id u d) h (insert-Positive id u d h p)

earliest_of-le-start : (d : Dict JobId Time) (e : Time) → Positive d → 0 < e → earliest_of d e ≤ e
unfolding earliest_of
earliest_of-le-start [] e p h = omega arith
earliest_of-le-start ((j, v) ∷ d) e p h = ground (arith, earliest_of-le-start d (earlier e v) p.1)

earliest_of-Positive : (d : Dict JobId Time) (e : Time) → Positive d → 0 < e → 0 < earliest_of d e
unfolding earliest_of
earliest_of-Positive [] e p h = h
earliest_of-Positive ((j, v) ∷ d) e p h = ground (arith, earliest_of-Positive d (earlier e v) p.1)

-- The computed minimum bounds every deadline.
pub earliest_of-Bounds : (d : Dict JobId Time) (e : Time) → Positive d → Bounds (earliest_of d e) d
unfolding earliest_of
earliest_of-Bounds [] e p id u h = cc
earliest_of-Bounds ((j, v) ∷ d) e p id u h = ground (
  arith,
  earliest_of-Bounds d (earlier e v) p.1 id u,
  earliest_of-le-start d (earlier e v) p.1,
  earliest_of-Positive d (earlier e v) p.1,
)

live_row :
    (d : Dict JobId Time) (t id u : ℕ) → any_expired d t ≡ false → lookup id d ≡ some u → t < u
unfolding any_expired
live_row [] t id u h e = cc
live_row ((j, v) ∷ d) t id u h e = ground (arith, live_row d t id u)

-- With no expired row every deadline is after `t`.
pub any_expired-AllFrom :
    (d : Dict JobId Time) (t : Time) → any_expired d t ≡ false → AllFrom (suc t) d
any_expired-AllFrom d t h id u e = live_row d t id u h e

abbrev pub is_due : Option Time → Time → Bool
is_due none required = false
is_due (some u) required = ltb u required

-- A row is due when it stands in the order and its deadline is too early.
pub elem-due_ids :
    (id : JobId) (ids : List JobId) (d : Dict JobId Time) (required : Time)
    → elem id (due_ids ids d required) ≡ (elem id ids && is_due (lookup id d) required)
unfolding due_ids
elem-due_ids id [] d required = refl
elem-due_ids id (j ∷ ids) d required =
    ground (arith, elem-due_ids id ids d required, nat_beq_iff j id)

pub lookup-set_all :
    (id : JobId) (ids : List JobId) (u : Time) (d : Dict JobId Time)
    → lookup id (set_all ids u d) ≡ (if elem id ids then some u else lookup id d)
unfolding set_all
lookup-set_all id [] u d = refl
lookup-set_all id (j ∷ ids) u d =
    ground (arith, lookup-set_all id ids u (insert j u d), lookup-insert j id u d)

-- A row's deadline in one map is kept or moved later in the other; no row comes or goes.
abbrev pub AsLate : Option Time → Option Time → Type 0
AsLate none none = Unit {0}
AsLate none (some v) = ⊥
AsLate (some u) none = ⊥
AsLate (some u) (some v) = u ≤ v

abbrev pub Later : Dict JobId Time → Dict JobId Time → Type 0
Later d d' = (id : JobId) → AsLate (lookup id d) (lookup id d')

AsLate-refl : (o : Option Time) → AsLate o o
AsLate-refl none = tt
AsLate-refl (some u) = omega arith

AsLate-trans : (a b c : Option Time) → AsLate a b → AsLate b c → AsLate a c
AsLate-trans none none none h k = tt
AsLate-trans none none (some w) h k = k
AsLate-trans none (some v) c h k = absurd h
AsLate-trans (some u) none c h k = absurd h
AsLate-trans (some u) (some v) none h k = k
AsLate-trans (some u) (some v) (some w) h k = omega arith

pub Later-refl : (d : Dict JobId Time) → Later d d
Later-refl d id = AsLate-refl (lookup id d)

pub Later-trans : (a b c : Dict JobId Time) → Later a b → Later b c → Later a c
Later-trans a b c h k id = AsLate-trans (lookup id a) (lookup id b) (lookup id c) (h id) (k id)

-- A bound carries over to later deadlines.
pub Later-AllFrom : (t : Time) (d d' : Dict JobId Time) → Later d d' → AllFrom t d → AllFrom t d'
Later-AllFrom t d d' h b id u e = go (lookup id d) refl (rw e at (h id))
  where
    go : (o : Option Time) → lookup id d ≡ o → AsLate o (some u) → t ≤ u
    go none p k = absurd k
    go (some v) p k = let q : t ≤ v = b id v p in omega arith

Positive-lookup :
    (d : Dict JobId Time) (id : JobId) (u : Time) → Positive d → lookup id d ≡ some u → 0 < u
Positive-lookup [] id u p e = cc
Positive-lookup ((j, v) ∷ d) id u p e = ground (arith, Positive-lookup d id u p.1)

earliest_over-le_start :
    (ids : List JobId) (d : Dict JobId Time) (e : Time)
    → Positive d
    → 0 < e
    → earliest_over ids d e ≤ e
unfolding earliest_over
earliest_over-le_start [] d e p h = omega arith
earliest_over-le_start (j ∷ ids) d e p h = elim (Option-cases (lookup j d)) [
  | inl absent ↦ rw (absent, earliest_over) (earliest_over-le_start ids d e p h)
  | inr (v, found) ↦
      let q = Positive-lookup d j v p found in
      rw (found, earliest_over) (ground (arith, earliest_over-le_start ids d (earlier e v) p))
]

earliest_over-Positive :
    (ids : List JobId) (d : Dict JobId Time) (e : Time)
    → Positive d
    → 0 < e
    → 0 < earliest_over ids d e
unfolding earliest_over
earliest_over-Positive [] d e p h = h
earliest_over-Positive (j ∷ ids) d e p h = elim (Option-cases (lookup j d)) [
  | inl absent ↦ rw (absent, earliest_over) (earliest_over-Positive ids d e p h)
  | inr (v, found) ↦
      let q = Positive-lookup d j v p found in
      rw (found, earliest_over) (earliest_over-Positive ids d (earlier e v) p (ground arith))
]

-- The bound that the loop over the order computes is a bound of each row of the order.
pub earliest_over-le :
    (ids : List JobId) (d : Dict JobId Time) (e id u : ℕ)
    → Positive d
    → elem id ids ≡ true
    → lookup id d ≡ some u
    → (0 < earliest_over ids d e) × (earliest_over ids d e ≤ u)
unfolding earliest_over
earliest_over-le [] d e id u p h f = cc
earliest_over-le (j ∷ ids) d e id u p h f = elim (Option-cases (lookup j d)) [
  | inl absent ↦ rw (absent, earliest_over) (ground (arith, earliest_over-le ids d e id u p))
  | inr (v, found) ↦
      let q = Positive-lookup d j v p found in
      rw (found, earliest_over)
        (ground (
          arith,
          earliest_over-le ids d (earlier e v) id u p,
          earliest_over-le_start ids d (earlier e v) p,
          earliest_over-Positive ids d (earlier e v) p,
        ))
]
