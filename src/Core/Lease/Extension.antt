-- ===== src/Core/Lease/Extension.antt =====
-- `ensureLeasesLocked`: a renewal that reports no error covers every outstanding row.
use outbox.Base.{
  elem, ℕ, suc, ◌≤◌, ◌<◌, ◌≡◌, refl, Bool, true, false, Option, none, some, List, [], ◌∷◌, nat_eq,
  nat_beq, ltb, if◌then◌else◌, arith, Bool-cases, inl, inr, length, ◌&&◌,
}
use outbox.Base.Dict.{Dict, lookup}
use outbox.Core.Errors.{Time, Error}
use outbox.Core.Model.{JobId}
use outbox.Core.Retry.{Result, ok, err}
use outbox.Core.Env.{Env, ◌>>=◌}
use outbox.Core.Lease.{
  Ledger, Held, recompute_earliest, set_all, due_ids, earliest_over, fail_lease, check_leases,
  finish_extension, extend_rows, extend_short, ensure_leases, next_millisecond, at_least,
  record_extension, confirm, unless,
}
use outbox.Core.Lease.Deadlines.{
  AllFrom, Later, Later-AllFrom, earliest_of-Bounds, earliest_over-le, elem-due_ids, lookup-set_all,
  set_all-Positive, is_due, AsLate,
}
use outbox.Core.Lease.Invariant.{
  IsSound, Keeps, Keeps-trans, Renews, >>-Renews, failed-Renews, unchanged-Renews,
  check_leases-Renews,
}

-- One row of an extension is kept or moved later.
move_AsLate :
    (o : Option Time) (ordered : Bool) (required until : Time)
    → required ≤ until
    → AsLate o (if ordered && is_due o required then some until else o)
move_AsLate none true required until h = tt
move_AsLate none false required until h = tt
move_AsLate (some u) false required until h = omega arith
move_AsLate (some u) true required until h = elim (Bool-cases (ltb u required)) [
  | inl early ↦ rw early (ground arith)
  | inr late ↦ rw late (omega arith)
]

module _ (l : Ledger) (required until : Time) (h : IsSound l) (enough : required ≤ until) where
  abbrev due : List JobId
  due = due_ids l.ordered_ids l.outstanding required

  abbrev extended : Dict JobId Time
  extended = set_all due until l.outstanding

  -- The deadline of a row after the extension.
  moved :
      (id : JobId)
      → lookup id extended ≡ (if elem id due then some until else lookup id l.outstanding)
  moved id = lookup-set_all id due until l.outstanding

  due_row :
      (id : JobId)
      → elem id due ≡ (elem id l.ordered_ids && is_due (lookup id l.outstanding) required)
  due_row id = elem-due_ids id l.ordered_ids l.outstanding required

  extended-AllFrom : AllFrom required extended
  extended-AllFrom id u e = ground (arith, moved id, due_row id, h.known id u)

  extended-known :
      (id : JobId) (u : Time) → lookup id extended ≡ some u → elem id l.ordered_ids ≡ true
  extended-known id u e = ground (arith, moved id, due_row id, h.known id u)

  extended-Later : Later l.outstanding extended
  extended-Later id =
      rw (moved id, due_row id)
        (move_AsLate (lookup id l.outstanding) (elem id l.ordered_ids) required until enough)

  abbrev after_extension : Ledger
  after_extension = record_extension due until l

  after_extension-IsSound : 0 < until → IsSound after_extension
  unfolding recompute_earliest
  after_extension-IsSound p =
      let positive = set_all-Positive due until l.outstanding p h.positive in
      record {
        bound = earliest_of-Bounds extended 0 positive;
        known = extended-known;
        positive = positive;
      }

  after_extension-Keeps : Keeps l after_extension
  unfolding recompute_earliest
  after_extension-Keeps = record { later = extended-Later; token = refl; term = refl; order = refl }

-- The loop's own bound is sound too.
scanned-IsSound :
    (l : Ledger)
    → IsSound l
    → IsSound (record l { earliest_until = earliest_over l.ordered_ids l.outstanding 0 })
scanned-IsSound l h = record {
  bound =
      λ id u e. earliest_over-le l.ordered_ids l.outstanding 0 id u h.positive (h.known id u e) e;
  known = h.known;
  positive = h.positive;
}

-- A renewal over a sound ledger that replaced `l`, whose rows were all covered then.
onto-Renews :
    {W : Type 0} (t u : Time) (l l' : Ledger) (r : Option Error × Held W)
    → Keeps l l'
    → AllFrom t l'.outstanding
    → Renews u l' r
    → Renews t l r
onto-Renews t u l l' r k c q = record {
  sound = q.sound;
  keeps = Keeps-trans k q.keeps;
  covered = λ _. Later-AllFrom t l'.outstanding r.1.ledger.outstanding q.keeps.later c;
}

elem-of-empty :
    (id : JobId) (ids : List JobId) → nat_beq (length ids) 0 ≡ true → elem id ids ≡ false
elem-of-empty id [] h = refl
elem-of-empty id (j ∷ ids) h = ground arith

-- With no row due the bound holds of every row.
none_due :
    (l : Ledger) (required : Time)
    → IsSound l
    → nat_beq (length (due_ids l.ordered_ids l.outstanding required)) 0 ≡ true
    → AllFrom required l.outstanding
none_due l required h e id u found = ground (
  arith,
  elem-due_ids id l.ordered_ids l.outstanding required,
  elem-of-empty id (due_ids l.ordered_ids l.outstanding required) e,
  h.known id u,
)

-- The loop's bound is no part of what a renewal keeps.
rescanned-Renews :
    {W : Type 0} (t b : Time) (l : Ledger) (r : Option Error × Held W)
    → Renews t (record l { earliest_until = b }) r
    → Renews t l r
rescanned-Renews t b l r h = record {
  sound = h.sound;
  keeps = record {
    later = h.keeps.later;
    token = h.keeps.token;
    term = h.keeps.term;
    order = h.keeps.order;
  };
  covered = h.covered;
}

target_in_reach :
    (target required : Time)
    → (required ≤ next_millisecond (at_least target required))
      × (0 < next_millisecond (at_least target required))
target_in_reach target required = ground arith

module _ (env : Env) where
  open env use {World, Ctx, now, cause, with_deadline}

  finish_extension-Renews :
      (required until : Time) (answer : Result ℕ) (s : Held World)
      → IsSound s.ledger
      → required ≤ until
      → 0 < until
      → Renews required s.ledger (
          finish_extension env
            (due_ids s.ledger.ordered_ids s.ledger.outstanding required)
            until
            answer
            s)
  unfolding finish_extension fail_lease recompute_earliest set_all
  finish_extension-Renews required until (err e) s h le p = failed-Renews required s.ledger _ _ _ h
  finish_extension-Renews required until (ok n) s h le p = elim (Bool-cases (nat_beq n count)) [
    | inl all ↦ rw all (
        onto-Renews required _ s.ledger l' _ (after_extension-Keeps s.ledger required until h le)
          (extended-AllFrom s.ledger required until h le)
          (check_leases-Renews env (now s.world).0 _
            (after_extension-IsSound s.ledger required until h le p)))
    | inr some_lost ↦ rw some_lost (failed-Renews required s.ledger _ _ _ h)
  ]
    where
      count : ℕ
      count = length (due_ids s.ledger.ordered_ids s.ledger.outstanding required)

      l' : Ledger
      l' = after_extension s.ledger required until h le

  extend_rows-Renews :
      (c : Ctx) (t earliest required until : Time) (s : Held World)
      → IsSound s.ledger
      → required ≤ until
      → 0 < until
      → Renews required s.ledger (
          extend_rows env c t
            (due_ids s.ledger.ordered_ids s.ledger.outstanding required)
            earliest
            until
            s)
  unfolding extend_rows
  extend_rows-Renews c t earliest required until s h le p = go (
      env.extend_job_leases (with_deadline c earliest)
        (due_ids s.ledger.ordered_ids s.ledger.outstanding required) s.ledger.lease_token t until
        s.world)
    where
      go :
          (r : Result ℕ × World)
          → Renews required s.ledger (
              (confirm env (with_deadline c earliest) r.0
                  >>= finish_extension env
                      (due_ids s.ledger.ordered_ids s.ledger.outstanding required)
                      until)
                (record s { world = r.1 }))
      go (err e, w) = finish_extension-Renews required until (err e) (record s { world = w }) h le p
      go (ok n, w) =
          finish_extension-Renews required until (unless n (cause (with_deadline c earliest) w).0)
            (record s { world = (cause (with_deadline c earliest) w).1 }) h le p

  extend_short-Renews :
      (c : Ctx) (t required target : Time) (s : Held World)
      → IsSound s.ledger
      → Renews required s.ledger (extend_short env c t required target s)
  unfolding extend_short
  extend_short-Renews c t required target s h =
      elim (Bool-cases (ltb s.ledger.earliest_until required)) [
        | inr covered ↦ rw covered (
            unchanged-Renews required s.ledger.earliest_until s.ledger s.world h h.bound
              (λ id u e. ground (arith, h.bound id u e)))
        | inl short ↦
            elim (Bool-cases
              (nat_beq (length (due_ids s.ledger.ordered_ids s.ledger.outstanding required)) 0)) [
                | inl nothing ↦
                    rw (short, nothing)
                      (unchanged-Renews required
                        (earliest_over s.ledger.ordered_ids s.ledger.outstanding 0) s.ledger s.world
                        h (scanned-IsSound s.ledger h).bound (none_due s.ledger required h nothing))
                | inr some_due ↦
                    rw (short, some_due)
                      (rescanned-Renews required
                        (earliest_over s.ledger.ordered_ids s.ledger.outstanding 0) s.ledger _
                        (extend_rows-Renews c t
                          (earliest_over s.ledger.ordered_ids s.ledger.outstanding 0) required
                          (next_millisecond (at_least target required)) _
                          (scanned-IsSound s.ledger h) (target_in_reach target required).0
                          (target_in_reach target required).1))
              ]
      ]

  -- A renewal that reports no error leaves every outstanding lease at or after `required`; with or
  -- without an error no row is lost, no deadline is moved earlier, and the ledger stays sound.
  pub ensure_leases-Renews :
      (c : Ctx) (required target : Time) (s : Held World)
      → IsSound s.ledger
      → Renews required s.ledger (ensure_leases env c required target s)
  unfolding ensure_leases
  ensure_leases-Renews c required target s h =
      >>-Renews (suc (now s.world).0) required (check_leases env (now s.world).0)
        (extend_short env c (now s.world).0 required target) (record s { world = (now s.world).1 })
        (check_leases-Renews env (now s.world).0 (record s { world = (now s.world).1 }) h)
        (λ s' h' _. extend_short-Renews c (now s.world).0 required target s' h')
