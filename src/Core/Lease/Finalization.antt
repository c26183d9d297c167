-- ===== src/Core/Lease/Finalization.antt =====
-- `finalize` and `finalizeAll`: the callback runs only while every lease covers its deadline.
use outbox.Base.{
  ◌⊎◌, ◌+◌, ◌≡◌, refl, Bool, true, false, Option, none, some, if◌then◌else◌, arith, Bool-cases, inl,
  inr, nat_eq,
}
use outbox.Base.Dict.{contains}
use outbox.Core.Errors.{Time, Error}
use outbox.Core.Model.{JobId}
use outbox.Core.Env.{Env, State, ◌>>◌, next}
use outbox.Core.Lease.{
  drop_all, finalize_all, Held, ensure_leases, outside, update, locked, cancel_on, require_row,
  require_outstanding, prepare_row, prepare_all, finalize, drop_row, lease_finalization_timeout,
  batch_finalization_margin,
}
use outbox.Core.Lease.Deadlines.{AllFrom}
use outbox.Core.Lease.Invariant.{
  IsSound, Keeps, Keeps-refl, Renews, >>-Renews, outside-Renews, failed-Renews,
}
use outbox.Core.Lease.Extension.{ensure_leases-Renews}
use outbox.Core.Lease.Admission.{require_outstanding-Renews}

-- A test that must pass before `k`.
passed :
    {W : Type 0} (b : Bool) (e : Error) (k : State (Held W) (Option Error)) (s : Held W)
    → let r : Option Error × Held W = if b then (none, s) else (some e, s) in
      (next k r.0 r.1).0 ≡ none → b ≡ true
passed true e k s h = refl
passed false e k s h = cc

module _ (env : Env) where
  open env use {World, Ctx, now, cause, with_deadline, without_cancel, lock_context}

  cancel_on-Renews :
      (o : Option Error) (s : Held World) → IsSound s.ledger → Renews 0 s.ledger (cancel_on env o s)
  cancel_on-Renews none s h = record {
    sound = h;
    keeps = Keeps-refl s.ledger;
    covered = λ p id u e. omega arith;
  }
  cancel_on-Renews (some e) s h = failed-Renews 0 s.ledger e s.ledger.error _ h

  locked-Renews : (c : Ctx) (s : Held World) → IsSound s.ledger → Renews 0 s.ledger (locked env c s)
  locked-Renews c s h =
      cancel_on-Renews (lock_context c s.world).0 (record s { world = (lock_context c s.world).1 })
        h

  require_row-Renews :
      (id : JobId) (s : Held World) → IsSound s.ledger → Renews 0 s.ledger (require_row env id s)
  require_row-Renews id s h = elim (Bool-cases (contains id s.ledger.outstanding)) [
    | inl held ↦
        rw held
          (record { sound = h; keeps = Keeps-refl s.ledger; covered = λ p i u e. omega arith })
    | inr gone ↦ rw gone (failed-Renews 0 s.ledger _ s.ledger.error s.world h)
  ]

  -- The steps after the lock: the leases are renewed and the context is looked at once more.
  covered-Renews :
      (c : Ctx) (until target : Time) (s : Held World)
      → IsSound s.ledger
      → Renews until s.ledger ((ensure_leases env c until target >> outside env (cause c)) s)
  covered-Renews c until target s h =
      >>-Renews until until (ensure_leases env c until target) (outside env (cause c)) s
        (ensure_leases-Renews env c until target s h)
        (λ s' h' k. outside-Renews until (cause c) s' h' k)

  pub prepare_row-Renews :
      (c : Ctx) (deadline : Time) (id : JobId) (s : Held World)
      → IsSound s.ledger
      → Renews (deadline + batch_finalization_margin) s.ledger (prepare_row env c deadline id s)
  prepare_row-Renews c deadline id s h =
      let until = deadline + batch_finalization_margin in
      >>-Renews 0 until (locked env c) _ s (locked-Renews c s h) (λ s' h' _.
        >>-Renews 0 until (require_row env id) _ s' (require_row-Renews id s' h')
          (λ s'' h'' _. covered-Renews c until (until + s.ledger.reserve_for) s'' h''))

  pub prepare_all-Renews :
      (c : Ctx) (until : Time) (s : Held World)
      → IsSound s.ledger
      → Renews until s.ledger (prepare_all env c until s)
  prepare_all-Renews c until s h =
      >>-Renews 0 until (locked env c) _ s (locked-Renews c s h) (λ s' h' _.
        >>-Renews 0 until (require_outstanding env) _ s'
          (require_outstanding-Renews env 0 s' h' (λ i u e. omega arith))
          (λ s'' h'' _. covered-Renews c until until s'' h''))

  -- A row that is not outstanding is refused.
  prepare_row-contains :
      (c : Ctx) (deadline : Time) (id : JobId) (s : Held World)
      → (prepare_row env c deadline id s).0 ≡ none
      → contains id s.ledger.outstanding ≡ true
  prepare_row-contains c deadline id s = go (lock_context c s.world).0
    where
      rest : State (Held World) (Option Error)
      rest =
          require_row env id
          >> (ensure_leases env c (deadline + batch_finalization_margin)
                (deadline + batch_finalization_margin + s.ledger.reserve_for)
              >> outside env (cause c))

      go :
          (o : Option Error)
          → (next rest
              (cancel_on env o (record s { world = (lock_context c s.world).1 })).0
              (cancel_on env o (record s { world = (lock_context c s.world).1 })).1).0
            ≡ none
          → contains id s.ledger.outstanding ≡ true
      go (some e) p = cc
      go none p =
          passed (contains id s.ledger.outstanding) _ _
            (record s { world = (lock_context c s.world).1 }) p

  abbrev finalize_deadline : Held World → Time
  finalize_deadline s = (now s.world).0 + lease_finalization_timeout

  abbrev finalize_context : Ctx → Held World → Ctx
  finalize_context c s = with_deadline (without_cancel c) (finalize_deadline s)

  -- What stands between the call of `finalize` and that of its callback.
  abbrev prepared : Ctx → JobId → Held World → Option Error × Held World
  prepared c id s =
      prepare_row env (finalize_context c s) (finalize_deadline s) id
        (record s { world = (now s.world).1 })

  -- An error is returned whatever the callback does.
  abbrev pub Refuses : Ctx → JobId → Held World → Type 0
  Refuses c id s =
      (e : Error) × ((f : Ctx → State World (Option Error))
        → finalize env c id f s ≡ (some e, (prepared c id s).1))

  -- The callback runs, from a state whose leases cover its deadline and the margin.
  abbrev pub RunsCovered : Ctx → JobId → Held World → Type 0
  RunsCovered c id s =
      (contains id s.ledger.outstanding ≡ true)
      × IsSound (prepared c id s).1.ledger
      × Keeps s.ledger (prepared c id s).1.ledger
      × AllFrom (finalize_deadline s + batch_finalization_margin)
          (prepared c id s).1.ledger.outstanding
      × ((f : Ctx → State World (Option Error))
          → finalize env c id f s
            ≡ (outside env (f (finalize_context c s)) >> update env (drop_row id))
                (prepared c id s).1)

  -- `finalize` calls its callback only while the row is outstanding and every outstanding lease covers
  -- the callback's deadline and the margin, with no deadline moved earlier; otherwise it returns an
  -- error whatever the callback does.
  pub finalize_covers :
      (c : Ctx) (id : JobId) (s : Held World)
      → IsSound s.ledger
      → Refuses c id s ⊎ RunsCovered c id s
  unfolding finalize
  finalize_covers c id s h = go (prepared c id s).0 refl
    where
      r : Renews (finalize_deadline s + batch_finalization_margin) s.ledger (prepared c id s)
      r =
          prepare_row-Renews (finalize_context c s) (finalize_deadline s) id
            (record s { world = (now s.world).1 }) h

      go : (o : Option Error) → (prepared c id s).0 ≡ o → Refuses c id s ⊎ RunsCovered c id s
      go (some e) p = inl (e, λ f. rw (p, next))
      go none p = inr (
        prepare_row-contains (finalize_context c s) (finalize_deadline s) id
            (record s { world = (now s.world).1 }) p,
        r.sound,
        r.keeps,
        r.covered p,
        λ f. rw (p, next),
      )

  -- An error is returned whatever the callback does.
  abbrev pub RefusesAll : Ctx → Time → Held World → Type 0
  RefusesAll c until s =
      (e : Error) × ((f : State World (Option Error))
        → finalize_all env c until f s ≡ (some e, (prepare_all env c until s).1))

  -- The callback runs, from a state whose leases last until then.
  abbrev pub RunsAllCovered : Ctx → Time → Held World → Type 0
  RunsAllCovered c until s =
      IsSound (prepare_all env c until s).1.ledger
      × Keeps s.ledger (prepare_all env c until s).1.ledger
      × AllFrom until (prepare_all env c until s).1.ledger.outstanding
      × ((f : State World (Option Error))
          → finalize_all env c until f s
            ≡ (outside env f >> update env drop_all) (prepare_all env c until s).1)

  -- `finalize_all` calls its callback only while every outstanding lease lasts until the given time,
  -- with no deadline moved earlier; otherwise it returns an error whatever the callback does.
  pub finalize_all_covers :
      (c : Ctx) (until : Time) (s : Held World)
      → IsSound s.ledger
      → RefusesAll c until s ⊎ RunsAllCovered c until s
  unfolding finalize_all
  finalize_all_covers c until s h = go (prepare_all env c until s).0 refl
    where
      r : Renews until s.ledger (prepare_all env c until s)
      r = prepare_all-Renews c until s h

      go :
          (o : Option Error)
          → (prepare_all env c until s).0 ≡ o
          → RefusesAll c until s ⊎ RunsAllCovered c until s
      go (some e) p = inl (e, λ f. rw (p, next))
      go none p = inr (r.sound, r.keeps, r.covered p, λ f. rw (p, next))
