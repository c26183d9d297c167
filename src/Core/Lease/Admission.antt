-- ===== src/Core/Lease/Admission.antt =====
-- `admit`: the check before a handler starts.
use mathlib.Core.Path.{subst}
use outbox.Base.{◌≡◌, Option, suc, length, nat_beq, ◌+◌, ◌/◌, ltb, arith, Bool-cases, inl, inr}
use outbox.Core.Errors.{Error, Time}
use outbox.Core.Env.{State, ◌>>◌, Env, ◌>>=◌}
use outbox.Core.Lease.{
  admit, check_leases, require_outstanding, Held, batch_start_error, top_up, outside, drain_error,
}
use outbox.Core.Lease.Deadlines.{AllFrom}
use outbox.Core.Lease.Invariant.{
  check_leases-Renews, >>-Renews_here, Keeps-refl, failed-Renews, IsSound, Renews, >>-Renews,
  outside-Renews, Renews-mono, unchanged-Renews,
}
use outbox.Core.Lease.Extension.{ensure_leases-Renews}

module _ (env : Env) where
  open env use {World, Ctx, now, cause, draining}

  batch_start_error-Renews :
      (c : Ctx) (t : Time) (s : Held World)
      → IsSound s.ledger
      → AllFrom t s.ledger.outstanding
      → Renews t s.ledger (batch_start_error env c s)
  unfolding batch_start_error
  batch_start_error-Renews c t s h k =
      >>-Renews t t (outside env (cause c)) (outside env draining >>= λ d s'. (drain_error d, s')) s
        (outside-Renews t (cause c) s h k)
        (λ s' h' k'.
          outside-Renews t (λ w. let (d, w') = draining w in (drain_error d, w')) s' h' k')

  top_up-Renews :
      (c : Ctx) (t : Time) (s : Held World)
      → IsSound s.ledger
      → Renews (t + s.ledger.reserve_for / 3) s.ledger (top_up env c t s)
  unfolding top_up
  top_up-Renews c t s h =
      elim (Bool-cases (ltb s.ledger.earliest_until (t + s.ledger.reserve_for / 3))) [
        | inl short ↦ rw short (
            Renews-mono (t + s.ledger.reserve_for) (t + s.ledger.reserve_for / 3) s.ledger _
              (omega arith)
              (ensure_leases-Renews env c (t + s.ledger.reserve_for) (t + s.ledger.reserve_for) s
                h))
        | inr enough ↦ rw enough (
            unchanged-Renews (t + s.ledger.reserve_for / 3) s.ledger.earliest_until s.ledger s.world
              h h.bound (λ id u e. ground (arith, h.bound id u e)))
      ]

  -- The first clock reading of `admit`, after its first look at the context and the drain.
  abbrev pub admission_time : Ctx → Held World → Time
  admission_time c s = (now (batch_start_error env c s).1.world).0

  checked_top_up-Renews :
      (c : Ctx) (s : Held World)
      → IsSound s.ledger
      → Renews
          ((now s.world).0 + s.ledger.reserve_for / 3)
          s.ledger
          ((outside env now >>= λ t. check_leases env t >> top_up env c t) s)
  checked_top_up-Renews c s h =
      let t = (now s.world).0 in
      let s' : Held World = record s { world = (now s.world).1 } in
      let checked = check_leases-Renews env t s' h in
      >>-Renews_here (suc t) (t + s.ledger.reserve_for / 3) (check_leases env t) (top_up env c t) s'
        checked
        (λ h' _.
          subst
            (λ term.
              Renews (t + term / 3) (check_leases env t s').1.ledger
                (top_up env c t (check_leases env t s').1))
            checked.keeps.term (top_up-Renews c t (check_leases env t s').1 h'))

  pub require_outstanding-Renews :
      (t : Time) (s : Held World)
      → IsSound s.ledger
      → AllFrom t s.ledger.outstanding
      → Renews t s.ledger (require_outstanding env s)
  require_outstanding-Renews t s h k = elim (Bool-cases (nat_beq (length s.ledger.outstanding) 0)) [
    | inl nothing ↦ rw nothing (failed-Renews t s.ledger _ s.ledger.error s.world h)
    | inr some_rows ↦
        rw some_rows (record { sound = h; keeps = Keeps-refl s.ledger; covered = λ p. k })
  ]

  require_outstanding_same : (s : Held World) → (require_outstanding env s).1 ≡ s
  require_outstanding_same s = elim (Bool-cases (nat_beq (length s.ledger.outstanding) 0)) [
    | inl nothing ↦ rw nothing
    | inr some_rows ↦ rw some_rows
  ]

  abbrev admit_body : Ctx → State (Held World) (Option Error)
  admit_body c =
      require_outstanding env
      >> ((outside env now >>= λ t. check_leases env t >> top_up env c t)
          >> batch_start_error env c)

  admit_body-Renews :
      (c : Ctx) (s : Held World)
      → IsSound s.ledger
      → Renews ((now s.world).0 + s.ledger.reserve_for / 3) s.ledger (admit_body c s)
  admit_body-Renews c s h =
      let u = (now s.world).0 + s.ledger.reserve_for / 3 in
      >>-Renews_here 0 u (require_outstanding env) _ s
        (require_outstanding-Renews 0 s h (λ id v e. omega arith))
        (λ h' _. rw (require_outstanding_same s) (
          >>-Renews u u (outside env now >>= λ t. check_leases env t >> top_up env c t)
            (batch_start_error env c) s (checked_top_up-Renews c s h)
            (λ s' h'' k. batch_start_error-Renews c u s' h'' k)))

  -- An admission that reports no error leaves every outstanding lease at least a third of the
  -- reservation beyond its first clock reading, its rows kept and none of their deadlines moved earlier.
  pub admit-Renews :
      (c : Ctx) (s : Held World)
      → IsSound s.ledger
      → Renews (admission_time c s + s.ledger.reserve_for / 3) s.ledger (admit env c s)
  unfolding admit
  admit-Renews c s h =
      let started = batch_start_error-Renews c 0 s h (λ id v e. omega arith) in
      >>-Renews_here 0 (admission_time c s + s.ledger.reserve_for / 3) (batch_start_error env c)
        (admit_body c) s started
        (λ h' _.
          subst
            (λ term.
              Renews (admission_time c s + term / 3) (batch_start_error env c s).1.ledger
                (admit_body c (batch_start_error env c s).1))
            started.keeps.term (admit_body-Renews c (batch_start_error env c s).1 h'))
