-- ===== src/Core/Errors/Disposition.antt =====
-- `Permanent` of outbox/disposition.go, and what the service reads from its result.
use outbox.Base.{◌≡◌, refl, Bool, true, Option, some, arith, Bool-cases, inl, inr}
use outbox.Core.Errors.{
  Time, Error, Sentinel, errors_is, is_permanent, retry_time, defer_time, permanent,
  permanent_error,
}

-- What the service reads from an error: the sentinels it matches and its three dispositions.
pub record Reading : Type 0 where
  pub final : Bool
  pub retry : Option Time
  pub defer : Option Time

pub reading : Error → Reading
reading e = record { final = is_permanent e; retry = retry_time e; defer = defer_time e }

-- Two errors match the same sentinels.
abbrev pub SameMatches : Error → Error → Type 0
SameMatches e f = (s : Sentinel) → errors_is e s ≡ errors_is f s

-- `Permanent` of a non-nil error yields an error that is permanent, keeps the retry and defer times
-- and the sentinels of its argument, and is unchanged by a second `Permanent`.
pub permanent_lem :
    (e : Error)
    → (m : Error) × (permanent (some e) ≡ some m)
      × (reading m ≡ record { final = true; retry = retry_time e; defer = defer_time e })
      × SameMatches m e
      × (permanent (some m) ≡ some m)
unfolding permanent reading is_permanent retry_time defer_time errors_is
permanent_lem e = elim (Bool-cases (is_permanent e)) [
  | inl old ↦ (e, rw old, ground arith, λ s. refl, rw old)
  | inr new ↦ (permanent_error e, rw new, refl, λ s. refl, refl)
]
