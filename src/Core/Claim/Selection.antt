-- ===== src/Core/Claim/Selection.antt =====
-- The cut of a claimed batch at its byte limit, and the check of a bounded claim.
use mathlib.Core.Path.{subst}
use outbox.Base.{
  ◌⊎◌, ℕ, ◌+◌, ◌≤◌, ◌<◌, ◌≡◌, refl, none, List, [], ◌∷◌, ◌++◌, length, ltb, arith, Bool-cases, inl,
  inr, ◌↔◌,
}
use outbox.Core.Model.{Job}
use outbox.Core.Claim.{check_payloads, validate_bounded_payload, select_payload_limit}

abbrev pub payload_bytes : List Job → ℕ
payload_bytes [] = 0
payload_bytes (job ∷ jobs) = length job.payload + payload_bytes jobs

-- The list is empty or its first job does not fit after `used` bytes.
abbrev pub StopsAt : List Job → ℕ → ℕ → Type 0
StopsAt [] max_bytes used = Unit {0}
StopsAt (job ∷ jobs) max_bytes used = max_bytes < used + length job.payload

-- The longest prefix of the jobs that fits in the limit, and the rest.
pub record Cuts (jobs : List Job) (max_bytes : ℕ) (used : ℕ) (parts : List Job × List Job)
    : Type 0 where
  pub whole : parts.0 ++ parts.1 ≡ jobs
  pub within : used + payload_bytes parts.0 ≤ max_bytes
  pub longest : StopsAt parts.1 max_bytes (used + payload_bytes parts.0)

-- From a use within the limit, `select_payload_limit` cuts the jobs in two without loss or
-- reordering: the first part fits in the limit, and the second is empty or starts with a job that
-- does not fit after it.
pub select_payload_limit-Cuts :
    (jobs : List Job) (max_bytes used : ℕ)
    → used ≤ max_bytes
    → Cuts jobs max_bytes used (select_payload_limit jobs max_bytes used)
unfolding select_payload_limit
select_payload_limit-Cuts [] max_bytes used h = record {
  whole = refl;
  within = omega arith;
  longest = tt;
}
select_payload_limit-Cuts (job ∷ jobs) max_bytes used h =
    elim (Bool-cases (ltb max_bytes (used + length job.payload))) [
      | inl over ↦ rw over (record { whole = refl; within = omega arith; longest = ground arith })
      | inr fits ↦
          let ih =
            select_payload_limit-Cuts jobs max_bytes (used + length job.payload) (ground arith) in
          rw fits (record {
            whole = ground (arith, ih.whole);
            within = omega (arith, ih.within);
            longest = subst (StopsAt _ max_bytes) (omega arith) ih.longest;
          })
    ]

check_payloads-total :
    (jobs : List Job) (max_bytes used : ℕ)
    → used ≤ max_bytes
    → (check_payloads max_bytes used jobs ≡ none) ↔ (used + payload_bytes jobs ≤ max_bytes)
unfolding check_payloads
check_payloads-total [] max_bytes used h = ground arith
check_payloads-total (job ∷ jobs) max_bytes used h =
    ground (arith, check_payloads-total jobs max_bytes (used + length job.payload))

-- A bounded claim is accepted exactly when its payloads fit in the limit together or it is one row,
-- which may be of any size.
pub validate_bounded_payload-fits :
    (jobs : List Job) (max_bytes : ℕ)
    → (validate_bounded_payload jobs max_bytes ≡ none)
      ↔ ((payload_bytes jobs ≤ max_bytes) ⊎ (length jobs ≡ 1))
unfolding validate_bounded_payload
validate_bounded_payload-fits [] max_bytes = ground arith
validate_bounded_payload-fits (job ∷ []) max_bytes =
    ground (arith, check_payloads-total (job ∷ []) max_bytes 0)
validate_bounded_payload-fits (job ∷ job' ∷ jobs) max_bytes =
    ground (arith, check_payloads-total (job ∷ job' ∷ jobs) max_bytes 0)
