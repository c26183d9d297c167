-- ===== src/Sqlite/Jobs/Bytes.antt =====
-- The limit in bytes of `FindAndReserveJobsForCapabilityBounded`, in backends/sqlite/repositories/jobsrepo/api.go.
use mathlib.Core.Path.{subst}
use outbox.Base.{
  ℕ, ◌+◌, ◌≤◌, ◌<◌, ◌≡◌, refl, ap, Bool, Bool-cases, leb, sym, true, false, inl, inr, ◌⊎◌, List, [],
  ◌∷◌, ◌++◌, length, arith,
}
use outbox.Sqlite.Table.{Row}
use outbox.Sqlite.Jobs.Bounded.{take_bounded}

-- The bytes of the rows' payloads.
abbrev pub payload_bytes : List Row → ℕ
payload_bytes [] = 0
payload_bytes (r ∷ rows) = length r.payload + payload_bytes rows

-- No row is left, or the first of them takes the bytes over the limit.
abbrev pub Stops : ℕ → ℕ → List Row → Type 0
Stops max_bytes bytes [] = Unit {0}
Stops max_bytes bytes (r ∷ rows) = max_bytes < bytes + length r.payload

abbrev Fits : ℕ → ℕ → List Row → List Row → Type 0
Fits max_bytes used rows chosen =
    (rest : List Row) × (rows ≡ chosen ++ rest)
    × (used + payload_bytes chosen ≤ max_bytes)
    × Stops max_bytes (used + payload_bytes chosen) rest

le_or_lt : (n m : ℕ) → (n ≤ m) ⊎ (m < n)
le_or_lt n m = elim (Bool-cases (leb n m)) [
  | inl h ↦ inl (ground arith)
  | inr h ↦ inr (ground arith)
]

take_bounded-fits :
    (max_bytes used : ℕ) (any : Bool) (r : Row) (rows : List Row)
    → used + length r.payload ≤ max_bytes
    → take_bounded max_bytes used any (r ∷ rows)
      ≡ r ∷ take_bounded max_bytes (used + length r.payload) true rows
unfolding take_bounded
take_bounded-fits max_bytes used any r rows h = ground arith

take_bounded-over :
    (max_bytes used : ℕ) (r : Row) (rows : List Row)
    → max_bytes < used + length r.payload
    → take_bounded max_bytes used true (r ∷ rows) ≡ []
unfolding take_bounded
take_bounded-over max_bytes used r rows h = ground arith

take_bounded-first :
    (max_bytes : ℕ) (r : Row) (rows : List Row)
    → max_bytes < length r.payload
    → take_bounded max_bytes 0 false (r ∷ rows) ≡ r ∷ []
unfolding take_bounded
take_bounded-first max_bytes r rows h = ground arith

Stops-same :
    (max_bytes b c : ℕ) (rows : List Row) → b ≡ c → Stops max_bytes b rows → Stops max_bytes c rows
Stops-same max_bytes b c rows e = subst (λ n. Stops max_bytes n rows) e

take_bounded-Fits :
    (max_bytes used : ℕ) (rows : List Row)
    → used ≤ max_bytes
    → Fits max_bytes used rows (take_bounded max_bytes used true rows)
unfolding take_bounded
take_bounded-Fits max_bytes used [] h = ([], refl, omega (arith, h), tt)
take_bounded-Fits max_bytes used (r ∷ rows) h =
    elim (le_or_lt (used + length r.payload) max_bytes) [
      | inl fits ↦
          let (rest, split, bytes, stops) =
            take_bounded-Fits max_bytes (used + length r.payload) rows fits in
          subst (Fits max_bytes used (r ∷ rows))
            (sym (take_bounded-fits max_bytes used true r rows fits))
            (
              rest,
              ap (λ l. r ∷ l) split,
              omega (arith, bytes),
              Stops-same max_bytes _ _ rest (omega arith) stops,
            )
      | inr over ↦
          subst (Fits max_bytes used (r ∷ rows))
            (sym (take_bounded-over max_bytes used r rows over))
            (r ∷ rows, refl, omega (arith, h), omega (arith, over))
    ]

-- The longest run of rows from the first on that keeps the limit, or the first alone where it does not.
abbrev pub IsLongest : ℕ → List Row → List Row → Type 0
IsLongest max_bytes rows chosen =
    (rest : List Row) × (rows ≡ chosen ++ rest)
    × ((length chosen ≡ 1) ⊎ (payload_bytes chosen ≤ max_bytes))
    × Stops max_bytes (payload_bytes chosen) rest
    × (chosen ≡ [] → rows ≡ [])

-- The loop over the candidates of a bounded claim keeps a run of them from the first on: its payloads have at
-- most the given bytes, or it is one row; the row behind it would take them over the limit; and it is empty only
-- where there are no candidates.
pub take_bounded-IsLongest :
    (max_bytes : ℕ) (rows : List Row)
    → IsLongest max_bytes rows (take_bounded max_bytes 0 false rows)
unfolding take_bounded
take_bounded-IsLongest max_bytes [] = ([], refl, inr (omega arith), tt, λ h. h)
take_bounded-IsLongest max_bytes (r ∷ rows) = elim (le_or_lt (length r.payload) max_bytes) [
  | inl fits ↦
      let (rest, split, bytes, stops) =
        take_bounded-Fits max_bytes (0 + length r.payload) rows (omega (arith, fits)) in
      subst (IsLongest max_bytes (r ∷ rows))
        (sym (take_bounded-fits max_bytes 0 false r rows (omega (arith, fits))))
        (
          rest,
          ap (λ l. r ∷ l) split,
          inr (omega (arith, bytes)),
          Stops-same max_bytes _ _ rest (omega arith) stops,
          λ e. absurd cc,
        )
  | inr over ↦
      subst (IsLongest max_bytes (r ∷ rows)) (sym (take_bounded-first max_bytes r rows over))
        (rows, refl, inl refl, stops_after rows over, λ e. absurd cc)
]
  where
    stops_after :
        (rest : List Row)
        → max_bytes < length r.payload
        → Stops max_bytes (length r.payload + 0) rest
    stops_after [] h = tt
    stops_after (q ∷ rest) h = omega (arith, h)
