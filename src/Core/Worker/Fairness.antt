-- ===== src/Core/Worker/Fairness.antt =====
-- The rotation over the batch capabilities comes round to each of them.
use native.Mathlib.Nat.{mod-eq_of_lt, mod-eq-sub-mod}
use outbox.Base.{
  ◌⊎◌, ℕ, zero, suc, ◌+◌, ◌-◌, ◌%◌, ◌≤◌, ◌<◌, ◌≡◌, refl, Bool, true, false, none, some, List, [],
  ◌∷◌, if◌then◌else◌, ltb, length, get_elem?, arith, Bool-cases, inl, inr, ◌∙◌, ◌==◌, nat_eq,
  nat_beq_iff,
}
use outbox.Core.Model.{JobCapability}
use outbox.Core.Env.{State}
use outbox.Core.Worker.{Work, settle, attempt, visit, process_one_available_batch}

wrapped : ℕ → ℕ → ℕ
wrapped n a = if ltb a n then a else a - n

mod-wrapped : (n a : ℕ) → a < n + n → a % n ≡ wrapped n a
unfolding wrapped
mod-wrapped n a h = elim (Bool-cases (ltb a n)) [
  | inl below ↦ rw below (mod-eq_of_lt (ground arith))
  | inr above ↦ rw above (mod-eq-sub-mod (ground arith) ∙ mod-eq_of_lt (ground arith))
]

-- How many steps the rotation is before the index `i`.
pub ahead : ℕ → ℕ → ℕ → ℕ
ahead n cursor i = if ltb i cursor then i + n - cursor else i - cursor

ahead_bound : (n cursor i : ℕ) → cursor < n → i < n → ahead n cursor i < n
unfolding ahead
ahead_bound n cursor i h k = ground arith

ahead_reached :
    (n start offset i : ℕ) → start < n → i < n → offset ≡ ahead n start i → (start + offset) % n ≡ i
unfolding ahead wrapped
ahead_reached n start offset i h k e = ground (arith, mod-wrapped n (start + offset) (ground arith))

ahead_passed :
    (n start offset i : ℕ)
    → start < n
    → i < n
    → offset < ahead n start i
    → ahead n (((start + offset) % n + 1) % n) i < ahead n start i
unfolding ahead wrapped
ahead_passed n start offset i h k e =
    let bound = ahead_bound n start i h k in
    let first = mod-wrapped n (start + offset) (omega arith) in
    let second = mod-wrapped n ((start + offset) % n + 1) (ground (arith, first)) in
    ground (arith, first, second)

remainder_lt : (a n i : ℕ) → i < n → a % n < n
remainder_lt a n i h = omega arith

get_elem?-some :
    {A : Type 0} (xs : List A) (i : ℕ) → i < length xs → (a : A) × (get_elem? xs i ≡ some a)
get_elem?-some [] i h = absurd (omega arith)
get_elem?-some (x ∷ xs) zero h = (x, refl)
get_elem?-some (x ∷ xs) (suc i) h = get_elem?-some xs i (omega arith)

get_elem?-lt : {A : Type 0} (xs : List A) (i : ℕ) (a : A) → get_elem? xs i ≡ some a → i < length xs
get_elem?-lt [] i a h = cc
get_elem?-lt (x ∷ xs) zero a h = omega arith
get_elem?-lt (x ∷ xs) (suc i) a h = omega (arith, get_elem?-lt xs i a h)

-- A turn that worked has served `i`, and starts next after it, or came closer to it; one that has
-- not worked met an error and keeps the cursor.
abbrev pub Turns : ℕ → ℕ → ℕ → ℕ → Work × ℕ → Type 0
Turns n start cursor i ((true, e), next) =
    (next < n) × ((next ≡ (i + 1) % n) ⊎ (ahead n next i < ahead n start i))
Turns n start cursor i ((false, some e), next) = next ≡ cursor
Turns n start cursor i ((false, none), next) = ⊥

module _ {S : Type 0} (paused : JobCapability → State S Bool)
    (process : JobCapability → State S Work) (caps : List JobCapability) (i : ℕ) (c : JobCapability)
    (here : get_elem? caps i ≡ some c) (unpaused : (s : S) → (paused c s).0 ≡ false)
    (works : (s : S) → (process c s).0.0 ≡ true) where
  settled_here :
      (start cursor index : ℕ) (rest : State S (Work × ℕ)) (work : Work) (s : S)
      → work.0 ≡ true
      → index ≡ i
      → Turns
          (length caps)
          start
          cursor
          i
          (settle paused process index cursor (length caps) rest work s).0
  settled_here start cursor index rest (true, e) s w at =
      (remainder_lt (index + 1) (length caps) i (get_elem?-lt caps i c here), inl (rw at refl))
  settled_here start cursor index rest (false, e) s w at = cc

  settled_before :
      (start cursor index : ℕ) (rest : State S (Work × ℕ)) (work : Work) (s : S)
      → ahead (length caps) ((index + 1) % length caps) i < ahead (length caps) start i
      → ((s : S) → Turns (length caps) start cursor i (rest s).0)
      → Turns
          (length caps)
          start
          cursor
          i
          (settle paused process index cursor (length caps) rest work s).0
  settled_before start cursor index rest (true, e) s closer later =
      (remainder_lt (index + 1) (length caps) i (get_elem?-lt caps i c here), inr closer)
  settled_before start cursor index rest (false, some e) s closer later = refl
  settled_before start cursor index rest (false, none) s closer later = later s

  attempted_here :
      (start cursor index : ℕ) (rest : State S (Work × ℕ)) (s : S)
      → index ≡ i
      → Turns
          (length caps)
          start
          cursor
          i
          (attempt paused process (get_elem? caps index) index cursor (length caps) rest s).0
  attempted_here start cursor index rest s at =
      let found : get_elem? caps index ≡ some c = rw at here in
      rw (found, unpaused s)
        (settled_here start cursor index rest (process c (paused c s).1).0
          (process c (paused c s).1).1 (works (paused c s).1) at)

  attempted_before :
      (start cursor index : ℕ) (rest : State S (Work × ℕ)) (s : S)
      → index < length caps
      → ahead (length caps) ((index + 1) % length caps) i < ahead (length caps) start i
      → ((s : S) → Turns (length caps) start cursor i (rest s).0)
      → Turns
          (length caps)
          start
          cursor
          i
          (attempt paused process (get_elem? caps index) index cursor (length caps) rest s).0
  attempted_before start cursor index rest s in_range closer later =
      let (k, found) = get_elem?-some caps index in_range in
      elim (Bool-cases (paused k s).0) [
        | inl skipped ↦ rw (found, skipped) (later (paused k s).1)
        | inr tried ↦
            rw (found, tried)
              (settled_before start cursor index rest (process k (paused k s).1).0
                (process k (paused k s).1).1 closer later)
      ]

  visit-Turns :
      (start cursor offset left : ℕ) (s : S)
      → start < length caps
      → offset + left ≡ length caps
      → offset ≤ ahead (length caps) start i
      → Turns (length caps) start cursor i (visit paused process caps start cursor offset left s).0
  unfolding visit
  visit-Turns start cursor offset zero s h total reached = absurd (
      omega
        (arith, ahead_bound (length caps) start i h (get_elem?-lt caps i c here), total, reached))
  visit-Turns start cursor offset (suc left) s h total reached =
      let n = length caps in
      let below = get_elem?-lt caps i c here in
      let index = (start + offset) % n in
      let rest = visit paused process caps start cursor (offset + 1) left in
      elim (Bool-cases (offset == ahead n start i)) [
        | inl now ↦
            attempted_here start cursor index rest s (
              ahead_reached n start offset i h below ((nat_beq_iff offset (ahead n start i)).0 now))
        | inr not_yet ↦
            let before : offset < ahead n start i =
              ground (arith, nat_beq_iff offset (ahead n start i)) in
            attempted_before start cursor index rest s (remainder_lt (start + offset) n i below)
              (ahead_passed n start offset i h below before)
              (λ t. visit-Turns start cursor (offset + 1) left t h (omega arith) (omega arith))
      ]

  -- While the capability at the index `i` is not paused and always finds work, each turn works or
  -- ends in an error that keeps the cursor, and a turn that works serves that capability or leaves
  -- strictly fewer steps to it.
  pub process_one_available_batch-Turns :
      (cursor : ℕ) (s : S)
      → cursor < length caps
      → Turns
          (length caps)
          cursor
          cursor
          i
          (process_one_available_batch paused process caps cursor s).0
  unfolding process_one_available_batch visit
  process_one_available_batch-Turns cursor s h =
      let n = length caps in
      let nonempty : (n == 0) ≡ false = ground (arith, nat_beq_iff n 0) in
      rw (nonempty, mod-eq_of_lt h) (visit-Turns cursor cursor 0 n s h (omega arith) (omega arith))
