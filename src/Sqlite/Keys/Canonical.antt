-- ===== src/Sqlite/Keys/Canonical.antt =====
-- `jobFingerprint` of backends/sqlite/repositories/jobsrepo/api.go: the text it hashes tells the contents of
-- jobs apart.
use mathlib.Core.List.{append_assoc, append-nil}
use outbox.Base.{
  ◌&&◌, ℕ, zero, suc, ◌+◌, ◌-◌, ◌*◌, ◌/◌, ◌%◌, ◌<◌, ◌≡◌, refl, sym, ap, ◌∙◌, true, [], ◌∷◌, ◌++◌,
  ltb, leb, Text, length, arith, All, Bool-cases, inl, inr,
}
use outbox.Base.Int.{ℤ, pos, negsuc}
use outbox.Core.Errors.{Time}
use outbox.Core.Model.{UniqueBatchPut}
use outbox.Sqlite.Keys.{digits, itoa, format_int, framed, canonical}

-- The number that decimal digits stand for, after the digits read so far.
abbrev value : ℕ → Text → ℕ
value so_far [] = so_far
value so_far (c ∷ text) = value (so_far * 10 + (c - 48)) text

value-digits : (fuel n : ℕ) (tail : Text) → n < fuel → value 0 (digits fuel n tail) ≡ value n tail
unfolding digits
value-digits zero n tail h = absurd (omega (arith, h))
value-digits (suc fuel) n tail h = elim (Bool-cases (ltb n 10)) [
  | inl small ↦ rw small (ap (λ m. value m tail) (omega arith))
  | inr large ↦ rw large (
      value-digits fuel (n / 10) ((48 + n % 10) ∷ tail) (ground arith)
      ∙ ap (λ m. value m tail) (ground arith))
]

itoa_injective : (n m : ℕ) → itoa n ≡ itoa m → n ≡ m
unfolding itoa
itoa_injective n m h =
    sym (value-digits (suc n) n [] (omega arith))
    ∙ ap (value 0) h
    ∙ value-digits (suc m) m [] (omega arith)

abbrev IsDigit : ℕ → Type 0
IsDigit c = (leb 48 c && ltb c 58) ≡ true

digits-IsDigit : (fuel n : ℕ) (tail : Text) → All IsDigit tail → All IsDigit (digits fuel n tail)
unfolding digits
digits-IsDigit zero n tail all = all
digits-IsDigit (suc fuel) n tail all = elim (Bool-cases (ltb n 10)) [
  | inl small ↦ rw small (ground arith, all)
  | inr large ↦ rw large (digits-IsDigit fuel (n / 10) ((48 + n % 10) ∷ tail) (ground arith, all))
]

itoa-IsDigit : (n : ℕ) → All IsDigit (itoa n)
unfolding itoa
itoa-IsDigit n = digits-IsDigit (suc n) n [] tt

cons_parts : (c d : ℕ) (x y : Text) → c ∷ x ≡ d ∷ y → (c ≡ d) × (x ≡ y)
cons_parts c d x y h = (cc, cc)

-- Digits end at the first colon.
split_colon :
    (p q u v : Text) → All IsDigit p → All IsDigit q → p ++ 58 ∷ u ≡ q ++ 58 ∷ v → (p ≡ q) × (u ≡ v)
split_colon [] [] u v hp hq h = (refl, cc)
split_colon [] (d ∷ q) u v hp hq h =
    absurd (ground (arith, (cons_parts 58 d u (q ++ 58 ∷ v) h).0, hq.0))
split_colon (c ∷ p) [] u v hp hq h =
    absurd (ground (arith, (cons_parts c 58 (p ++ 58 ∷ u) v h).0, hp.0))
split_colon (c ∷ p) (d ∷ q) u v hp hq h =
    let (head, tail) = cons_parts c d (p ++ 58 ∷ u) (q ++ 58 ∷ v) h in
    let (same, rest) = split_colon p q u v hp.1 hq.1 tail in (cc, rest)

split_length : (x y r s : Text) → length x ≡ length y → x ++ r ≡ y ++ s → (x ≡ y) × (r ≡ s)
split_length [] [] r s e h = (refl, h)
split_length [] (d ∷ y) r s e h = absurd (omega (arith, e))
split_length (c ∷ x) [] r s e h = absurd (omega (arith, e))
split_length (c ∷ x) (d ∷ y) r s e h =
    let (head, tail) = cons_parts c d (x ++ r) (y ++ s) h in
    let (same, rest) = split_length x y r s (omega (arith, e)) tail in (cc, rest)

-- Framed texts do not run into what follows them.
split_framed : (x y r s : Text) → framed x ++ r ≡ framed y ++ s → (x ≡ y) × (r ≡ s)
unfolding framed
split_framed x y r s h =
    let (count, rest) =
      split_colon (itoa (length x)) (itoa (length y)) (x ++ r) (y ++ s) (itoa-IsDigit (length x))
        (itoa-IsDigit (length y))
        (sym (append_assoc (itoa (length x)) (58 ∷ x) r)
          ∙ h
          ∙ append_assoc (itoa (length y)) (58 ∷ y) s) in
    split_length x y r s (itoa_injective (length x) (length y) count) rest

signed : (n : ℕ) (text : Text) → All IsDigit text → text ≡ 45 ∷ itoa n → 0 < 0
signed n [] all h = cc
signed n (c ∷ text) all h = absurd (ground (arith, (cons_parts c 45 text (itoa n) h).0, all.0))

format_int_injective : (v w : ℤ) → format_int v ≡ format_int w → v ≡ w
unfolding format_int
format_int_injective (pos n) (pos m) h = ap pos (itoa_injective n m h)
format_int_injective (pos n) (negsuc m) h =
    absurd (omega (arith, signed (suc m) (itoa n) (itoa-IsDigit n) h))
format_int_injective (negsuc n) (pos m) h =
    absurd (omega (arith, signed (suc n) (itoa m) (itoa-IsDigit m) (sym h)))
format_int_injective (negsuc n) (negsuc m) h =
    let same =
      itoa_injective (suc n) (suc m) (cons_parts 45 45 (itoa (suc n)) (itoa (suc m)) h).1 in
    ap negsuc (omega (arith, same))

regroup : (a b c d : Text) → a ++ b ++ c ++ d ≡ a ++ (b ++ (c ++ (d ++ [])))
regroup a b c d =
    append_assoc (a ++ b) c d
    ∙ append_assoc a b (c ++ d)
    ∙ ap (λ t. a ++ (b ++ (c ++ t))) (sym (append-nil d))

-- Jobs for which `jobFingerprint` hashes the same text have the same name, schema version and payload, and
-- times of availability that are formatted the same.
pub canonical_injective :
    (format : Time → Text) (put other : UniqueBatchPut)
    → canonical format put ≡ canonical format other
    → (put.name ≡ other.name)
      × (put.schema_version ≡ other.schema_version)
      × (put.payload ≡ other.payload)
      × (format put.available_at ≡ format other.available_at)
unfolding canonical
canonical_injective format put other h =
    let (name, rest) =
      split_framed put.name other.name (after_name put) (after_name other)
        (sym (whole put) ∙ h ∙ whole other) in
    let (version, rest') =
      split_framed (format_int put.schema_version) (format_int other.schema_version)
        (after_version put) (after_version other) rest in
    let (payload, rest'') =
      split_framed put.payload other.payload (framed (format put.available_at) ++ [])
        (framed (format other.available_at) ++ []) rest' in
    let (available, end) =
      split_framed (format put.available_at) (format other.available_at) [] [] rest'' in
    (name, format_int_injective put.schema_version other.schema_version version, payload, available)
  where
    after_version : UniqueBatchPut → Text
    after_version p = framed p.payload ++ (framed (format p.available_at) ++ [])

    after_name : UniqueBatchPut → Text
    after_name p = framed (format_int p.schema_version) ++ after_version p

    whole : (p : UniqueBatchPut) → canonical format p ≡ framed p.name ++ after_name p
    whole p =
        regroup (framed p.name) (framed (format_int p.schema_version)) (framed p.payload)
          (framed (format p.available_at))
