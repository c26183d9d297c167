-- ===== src/Base/Int.antt =====
-- Go's signed `int`, `int32` and `int64` values as integers over the native numbers. Sums and orders
-- go through the two parts of an integer, which are numbers that `omega` reads.
use outbox.Base.{
  ℕ, suc, ◌+◌, ◌-◌, ◌*◌, ◌/◌, ◌%◌, ◌≤◌, ◌<◌, ◌≡◌, Bool, arith, ltb, leb, if◌then◌else◌, Eq, ◌↔◌,
  nat_beq,
}

-- `negsuc n` is -(n + 1).
pub data ℤ : Type 0 where
  pos : ℕ → ℤ
  negsuc : ℕ → ℤ

abbrev pub pos_part : ℤ → ℕ
pos_part (pos n) = n
pos_part (negsuc n) = 0

abbrev pub neg_part : ℤ → ℕ
neg_part (pos n) = 0
neg_part (negsuc n) = suc n

-- a - b, as an integer.
abbrev pub sub_ℕ : ℕ → ℕ → ℤ
sub_ℕ a b = if leb b a then pos (a - b) else negsuc (b - a - 1)

infix 50 ◌≤ℤ◌ ◌<ℤ◌
abbrev pub ◌≤ℤ◌ : ℤ → ℤ → Type 0
a ≤ℤ b = pos_part a + neg_part b ≤ pos_part b + neg_part a

abbrev pub ◌<ℤ◌ : ℤ → ℤ → Type 0
a <ℤ b = pos_part a + neg_part b < pos_part b + neg_part a

abbrev pub ltb_ℤ : ℤ → ℤ → Bool
ltb_ℤ a b = ltb (pos_part a + neg_part b) (pos_part b + neg_part a)

abbrev pub leb_ℤ : ℤ → ℤ → Bool
leb_ℤ a b = leb (pos_part a + neg_part b) (pos_part b + neg_part a)

abbrev pub int_beq : ℤ → ℤ → Bool
int_beq (pos a) (pos b) = nat_beq a b
int_beq (pos a) (negsuc b) = Bool.false
int_beq (negsuc a) (pos b) = Bool.false
int_beq (negsuc a) (negsuc b) = nat_beq a b

pub int_beq_iff : (a b : ℤ) → (int_beq a b ≡ Bool.true) ↔ (a ≡ b)
int_beq_iff a b = ground arith

instance abbrev pub int_eq : Eq ℤ
int_eq = record { beq = int_beq; beq_iff = int_beq_iff }

-- 2 ^ 63.
abbrev pub int64_half : ℕ
int64_half = 9223372036854775808

abbrev pub int64_modulus : ℕ
int64_modulus = 18446744073709551616

-- The int64 with the given two's complement bit pattern.
abbrev pub of_bits : ℕ → ℤ
of_bits x = if ltb x int64_half then pos x else negsuc (int64_modulus - 1 - x)

-- `2 * a` on an int64, with its wrap-around.
unfoldable pub double64 : ℤ → ℤ
double64 (pos n) = of_bits ((2 * n) % int64_modulus)
double64 (negsuc n) = of_bits ((int64_modulus - 2 * suc n % int64_modulus) % int64_modulus)

-- Go's `/ 2`, which rounds towards 0.
unfoldable pub half64 : ℤ → ℤ
half64 (pos n) = pos (n / 2)
half64 (negsuc n) = sub_ℕ 0 (suc n / 2)

-- Go's `min`.
abbrev pub min_ℤ : ℤ → ℤ → ℤ
min_ℤ a b = if leb_ℤ a b then a else b

-- Below a bound that is an int64, doubling does not wrap.
pub double64_lem : (n : ℕ) → 2 * n < int64_half → double64 (pos n) ≡ pos (2 * n)
unfolding double64
double64_lem n h = ground arith
