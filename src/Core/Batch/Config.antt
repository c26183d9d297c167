-- ===== src/Core/Batch/Config.antt =====
-- What a normalized batch configuration satisfies.
use outbox.Base.{ℕ, zero, suc, refl, ◌≤◌, ◌≡◌, ◌≢◌, ◌⊎◌, inl, inr, arith}
use outbox.Base.Int.{ℤ, pos, negsuc, ◌≤ℤ◌}
use outbox.Core.Errors.{Error}
use outbox.Core.Retry.{Result, ok, err}
use outbox.Core.Batch.{
  BatchConfig, NormalizedBatchConfig, normalize_config, normalize, max_reservation_batch_size,
  max_int32, with_defaults, default_if_zero,
}

pub record InBounds (n : NormalizedBatchConfig) : Type 0 where
  pub some_messages : 1 ≤ n.max_messages
  pub messages : n.max_messages ≤ max_reservation_batch_size
  pub some_bytes : 1 ≤ n.max_bytes
  pub bytes : n.max_bytes ≤ max_int32
  pub some_wait : 1 ≤ n.max_wait

-- No limit is negative, and none is above its bound.
pub record IsSupported (c : BatchConfig) : Type 0 where
  pub messages : (pos 0 ≤ℤ c.max_messages) × (c.max_messages ≤ℤ pos max_reservation_batch_size)
  pub bytes : (pos 0 ≤ℤ c.max_bytes) × (c.max_bytes ≤ℤ pos max_int32)
  pub wait : pos 0 ≤ℤ c.max_wait

-- A limit of 0 stands for the default, and any other for itself.
abbrev pub Stands : ℤ → ℕ → ℕ → Type 0
Stands configured default n =
    ((configured ≡ pos 0) × (n ≡ default)) ⊎ ((configured ≢ pos 0) × (configured ≡ pos n))

-- 100 messages, 4 MiB and 25 ms unless they are configured.
pub record IsResolved (c : BatchConfig) (n : NormalizedBatchConfig) : Type 0 where
  pub messages : Stands c.max_messages 100 n.max_messages
  pub bytes : Stands c.max_bytes 4194304 n.max_bytes
  pub wait : Stands c.max_wait 25000000 n.max_wait

abbrev pub Normalizes : BatchConfig → Result NormalizedBatchConfig → Type 0
Normalizes c (ok n) = IsSupported c × InBounds n × IsResolved c n
Normalizes c (err e) = ¬ IsSupported c

default_if_zero-Stands :
    (configured : ℤ) (default : ℕ)
    → pos 0 ≤ℤ configured
    → Stands configured default (default_if_zero configured default)
default_if_zero-Stands (pos zero) default h = inl (refl, refl)
default_if_zero-Stands (pos (suc n)) default h = inr (λ e. absurd (ground arith), ground arith)
default_if_zero-Stands (negsuc n) default h = absurd (ground arith)

with_defaults-IsResolved : (c : BatchConfig) → IsSupported c → IsResolved c (with_defaults c)
with_defaults-IsResolved c s = record {
  messages = default_if_zero-Stands c.max_messages 100 s.messages.0;
  bytes = default_if_zero-Stands c.max_bytes 4194304 s.bytes.0;
  wait = default_if_zero-Stands c.max_wait 25000000 s.wait;
}

supported :
    (c : BatchConfig) (n : NormalizedBatchConfig) → normalize_config c ≡ ok n → IsSupported c
unfolding normalize_config
supported c n h = record {
  messages = (ground arith, ground arith);
  bytes = (ground arith, ground arith);
  wait = ground arith;
}

resolved :
    (c : BatchConfig) (n : NormalizedBatchConfig) → normalize_config c ≡ ok n → n ≡ with_defaults c
unfolding normalize_config
resolved c n h = ground arith

accepts :
    (c : BatchConfig) (n : NormalizedBatchConfig)
    → normalize_config c ≡ ok n
    → IsSupported c × InBounds n × IsResolved c n
unfolding normalize_config
accepts c n h = (
  supported c n h,
  record {
    some_messages = ground arith;
    messages = ground arith;
    some_bytes = ground arith;
    bytes = ground arith;
    some_wait = ground arith;
  },
  rw (resolved c n h) (with_defaults-IsResolved c (supported c n h)),
)

refuses : (c : BatchConfig) (e : Error) → normalize_config c ≡ err e → ¬ IsSupported c
unfolding normalize_config
refuses c e h s = ground arith

-- Normalization succeeds exactly on the supported configurations; it then keeps each limit but a
-- zero, for which its default (100 messages, 4 MiB, 25 ms) stands, and returns limits that are positive and within the supported bounds.
pub normalize_config-Normalizes : (c : BatchConfig) → Normalizes c (normalize_config c)
normalize_config-Normalizes c = go (normalize_config c) refl
  where
    go : (r : Result NormalizedBatchConfig) → normalize_config c ≡ r → Normalizes c r
    go (ok n) h = accepts c n h
    go (err e) h = refuses c e h

-- A normalized configuration normalizes to itself.
pub normalize-normalize : (c d : BatchConfig) → normalize c ≡ ok d → normalize d ≡ ok d
unfolding normalize
normalize-normalize c d h = ground arith
