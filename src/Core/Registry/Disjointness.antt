-- ===== src/Core/Registry/Disjointness.antt =====
-- A capability is registered for one kind of handler.
use outbox.Base.{◌≡◌, true, false, Option, none, some, List, arith}
use outbox.Base.Int.{ℤ}
use outbox.Base.Dict.{contains, lookup-insert}
use outbox.Core.Errors.{Error}
use outbox.Core.Model.{JobCapability, capability_eq, capability_beq_iff}
use outbox.Core.Retry.{Result, ok, err}
use outbox.Core.Batch.{BatchConfig, NormalizedBatchConfig, normalize_config}
use outbox.Core.Registry.Contents.{Registers, register_jobs-Registers}
use outbox.Core.Registry.{
  Handler, Registry, register_jobs, register_batch_job, install_batch, check_size,
  capability_for_job,
}

-- No capability is registered both for single rows and for batches.
abbrev pub IsDisjoint : Registry → Type 0
IsDisjoint r = (c : JobCapability) → contains c r.jobs ≡ true → contains c r.batch_jobs ≡ false

-- One registration of either kind.
pub data Registration : Registry → Registry → Type 0 where
  single : (hs : List (Option Handler)) (r : Registry) → Registration r (register_jobs hs r).1
  batch :
      (repository : Option ℤ) (h : Option Handler) (config : BatchConfig) (r : Registry)
      → Registration r (register_batch_job repository h config r).1

pub data Registrations : Registry → Registry → Type 0 where
  done : (r : Registry) → Registrations r r
  then_one : (r s t : Registry) → Registrations r s → Registration s t → Registrations r t

Registers-IsDisjoint :
    (hs : List (Option Handler)) (r : Registry) (o : Option Error × Registry)
    → Registers hs r o
    → IsDisjoint r
    → IsDisjoint o.1
Registers-IsDisjoint hs r (some e, r') h d c e' = rw h.1 (d c (rw (← h.1) e'))
Registers-IsDisjoint hs r (none, r') ((proper, stopped, new), entries, batches, running) d c e =
    rw batches (ground (arith, d c, new c, entries c))

install_batch-IsDisjoint :
    (h : Handler) (config : NormalizedBatchConfig) (c : Result JobCapability) (r : Registry)
    → IsDisjoint r
    → IsDisjoint (install_batch h config c r).1
unfolding install_batch
install_batch-IsDisjoint h config (err e) r d c e' = d c e'
install_batch-IsDisjoint h config (ok k) r d c e = ground (
  arith,
  d c,
  lookup-insert k c (record { job = h; config = config }) r.batch_jobs,
  capability_beq_iff k c,
)

check_size-IsDisjoint :
    (repository_max : ℤ) (h : Handler) (config : Result NormalizedBatchConfig) (r : Registry)
    → IsDisjoint r
    → IsDisjoint (check_size repository_max h config r).1
unfolding check_size capability_for_job install_batch
check_size-IsDisjoint repository_max h (err e) r d c e' = d c e'
check_size-IsDisjoint repository_max h (ok config) r d c e =
    ground (arith, d c, install_batch-IsDisjoint h config (capability_for_job h) r d c)

batch-IsDisjoint :
    (repository : Option ℤ) (h : Option Handler) (config : BatchConfig) (r : Registry)
    → IsDisjoint r
    → IsDisjoint (register_batch_job repository h config r).1
unfolding register_batch_job
batch-IsDisjoint repository none config r d = d
batch-IsDisjoint none (some h) config r d = d
batch-IsDisjoint (some repository_max) (some h) config r d =
    check_size-IsDisjoint repository_max h (normalize_config config) r d

Registration-IsDisjoint : (r s : Registry) → Registration r s → IsDisjoint r → IsDisjoint s
Registration-IsDisjoint _ _ (single hs r) d =
    Registers-IsDisjoint hs r (register_jobs hs r) (register_jobs-Registers hs r) d
Registration-IsDisjoint _ _ (batch repository h config r) d =
    batch-IsDisjoint repository h config r d

-- Whatever registrations follow one another, in any order and whether they fail or not, no
-- capability is ever registered both for single rows and for batches.
pub Registrations-IsDisjoint : (r s : Registry) → Registrations r s → IsDisjoint r → IsDisjoint s
Registrations-IsDisjoint r _ (done _) d = d
Registrations-IsDisjoint r t (then_one _ s _ before last) d =
    Registration-IsDisjoint s t last (Registrations-IsDisjoint r s before d)
