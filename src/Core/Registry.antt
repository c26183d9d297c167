-- ===== src/Core/Registry.antt =====
-- The handlers that a service knows: `RegisterJobs` and `RegisterBatchJob` of outbox/service.go, with
-- the capabilities of outbox/capability.go. Each registration is one critical section under `mu`.
pub mod Contents
pub mod Disjointness
use outbox.Base.{
  ℕ, Bool, true, false, not, Option, none, some, List, [], ◌∷◌, if◌then◌else◌, ◌||◌, ltb, Text,
  is_some,
}
use outbox.Base.Int.{ℤ, pos, ltb_ℤ}
use outbox.Base.Dict.{Dict, lookup, contains, insert}
use outbox.Core.Errors.{
  Error, sentinel, wrapped, foreign, service_running, batch_repository_not_configured,
  reservation_batch_size_unsupported,
}
use outbox.Core.Model.{
  SchemaVersion, JobCapability, capability_eq, validate_capability, default_schema_version,
}
use outbox.Core.Retry.{Result, ok, err}
use outbox.Core.Batch.{BatchConfig, NormalizedBatchConfig, normalize_config}

-- What a registration reads of a handler: its name and, where it implements `VersionedJob`, its
-- schema version. The handler itself is known by a number.
pub record Handler : Type 0 where
  pub identity : ℕ
  pub name : Text
  pub schema_version : Option SchemaVersion

pub record BatchJobRegistration : Type 0 where
  pub job : Handler
  pub config : NormalizedBatchConfig

pub record Registry : Type 0 where
  pub jobs : Dict JobCapability Handler
  pub batch_jobs : Dict JobCapability BatchJobRegistration
  pub running : Bool

abbrev pub nil_job : Error
nil_job = foreign 11

abbrev pub duplicate_capability : Error
duplicate_capability = foreign 12

abbrev pub already_registered : Error
already_registered = foreign 13

abbrev version_or_default : Option SchemaVersion → SchemaVersion
version_or_default none = default_schema_version
version_or_default (some version) = version

abbrev pub checked : Option Error → JobCapability → Result JobCapability
checked none c = ok c
checked (some e) c = err e

-- `capabilityForJob` and `capabilityForBatchJob`
pub capability_for_job : Handler → Result JobCapability
capability_for_job h =
    let c : JobCapability = record {
      name = h.name;
      schema_version = version_or_default h.schema_version;
    } in
    checked (validate_capability c) c

-- The first loop of `RegisterJobs`; the map holds the handlers before.
pub collect :
    List (Option Handler) → Dict JobCapability Handler → Result (Dict JobCapability Handler)
collect [] d = ok d
collect (none ∷ hs) d = err nil_job
collect (some h ∷ hs) d = elim (capability_for_job h) [
  | err e ↦ err (wrapped e)
  | ok c ↦
      let rest = collect hs (insert c h d) in
      if contains c d then err duplicate_capability else rest
]

-- `range capabilities` against the registered ones; Go chooses the order, and with it only which
-- capability the message names.
pub clashes : Dict JobCapability Handler → Registry → Bool
clashes [] r = false
clashes ((c, h) ∷ d) r = contains c r.jobs || contains c r.batch_jobs || clashes d r

abbrev pub install :
    Dict JobCapability Handler → Dict JobCapability Handler → Dict JobCapability Handler
install [] jobs = jobs
install ((c, h) ∷ d) jobs = install d (insert c h jobs)

pub install_all : Result (Dict JobCapability Handler) → Registry → Option Error × Registry
unfolding clashes
install_all (err e) r = (some e, r)
install_all (ok d) r =
    if r.running
    then (some (sentinel service_running), r)
    else if clashes d r
    then (some already_registered, r)
    else (none, record r { jobs = install d r.jobs })

-- `RegisterJobs`
pub register_jobs : List (Option Handler) → Registry → Option Error × Registry
unfolding collect install_all
register_jobs hs r = install_all (collect hs []) r

pub install_batch :
    Handler → NormalizedBatchConfig → Result JobCapability → Registry → Option Error × Registry
install_batch h config (err e) r = (some (wrapped e), r)
install_batch h config (ok c) r =
    if r.running
    then (some (sentinel service_running), r)
    else if contains c r.jobs
    then (some already_registered, r)
    else if contains c r.batch_jobs
    then (some already_registered, r)
    else (
      none,
      record r { batch_jobs = insert c (record { job = h; config = config }) r.batch_jobs },
    )

abbrev pub check_size :
    ℤ → Handler → Result NormalizedBatchConfig → Registry → Option Error × Registry
unfolding install_batch capability_for_job
check_size repository_max h (err e) r = (some (wrapped e), r)
check_size repository_max h (ok config) r =
    if ltb_ℤ repository_max (pos 1) || ltb_ℤ repository_max (pos config.max_messages)
    then (some (wrapped (sentinel reservation_batch_size_unsupported)), r)
    else install_batch h config (capability_for_job h) r

-- `RegisterBatchJob`; the repository's maximum is there if it implements `BatchJobsRepository`.
pub register_batch_job :
    Option ℤ → Option Handler → BatchConfig → Registry → Option Error × Registry
unfolding install_batch capability_for_job
register_batch_job repository none config r = (some nil_job, r)
register_batch_job none (some h) config r = (some (sentinel batch_repository_not_configured), r)
register_batch_job (some repository_max) (some h) config r =
    check_size repository_max h (normalize_config config) r
