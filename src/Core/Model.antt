-- ===== src/Core/Model.antt =====
-- outbox/models/job.go, shared/types/types.go and outbox/capability.go: identifiers, jobs and
-- capabilities.
use outbox.Base.{
  ℕ, ◌≡◌, Bool, true, Option, none, some, ◌&&◌, ◌==◌, arith, if◌then◌else◌, Eq, Text, text_lt, ◌↔◌,
  nat_beq, text_beq, text_beq_iff, text_eq,
}
use outbox.Base.Int.{ℤ, pos, leb_ℤ, ltb_ℤ, int_beq, int_beq_iff}
use outbox.Core.Errors.{Time, Error, sentinel, wrapped, invalid_schema_version}

-- A UUID as the number its 128 bits stand for; its text has the order of that number.
abbrev pub JobId : Type 0
JobId = ℕ

abbrev pub LeaseToken : Type 0
LeaseToken = ℕ

-- `JobID.IsZero`, and so for the other identifiers
abbrev pub is_zero : ℕ → Bool
is_zero id = nat_beq id 0

-- an int32
abbrev pub SchemaVersion : Type 0
SchemaVersion = ℤ

abbrev pub default_schema_version : SchemaVersion
default_schema_version = pos 1

-- `sql.NullTime`
pub record NullTime : Type 0 where
  pub time : Time
  pub valid : Bool

pub record JobCapability : Type 0 where
  pub name : Text
  pub schema_version : SchemaVersion

-- `models.Job`
pub record Job : Type 0 where
  pub id : JobId
  pub queue : Text
  pub name : Text
  pub schema_version : SchemaVersion
  pub payload : Text
  pub attempts : ℤ
  pub reserved_at : NullTime
  pub lease_token : LeaseToken
  pub deduplication_key : Option Text
  pub available_at : Time
  pub created_at : Time

pub record UniqueBatchPut : Type 0 where
  pub deduplication_key : Text
  pub name : Text
  pub schema_version : SchemaVersion
  pub payload : Text
  pub available_at : Time

pub record UniquePutResult : Type 0 where
  pub job_id : JobId
  pub created : Bool

abbrev pub capability_beq : JobCapability → JobCapability → Bool
capability_beq c d = text_beq c.name d.name && int_beq c.schema_version d.schema_version

pub capability_beq_iff : (c d : JobCapability) → (capability_beq c d ≡ true) ↔ (c ≡ d)
capability_beq_iff c d =
    ground (arith, text_beq_iff c.name d.name, int_beq_iff c.schema_version d.schema_version)

instance abbrev pub capability_eq : Eq JobCapability
capability_eq = record { beq = capability_beq; beq_iff = capability_beq_iff }

-- `JobCapability.Validate`
abbrev pub validate_capability : JobCapability → Option Error
validate_capability c =
    if leb_ℤ c.schema_version (pos 0)
    then some (wrapped (sentinel invalid_schema_version))
    else none

unfoldable pub normalize_schema_version : SchemaVersion → SchemaVersion
normalize_schema_version version = if leb_ℤ version (pos 0) then default_schema_version else version

-- The capability that a claimed job stands for.
abbrev pub job_capability : Job → JobCapability
job_capability job = record {
  name = job.name;
  schema_version = normalize_schema_version job.schema_version;
}

-- the `less` function of `sortCapabilities`
pub capability_less : JobCapability → JobCapability → Bool
capability_less c d =
    if c.name == d.name then ltb_ℤ c.schema_version d.schema_version else text_lt c.name d.name
