-- ===== src/Core/Options/Acceptance.antt =====
-- Which options a service is built from.
use outbox.Base.{◌≡◌, true, ◌||◌, Option, none, some, arith, ◌↔◌}
use outbox.Base.Int.{ℤ, pos, ◌≤ℤ◌}
use outbox.Core.Options.{
  Options, TransactorKind, supports_atomic, validate, validate_parts, validate_reservation_batch,
}

abbrev pub Within : ℤ → ℤ → ℤ → Type 0
Within low high a = (low ≤ℤ a) × (a ≤ℤ high)

pub record IsAccepted (o : Options) (repository_max : ℤ) (kind : TransactorKind) : Type 0 where
  pub failed_rows : o.has_jobs_failed_repo ≡ true
  -- A dead-letter move that is not atomic has to be allowed.
  pub atomic : (supports_atomic kind || o.allow_non_atomic_dlq) ≡ true
  pub logger : o.has_logger ≡ true
  pub workers : pos 1 ≤ℤ o.workers
  pub idle_time : Within (pos 100000000) (pos 10000000000) o.idle_time
  pub reserve_for : Within (pos 1000000000) (pos 600000000000) o.reserve_for
  pub batch : Within (pos 1) (pos 1000) o.reservation_batch_size
  pub repository : o.reservation_batch_size ≤ℤ repository_max

abbrev pub Accepted : Options → Option ℤ → Option TransactorKind → Type 0
Accepted o none transactor = ⊥
Accepted o (some repository_max) none = ⊥
Accepted o (some repository_max) (some kind) = IsAccepted o repository_max kind

parts-Accepted :
    (repo : Option ℤ) (transactor : Option TransactorKind) (o : Options)
    → ((validate_parts repo transactor o).0 ≡ none) ↔ Accepted o repo transactor
unfolding validate_parts validate_reservation_batch
parts-Accepted none transactor o = (λ h. cc, λ h. elim h [ ])
parts-Accepted (some repository_max) none o = (λ h. cc, λ h. elim h [ ])
parts-Accepted (some repository_max) (some kind) o = (
  λ h. record {
    failed_rows = ground arith;
    atomic = ground arith;
    logger = ground arith;
    workers = ground arith;
    idle_time = (ground arith, ground arith);
    reserve_for = (ground arith, ground arith);
    batch = (ground arith, ground arith);
    repository = ground arith;
  },
  λ h. ground (
    arith, h.failed_rows, h.atomic, h.logger, h.workers, h.idle_time, h.reserve_for, h.batch,
    h.repository,
  ),
)

-- Options are accepted exactly if the repositories, the transactor and the logger are there, a
-- dead-letter move is atomic or need not be, there is a worker, an idle time of 100 ms to 10 s, a
-- reservation of 1 s to 10 min, and a batch size from 1 to 1000 that the repository supports.
pub validate-Accepted :
    (o : Options) → ((validate o).0 ≡ none) ↔ Accepted o o.jobs_repo o.transactor
unfolding validate
validate-Accepted o = parts-Accepted o.jobs_repo o.transactor o
