-- ===== src/Core/Tests.antt =====
-- Sample data: an outside world with a clock, in which each call succeeds, two claimed rows and the
-- ledger of their leases.
pub mod Leases
pub mod Batches
pub mod Services
use outbox.Base.{ℕ, ◌+◌, ◌≡◌, refl, true, false, none, some, List, [], ◌∷◌, length, All, Text}
use outbox.Base.Int.{ℤ, pos}
use outbox.Core.Model.{Job, JobCapability, UniqueBatchPut}
use outbox.Core.Retry.{ok}
use outbox.Core.Env.{Env}
use outbox.Core.Claim.{validate_claimed_job_lease}
use outbox.Core.Lease.{Held, new_ledger}

-- The world is its clock, and each call takes a nanosecond.
abbrev pub steady : Env
steady = record {
  World = ℕ;
  Ctx = Unit {0};
  now = λ w. (w, w + 1);
  cause = λ c w. (none, w + 1);
  with_deadline = λ c t. c;
  without_cancel = λ c. c;
  cancel_batch = λ e w. w;
  draining = λ w. (false, w + 1);
  lock_context = λ c w. (none, w + 1);
  find_and_reserve_jobs = λ c t until token cs limit w. (ok [], w + 1);
  extend_job_leases = λ c ids token t until w. (ok (length ids), w + 1);
  release_unstarted_jobs = λ c ids token t w. (ok (length ids), w + 1);
  delete_job = λ c id token t w. (ok 1, w + 1);
  reschedule_job = λ c id token t at w. (ok 1, w + 1);
  defer_job = λ c id token t at w. (ok 1, w + 1);
  create_failed_job = λ c id name version payload reason w. (ok id, w + 1);
  apply_batch_job_outcomes = λ c token t os w. (ok (length os), w + 1);
  run_in_tx = λ c f. f c;
  create_job = λ c name version payload at w. (ok (w + 1), w + 1);
  create_job_unique = λ c item w. (ok (record { job_id = w + 1; created = true }), w + 1);
  create_job_unique_batch =
      λ c items w. (ok (record { job_id = w + 1; created = true } ∷ []), w + 1);
}

abbrev pub mail : Text
mail = 109 ∷ 97 ∷ 105 ∷ 108 ∷ []

abbrev pub mail_capability : JobCapability
mail_capability = record { name = mail; schema_version = pos 1 }

abbrev pub job_numbered : ℕ → ℤ → Job
job_numbered id attempts = record {
  id = id;
  queue = [];
  name = mail;
  schema_version = pos 1;
  payload = 1 ∷ 2 ∷ 3 ∷ [];
  attempts = attempts;
  reserved_at = record { time = 2000000000; valid = true };
  lease_token = 5;
  deduplication_key = none;
  available_at = 10;
  created_at = 10;
}

abbrev pub first_job : Job
first_job = job_numbered 7 (pos 1)

abbrev pub second_job : Job
second_job = job_numbered 8 (pos 3)

abbrev pub two_jobs : List Job
two_jobs = first_job ∷ second_job ∷ []

-- Both rows under the token 5, held for 30 seconds at a time, at the time 100.
abbrev pub claimed : Held ℕ
claimed = record { ledger = new_ledger two_jobs 5 30000000000; world = 100 }

pub two_jobs-validate : All (λ job. validate_claimed_job_lease job 5 100 ≡ none) two_jobs
unfolding validate_claimed_job_lease
two_jobs-validate = (refl, (refl, tt))
