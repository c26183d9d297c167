-- ===== src/Core/Tests/Services.antt =====
-- The theorems on registration, publication, pauses and turns at sample services.
use outbox.Base.{ℕ, ◌+◌, ◌<◌, ◌≡◌, refl, true, false, Bool, none, some, List, [], ◌∷◌, arith}
use outbox.Base.Int.{half64, double64, pos}
use outbox.Core.Errors.{Error, foreign, defer_time, retry_time}
use outbox.Core.Model.{JobCapability, UniqueBatchPut}
use outbox.Core.Env.{State}
use outbox.Core.Retry.{batch_attempt_backoff, grow}
use outbox.Base.{text_beq}
use outbox.Core.Pause.{
  back_off, pause_batch_capability, pause_batch_capability, back_off, Pacing,
  batch_capability_paused, top_level_batch_retry_time,
}
use outbox.Core.Pause.Backoff.{
  Backs, top_level_batch_retry_time-Backs, batch_capability_paused-top_level,
}
use outbox.Core.Registry.{Handler, Registry, register_jobs, register_batch_job}
use outbox.Core.Registry.Contents.{Registers, register_jobs-Registers}
use outbox.Core.Registry.Disjointness.{
  IsDisjoint, done, then_one, single, batch, Registrations-IsDisjoint,
}
use outbox.Core.Publish.{put_versioned_unique_batch}
use outbox.Core.Publish.Batches.{Publishes, put_versioned_unique_batch-Publishes}
use outbox.Core.Worker.{Work, process_one_available_batch}
use outbox.Core.Options.{Options, reporting, validate}
use outbox.Core.Options.Acceptance.{Accepted, validate-Accepted}
use outbox.Base.{◌↔◌}
use outbox.Core.Worker.Fairness.{Turns, process_one_available_batch-Turns}
use outbox.Core.Tests.{steady, mail, mail_capability}

abbrev mail_handler : Handler
mail_handler = record { identity = 1; name = mail; schema_version = none }

abbrev newer_handler : Handler
newer_handler = record { identity = 2; name = mail; schema_version = some (pos 2) }

abbrev empty_registry : Registry
empty_registry = record { jobs = []; batch_jobs = []; running = false }

register_jobs-Registers_example :
    Registers
      (some mail_handler ∷ [])
      empty_registry
      (register_jobs (some mail_handler ∷ []) empty_registry)
register_jobs-Registers_example = register_jobs-Registers (some mail_handler ∷ []) empty_registry

abbrev one_job : Registry
one_job = (register_jobs (some mail_handler ∷ []) empty_registry).1

abbrev with_batches : Registry
with_batches =
    (register_batch_job (some (pos 500)) (some newer_handler)
      (record { max_messages = pos 0; max_bytes = pos 0; max_wait = pos 0 }) one_job).1

Registrations-IsDisjoint_example : IsDisjoint with_batches
Registrations-IsDisjoint_example =
    Registrations-IsDisjoint empty_registry with_batches
      (then_one empty_registry one_job with_batches
        (then_one empty_registry empty_registry one_job (done empty_registry)
          (single (some mail_handler ∷ []) empty_registry))
        (batch (some (pos 500)) (some newer_handler)
          (record { max_messages = pos 0; max_bytes = pos 0; max_wait = pos 0 }) one_job))
      (λ c e. refl)

abbrev puts : List UniqueBatchPut
puts =
    record {
      deduplication_key = 1 ∷ [];
      name = mail;
      schema_version = pos 1;
      payload = [];
      available_at = 10;
    }
    ∷ []

put_versioned_unique_batch-Publishes_example :
    Publishes steady tt puts 100 (put_versioned_unique_batch steady true tt puts 100)
put_versioned_unique_batch-Publishes_example =
    put_versioned_unique_batch-Publishes steady tt puts 100

abbrev second_failure : Pacing
second_failure = record { paused = []; streak = (mail_capability, 1) ∷ [] }

abbrev failure : Error
failure = foreign 100

top_level_batch_retry_time-Backs_example :
    Backs
      (defer_time failure)
      (retry_time failure)
      mail_capability
      500
      second_failure
      (top_level_batch_retry_time mail_capability failure 500 second_failure)
top_level_batch_retry_time-Backs_example =
    top_level_batch_retry_time-Backs mail_capability failure 500 second_failure

later_than_due : 600 < (top_level_batch_retry_time mail_capability failure 500 second_failure).0
unfolding top_level_batch_retry_time back_off pause_batch_capability batch_attempt_backoff grow
    retry_time defer_time text_beq half64 double64
later_than_due = omega arith

batch_capability_paused-top_level_example :
    batch_capability_paused mail_capability 600
      (top_level_batch_retry_time mail_capability failure 500 second_failure).1
    ≡ (true, (top_level_batch_retry_time mail_capability failure 500 second_failure).1)
batch_capability_paused-top_level_example =
    batch_capability_paused-top_level mail_capability failure 500 600 second_failure later_than_due

abbrev newer_capability : JobCapability
newer_capability = record { name = mail; schema_version = pos 2 }

abbrev never_paused : JobCapability → State ℕ Bool
never_paused c s = (false, s + 1)

abbrev always_works : JobCapability → State ℕ Work
always_works c s = ((true, none), s + 1)

process_one_available_batch-Turns_example :
    Turns 2 0 0 1
      (process_one_available_batch never_paused always_works
        (mail_capability ∷ newer_capability ∷ [])
        0
        100).0
process_one_available_batch-Turns_example =
    process_one_available_batch-Turns never_paused always_works
      (mail_capability ∷ newer_capability ∷ []) 1 newer_capability refl (λ s. refl) (λ s. refl) 0
      100 (omega arith)

abbrev plain_options : Options
plain_options = record {
  workers = pos 1;
  idle_time = pos 1000000000;
  reserve_for = pos 300000000000;
  reservation_batch_size = pos 1;
  jobs_repo = some (pos 1000);
  has_jobs_failed_repo = true;
  transactor = some (reporting true);
  allow_non_atomic_dlq = false;
  atomic_dlq = false;
  has_logger = true;
}

validate-Accepted_example :
    ((validate plain_options).0 ≡ none)
    ↔ Accepted plain_options plain_options.jobs_repo plain_options.transactor
validate-Accepted_example = validate-Accepted plain_options
