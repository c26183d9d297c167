-- ===== src/Core/Tests/Leases.antt =====
-- The theorems on leases at the sample ledger.
use outbox.Base.{List, ◌≡◌, refl, none, ◌⊎◌, ℕ, ◌+◌, ◌/◌}
use outbox.Core.Lease.{
  batch_start_error, top_up, check_leases, extend_short, extend_rows, finish_extension, finalize,
  recompute_earliest, earliest_of, reset_if_empty, due_ids, earliest_over, set_all, take_row,
  take_rows, new_ledger, Held, extend, admit, ensure_leases,
}
use outbox.Core.Lease.Invariant.{IsSound, Renews}
use outbox.Core.Lease.Extension.{ensure_leases-Renews}
use outbox.Core.Lease.Admission.{admission_time, admit-Renews}
use outbox.Core.Lease.Finalization.{Refuses, RunsCovered, finalize_covers}
use outbox.Core.Lease.Interleavings.{here, then, heartbeat, admits, Reach-new_ledger}
use outbox.Base.{nat_eq, true, some, elem, [], ◌∷◌}
use outbox.Base.Int.{pos}
use outbox.Base.Dict.{lookup}
use outbox.Core.Model.{JobId}
use outbox.Core.Batch.Identifiers.{Distinct}
use outbox.Core.Batch.{BatchJobOutcome, success, retry}
use outbox.Core.Outcome.{outcome_of}
use outbox.Core.Outcome.Coverage.{Stops, Applies, apply_outcomes_covers}
use outbox.Core.Single.{
  ack, dispose, with_handler, run_admitted, cancelled_or, Service, process_batch_job,
}
use outbox.Core.Single.Release.{process_batch_job-Drops}
use outbox.Core.Reserve.{release_cancelled_claim}
use outbox.Core.Reserve.Cancellation.{holds, Releases, release_cancelled_claim-Releases}
use outbox.Core.Tests.{steady, first_job, second_job, two_jobs, claimed, two_jobs-validate}

abbrev admitted : Held ℕ
admitted = (admit steady tt claimed).1

abbrev renewed : Held ℕ
renewed = (extend steady tt admitted).1

-- An admission and a heartbeat.
Reach-new_ledger_example : IsSound renewed.ledger
Reach-new_ledger_example =
    Reach-new_ledger steady 5 30000000000 100 two_jobs 100 {s = renewed} two_jobs-validate
      (then (then here (admits claimed tt)) (heartbeat admitted tt))

claimed-IsSound : IsSound claimed.ledger
claimed-IsSound =
    Reach-new_ledger steady 5 30000000000 100 two_jobs 100 {s = claimed} two_jobs-validate here

finalize_covers_example : Refuses steady tt 7 claimed ⊎ RunsCovered steady tt 7 claimed
finalize_covers_example = finalize_covers steady tt 7 claimed claimed-IsSound

admit-Renews_example :
    Renews
      (admission_time steady tt claimed + claimed.ledger.reserve_for / 3)
      claimed.ledger
      (admit steady tt claimed)
admit-Renews_example = admit-Renews steady tt claimed claimed-IsSound

ensure_leases-Renews_example :
    Renews 5000000000 claimed.ledger (ensure_leases steady tt 5000000000 9000000000 claimed)
ensure_leases-Renews_example =
    ensure_leases-Renews steady tt 5000000000 9000000000 claimed claimed-IsSound

abbrev mail_service : Service steady
mail_service = record {
  policy = none;
  max_attempts = λ c. some (pos 3);
  execute = λ c job w. (none, w + 1);
  pause = λ c t w. w;
  can_defer = true;
}

first_row_processed : (process_batch_job steady mail_service tt first_job claimed).0 ≡ (true, none)
unfolding process_batch_job dispose ack with_handler run_admitted cancelled_or admit
    batch_start_error top_up check_leases ensure_leases extend_short extend_rows finish_extension
    finalize recompute_earliest earliest_of reset_if_empty due_ids earliest_over set_all take_row
    take_rows new_ledger
first_row_processed = refl

process_batch_job-Drops_example :
    lookup first_job.id
      (process_batch_job steady mail_service tt first_job claimed).1.ledger.outstanding
    ≡ none
process_batch_job-Drops_example =
    process_batch_job-Drops steady mail_service tt first_job claimed claimed-IsSound
      first_row_processed

release_cancelled_claim-Releases_example :
    (ids : List JobId) × Distinct ids
    × ((id : JobId) → elem id ids ≡ holds 5 100 id (first_job ∷ second_job ∷ first_job ∷ []))
    × Releases steady tt 5 ids
        (steady.now 100).1
        (release_cancelled_claim steady tt 5 (first_job ∷ second_job ∷ first_job ∷ []) 100)
release_cancelled_claim-Releases_example =
    release_cancelled_claim-Releases steady tt 5 (first_job ∷ second_job ∷ first_job ∷ []) 100

abbrev two_outcomes : List BatchJobOutcome
two_outcomes = outcome_of first_job success ∷ outcome_of second_job (retry 900) ∷ []

apply_outcomes_covers_example :
    Stops steady tt two_jobs two_outcomes claimed ⊎ Applies steady tt two_jobs two_outcomes claimed
apply_outcomes_covers_example =
    apply_outcomes_covers steady tt two_jobs two_outcomes claimed claimed-IsSound
