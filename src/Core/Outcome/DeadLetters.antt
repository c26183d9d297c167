-- ===== src/Core/Outcome/DeadLetters.antt =====
-- The dead-letter rows of a batch and the time that its finalization is given.
use outbox.Base.{
  Option-cases, ℕ, ◌+◌, ◌*◌, ◌≡◌, refl, false, none, some, Option, List, [], ◌∷◌, length, arith,
  elem, nat_eq, inl, inr, All,
}
use outbox.Base.Dict.{Dict, lookup, insert, lookup-insert, lookup-insert_self}
use outbox.Core.Errors.{Error, Reason, wrapped}
use outbox.Core.Model.{JobId, Job}
use outbox.Core.Retry.{Result, ok, err}
use outbox.Core.Batch.{BatchJobOutcome}
use outbox.Core.Batch.Identifiers.{Distinct}
use outbox.Core.Claim.Ownership.{job_ids}
use outbox.Core.Env.{Env, State, next, ◌>>◌}
use outbox.Core.Outcome.{
  dlq_reason, add_allowance, finalization_timeout, jobs_by_id, dead_letter, inserted, dead_letters,
  create_dlq_records,
}

abbrev pub with_reason : Job → Option Reason → List (Job × Reason) → List (Job × Reason)
with_reason job none rows = rows
with_reason job (some reason) rows = (job, reason) ∷ rows

-- The rows whose outcome is the dead-letter queue, with their reasons and in order.
abbrev pub dlq_rows : List Job → List BatchJobOutcome → List (Job × Reason)
dlq_rows [] os = []
dlq_rows (job ∷ jobs) [] = []
dlq_rows (job ∷ jobs) (o ∷ os) = with_reason job (dlq_reason o.kind) (dlq_rows jobs os)

-- The outcomes name the jobs in their order.
abbrev pub Aligned : List Job → List BatchJobOutcome → Type 0
Aligned [] [] = Unit {0}
Aligned (job ∷ jobs) (o ∷ os) = (o.job_id ≡ job.id) × Aligned jobs os
Aligned jobs os = ⊥

add_allowance-rows :
    (jobs : List Job) (os : List BatchJobOutcome) (timeout : ℕ)
    → Aligned jobs os
    → add_allowance os timeout ≡ timeout + 25000000 * length (dlq_rows jobs os)
add_allowance-rows [] [] timeout a = omega arith
add_allowance-rows [] (o ∷ os) timeout a = elim a [ ]
add_allowance-rows (job ∷ jobs) [] timeout a = elim a [ ]
add_allowance-rows (job ∷ jobs) (o ∷ os) timeout a = elim (Option-cases (dlq_reason o.kind)) [
  | inl other ↦ rw other (add_allowance-rows jobs os timeout a.1)
  | inr (reason, dead) ↦
      rw dead (omega (arith, add_allowance-rows jobs os (timeout + 25000000) a.1))
]

-- A batch is given 5 s to be finalized, and 25 ms more for each dead-letter row.
pub finalization_timeout-rows :
    (jobs : List Job) (os : List BatchJobOutcome)
    → Aligned jobs os
    → finalization_timeout os ≡ 5000000000 + 25000000 * length (dlq_rows jobs os)
unfolding finalization_timeout
finalization_timeout-rows jobs os a = add_allowance-rows jobs os 5000000000 a

abbrev Finds : Dict JobId Job → List Job → Type 0
Finds d = All (λ job. lookup job.id d ≡ some job)

jobs_by_id-other :
    (jobs : List Job) (d : Dict JobId Job) (id : JobId)
    → elem id (job_ids jobs) ≡ false
    → lookup id (jobs_by_id jobs d) ≡ lookup id d
jobs_by_id-other [] d id h = refl
jobs_by_id-other (job ∷ jobs) d id h =
    ground (arith, jobs_by_id-other jobs (insert job.id job d) id, lookup-insert job.id id job d)

jobs_by_id-Finds :
    (jobs : List Job) (d : Dict JobId Job)
    → Distinct (job_ids jobs)
    → Finds (jobs_by_id jobs d) jobs
jobs_by_id-Finds [] d h = tt
jobs_by_id-Finds (job ∷ jobs) d h = (
  rw (jobs_by_id-other jobs (insert job.id job d) job.id h.0) (lookup-insert_self job.id job d),
  jobs_by_id-Finds jobs (insert job.id job d) h.1,
)

module _ (env : Env) where
  open env use {World, Ctx, create_failed_job}

  -- What follows an insertion: the rest where it succeeded, and otherwise its error and no more calls.
  abbrev pub after_insertion :
      Result JobId → State World (Option Error) → State World (Option Error)
  after_insertion (ok id) rest w = rest w
  after_insertion (err e) rest w = (some (wrapped e), w)

  -- One call of `CreateFailedJobVersioned` for each row, up to the first that fails.
  abbrev pub insert_rows : Ctx → List (Job × Reason) → State World (Option Error)
  insert_rows c [] w = (none, w)
  insert_rows c ((job, reason) ∷ rows) w =
      let (answer, w') =
        create_failed_job c job.id job.name job.schema_version job.payload reason w in
      after_insertion answer (insert_rows c rows) w'

  dead_letter-insert :
      (c : Ctx) (job : Job) (reason : Reason) (k k' : State World (Option Error)) (w : World)
      → ((v : World) → k v ≡ k' v)
      → (dead_letter env c (some job) reason >> k) w ≡ (
          let (answer, w') =
            create_failed_job c job.id job.name job.schema_version job.payload reason w in
          after_insertion answer k' w')
  unfolding dead_letter
  dead_letter-insert c job reason k k' w same =
      let (answer, w') =
        create_failed_job c job.id job.name job.schema_version job.payload reason w in
      go answer w'
    where
      go : (r : Result JobId) (v : World) → next k (inserted env r) v ≡ after_insertion r k' v
      go (ok id) v = same v
      go (err e) v = refl

  dead_letters-rows :
      (c : Ctx) (d : _) (jobs : List Job) (os : List BatchJobOutcome) (w : World)
      → Finds d jobs
      → Aligned jobs os
      → dead_letters env c d os w ≡ insert_rows c (dlq_rows jobs os) w
  unfolding dead_letters
  dead_letters-rows c d [] [] w f a = refl
  dead_letters-rows c d [] (o ∷ os) w f a = elim a [ ]
  dead_letters-rows c d (job ∷ jobs) [] w f a = elim a [ ]
  dead_letters-rows c d (job ∷ jobs) (o ∷ os) w f a = elim (Option-cases (dlq_reason o.kind)) [
    | inl other ↦ rw other (dead_letters-rows c d jobs os w f.1 a.1)
    | inr (reason, dead) ↦
        rw (dead, a.0, f.0)
          (dead_letter-insert c job reason (dead_letters env c d os)
            (insert_rows c (dlq_rows jobs os)) w (λ v. dead_letters-rows c d jobs os v f.1 a.1))
  ]

  -- For distinct jobs and outcomes that name them in order, the code calls `CreateFailedJobVersioned` once
  -- for each job that goes to the dead-letter queue, with that job's data and in order, until a call fails,
  -- whose error it then returns, wrapped; it calls nothing else.
  pub create_dlq_records-rows :
      (c : Ctx) (jobs : List Job) (os : List BatchJobOutcome) (w : World)
      → Distinct (job_ids jobs)
      → Aligned jobs os
      → create_dlq_records env c jobs os w ≡ insert_rows c (dlq_rows jobs os) w
  unfolding create_dlq_records
  create_dlq_records-rows c jobs os w h a =
      dead_letters-rows c (jobs_by_id jobs []) jobs os w (jobs_by_id-Finds jobs [] h) a
