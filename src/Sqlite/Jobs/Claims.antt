-- ===== src/Sqlite/Jobs/Claims.antt =====
-- `FindAndReserveJobsForCapabilities` of backends/sqlite/repositories/jobsrepo/api.go: what a claim does
-- to the table.
use mathlib.Core.Path.{subst}
use outbox.Base.{
  ℕ, ◌+◌, ◌<◌, ◌≡◌, refl, false, Option, none, some, List, nat_eq, length, arith, nat_beq, ap, sym,
  ◌∙◌, inl, inr, ◌⊎◌,
}
use outbox.Core.Errors.{Error, Time}
use outbox.Core.Model.{JobId, LeaseToken, Job, JobCapability}
use outbox.Core.Retry.{err, Result, ok}
use outbox.Core.Batch.Identifiers.{Distinct}
use outbox.Sqlite.Table.{Row, to_ms, row_ids, find}
use outbox.Sqlite.Table.Find.{if_found, find-update, row_ids-update}
use outbox.Sqlite.Sql.{Db, Session, Faults, statement, query}
use outbox.Sqlite.Sql.Atomicity.{Atomic, with_immediate_transaction-Atomic}
use outbox.Sqlite.Sql.Success.{bind-ok, statement-ok, guard-ok, test-ok, ok-injective}
use outbox.Sqlite.Jobs.Selection.{IsSelection, claimable-IsSelection}
use outbox.Sqlite.Jobs.{
  with_immediate_transaction, check_claim, validate_batch_claim, find_and_reserve_jobs,
  unless_error, validate_batch_claim, Sql, find_and_reserve_jobs, claimable, listed, reserve,
  reserve_jobs, reserve_rows, reserve_batch, claimed_all, update_jobs,
}

-- The row with a lease until the millisecond under the token, and one attempt more.
abbrev pub leased : LeaseToken → ℕ → Row → Row
leased token ms r = record {
  id = r.id;
  queue = r.queue;
  name = r.name;
  schema_version = r.schema_version;
  payload = r.payload;
  attempts = r.attempts + 1;
  reserved_at = some ms;
  lease_token = token;
  deduplication_key = r.deduplication_key;
  available_at = r.available_at;
  created_at = r.created_at;
}

-- The chosen rows are leased until the millisecond under the token, for one attempt more; nothing else of
-- the database is changed.
abbrev pub Leases : List Row → LeaseToken → ℕ → Db → Db → Type 0
Leases chosen token ms db after =
    ((id : JobId)
      → find id after.jobs ≡ if_found (find id db.jobs) (listed (row_ids chosen)) (leased token ms))
    × (row_ids after.jobs ≡ row_ids db.jobs)
    × (after.failed ≡ db.failed)
    × (after.keys ≡ db.keys)

abbrev pub Claimed : Time → Time → LeaseToken → List JobCapability → ℕ → Db → Db → List Job → Type 0
Claimed now until token cs limit db after jobs =
    (chosen : List Row) × IsSelection cs (to_ms now) limit db.jobs chosen
    × (0 < length chosen)
    × (jobs ≡ reserve_jobs token until chosen)
    × Leases chosen token (to_ms until) db after

pub reserve-Leases :
    (chosen : List Row) (token : LeaseToken) (ms : ℕ) (db : Db)
    → Leases chosen token ms db (update_jobs (listed (row_ids chosen)) (reserve token ms) db).1
reserve-Leases chosen token ms db = (
  λ id. find-update (listed (row_ids chosen)) (reserve token ms) id db.jobs (λ r. refl),
  row_ids-update (listed (row_ids chosen)) (reserve token ms) db.jobs (λ r. refl),
  refl,
  refl,
)

module _ (faults : Faults) (now until : Time) (token : LeaseToken) (cs : List JobCapability)
    (limit : ℕ) where
  reserve_rows-ok :
      (rows : List Row) (t : Session) (jobs : List Job)
      → (reserve_rows faults token until rows t).0 ≡ ok jobs
      → (0 < length rows)
        × (jobs ≡ reserve_jobs token until rows)
        × ((reserve_rows faults token until rows t).1.db
            ≡ (update_jobs (listed (row_ids rows)) (reserve token (to_ms until)) t.db).1)
  reserve_rows-ok rows t jobs h =
      let (nonempty, e) = guard-ok (nat_beq (length rows) 0) _ _ t jobs h in
      let (n, counted_, e') =
        bind-ok (statement faults update) (claimed_all faults token until rows) t jobs
          (sym (ap (λ r. r.0) e) ∙ h) in
      let (m, d) = statement-ok faults update t n counted_ in
      let (same, e'') =
        test-ok (nat_beq n (length rows)) _ _ _ jobs (sym (ap (λ r. r.0) (e ∙ e')) ∙ h) in
      let all = e ∙ e' ∙ e'' in
      (
        ground arith,
        ok-injective jobs _ (sym h ∙ ap (λ (r : Result (List Job) × Session). r.0) all),
        ap (λ (r : Result (List Job) × Session). r.1.db) all ∙ d,
      )
    where
      update : Db → Result ℕ × Db
      update = update_jobs (listed (row_ids rows)) (reserve token (to_ms until))

  Claimed-by :
      (db after : Db) (rows : List Row) (jobs : List Job)
      → Distinct (row_ids db.jobs)
      → claimable cs (to_ms now) limit db ≡ rows
      → (0 < length rows)
        × (jobs ≡ reserve_jobs token until rows)
        × (after ≡ (update_jobs (listed (row_ids rows)) (reserve token (to_ms until)) db).1)
      → Claimed now until token cs limit db after jobs
  Claimed-by db after rows jobs d selected (nonempty, reserved, updated) = (
    rows,
    subst (IsSelection cs (to_ms now) limit db.jobs) selected
        (claimable-IsSelection cs (to_ms now) limit db d),
    nonempty,
    reserved,
    subst (Leases rows token (to_ms until) db) (sym updated)
        (reserve-Leases rows token (to_ms until) db),
  )

  pub reserve_batch-ok :
      (t : Session) (jobs : List Job)
      → Distinct (row_ids t.db.jobs)
      → (reserve_batch faults now until token cs limit t).0 ≡ ok jobs
      → Claimed now until token cs limit t.db
          (reserve_batch faults now until token cs limit t).1.db
          jobs
  unfolding reserve_batch
  reserve_batch-ok t jobs d h =
      let (rows, read, e) =
        bind-ok (query faults (claimable cs (to_ms now) limit)) (reserve_rows faults token until) t
          jobs h in
      let (m, d') =
        statement-ok faults (λ db. (ok (claimable cs (to_ms now) limit db), db)) t rows read in
      let same = ap (λ (r : Result (List Job) × Session). r.0) e in
      let (nonempty, reserved, updated) =
        reserve_rows-ok rows (query faults (claimable cs (to_ms now) limit) t).1 jobs
          (sym same ∙ h) in
      Claimed-by t.db _ rows jobs d (ok-injective _ rows m) (
        nonempty,
        reserved,
        ap (λ (r : Result (List Job) × Session). r.1.db) e
            ∙ updated
            ∙ ap (λ db. (update_jobs (listed (row_ids rows)) (reserve token (to_ms until)) db).1)
                d',
      )

  abbrev pub ClaimResult : Db → Result (List Job) × Session → Type 0
  ClaimResult db (ok jobs, s) = Claimed now until token cs limit db s.db jobs
  ClaimResult db (err e, s) =
      (s.db ≡ db) ⊎ ((jobs : List Job) × Claimed now until token cs limit db s.db jobs)

  at_start :
      (db after : Db) (t : Session) (jobs : List Job)
      → Distinct (row_ids db.jobs)
      → t.db ≡ db
      → (reserve_batch faults now until token cs limit t).0 ≡ ok jobs
      → after ≡ (reserve_batch faults now until token cs limit t).1.db
      → Claimed now until token cs limit db after jobs
  at_start db after t jobs d began h e =
      subst (λ x. Claimed now until token cs limit x after jobs) began
        (subst (λ x. Claimed now until token cs limit t.db x jobs) (sym e)
          (reserve_batch-ok t jobs (subst (λ (x : Db). Distinct (row_ids x.jobs)) (sym began) d) h))

  Atomic-ClaimResult :
      (db : Db) (r : Result (List Job) × Session)
      → Distinct (row_ids db.jobs)
      → Atomic db (reserve_batch faults now until token cs limit) r
      → ClaimResult db r
  Atomic-ClaimResult db (ok jobs, s) d (t, began, h, e) = at_start db s.db t jobs d began h e
  Atomic-ClaimResult db (err x, s) d (inl same) = inl same
  Atomic-ClaimResult db (err x, s) d (inr (t, jobs, began, h, e)) =
      inr (jobs, at_start db s.db t jobs d began h e)

  unless_error-ClaimResult :
      (e : Option Error) (m : Sql (List Job)) (s : Session)
      → ClaimResult s.db (m s)
      → ClaimResult s.db (unless_error e m s)
  unless_error-ClaimResult none m s h = h
  unless_error-ClaimResult (some e) m s h = inl refl

  -- On a table without repeated identifiers, and whatever calls of the engine fail, a claim in a transaction
  -- of its own: with jobs, they are those of a selection of claimable rows, which are leased now, and nothing
  -- else is changed; with an error, the database is as it was, or the whole of such a claim is committed.
  pub find_and_reserve_jobs-ClaimResult :
      (s : Session)
      → Distinct (row_ids s.db.jobs)
      → ClaimResult s.db (find_and_reserve_jobs faults false now until token cs limit s)
  unfolding find_and_reserve_jobs
  find_and_reserve_jobs-ClaimResult s d =
      unless_error-ClaimResult (check_claim cs)
        (unless_error (validate_batch_claim token limit) claim) s
        (unless_error-ClaimResult (validate_batch_claim token limit) claim s (
          Atomic-ClaimResult s.db (claim s) d (
            with_immediate_transaction-Atomic faults (reserve_batch faults now until token cs limit)
              s)))
    where
      claim : Sql (List Job)
      claim =
          with_immediate_transaction faults false (reserve_batch faults now until token cs limit)
