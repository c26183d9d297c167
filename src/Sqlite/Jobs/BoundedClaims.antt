-- ===== src/Sqlite/Jobs/BoundedClaims.antt =====
-- `FindAndReserveJobsForCapabilityBounded` of backends/sqlite/repositories/jobsrepo/api.go: what a bounded claim
-- does to the table.
use mathlib.Core.Path.{subst}
use outbox.Base.{
  ℕ, ◌<◌, ◌≡◌, refl, Option, none, some, List, [], ◌∷◌, nat_eq, length, arith, nat_beq, ap, sym,
  ◌∙◌, inl, inr, ◌⊎◌, false, if◌then◌else◌,
}
use outbox.Core.Errors.{Error, Time}
use outbox.Core.Model.{LeaseToken, Job, JobCapability, validate_capability}
use outbox.Core.Retry.{err, Result, ok}
use outbox.Core.Batch.Identifiers.{Distinct}
use outbox.Sqlite.Table.{Row, to_ms, row_ids, order_by, precedes, where_rows}
use outbox.Sqlite.Sql.{
  Db, Session, Faults, Sql, statement, query, unless_error, with_immediate_transaction,
}
use outbox.Sqlite.Sql.Atomicity.{Atomic, with_immediate_transaction-Atomic}
use outbox.Sqlite.Sql.Success.{bind-ok, statement-ok, guard-ok, test-ok, ok-injective}
use outbox.Sqlite.Jobs.{
  claimable, listed, reserve, update_jobs, scan_jobs, validate_batch_claim, invalid_argument, wrap,
}
use outbox.Sqlite.Jobs.Bounded.{
  take_bounded, with_token, bounded_read, bounded_claimed, reserve_bounded_rows, reserve_bounded,
  find_and_reserve_bounded,
}
use outbox.Sqlite.Jobs.Bytes.{IsLongest, take_bounded-IsLongest}
use outbox.Sqlite.Jobs.Claims.{Leases, reserve-Leases}
use outbox.Sqlite.Jobs.Selection.{IsSelection, claimable-IsSelection}

length-scan_jobs : (rows : List Row) → length (scan_jobs rows) ≡ length rows
length-scan_jobs [] = refl
length-scan_jobs (r ∷ rows) = ground (arith, length-scan_jobs rows)

module _ (faults : Faults) (now until : Time) (token : LeaseToken) (c : JobCapability)
    (most bytes : ℕ) where
  -- The rows that the claim reads again, under its token.
  abbrev pub read_again : List Row → Db → List Row
  read_again chosen db =
      order_by precedes (where_rows (with_token faults (row_ids chosen) token) db.jobs)

  abbrev Reserved : List Row → Db → Db → List Job → Type 0
  Reserved chosen db after jobs =
      (0 < length chosen)
      × (length jobs ≡ length chosen)
      × (jobs ≡ scan_jobs (read_again chosen after))
      × (after ≡ (update_jobs (listed (row_ids chosen)) (reserve token (to_ms until)) db).1)

  abbrev pub BoundedClaim : Db → Db → List Job → Type 0
  BoundedClaim db after jobs =
      (candidates : List Row) × (chosen : List Row) × IsSelection (c ∷ []) (to_ms now) most db.jobs
        candidates
      × IsLongest bytes candidates chosen
      × (0 < length chosen)
      × (length jobs ≡ length chosen)
      × (jobs ≡ scan_jobs (read_again chosen after))
      × Leases chosen token (to_ms until) db after

  bounded_claimed-ok :
      (chosen : List Row) (n : ℕ) (t : Session) (jobs : List Job)
      → (bounded_claimed faults token chosen n t).0 ≡ ok jobs
      → (length jobs ≡ length chosen)
        × (jobs ≡ scan_jobs (read_again chosen (bounded_claimed faults token chosen n t).1.db))
        × ((bounded_claimed faults token chosen n t).1.db ≡ t.db)
  bounded_claimed-ok chosen n t jobs h =
      let (all, e) = test-ok (nat_beq n (length chosen)) _ _ t jobs h in
      let (rows, read, e') =
        bind-ok (query faults (read_again chosen)) (bounded_read faults chosen) t jobs
          (sym (ap (λ r. r.0) e) ∙ h) in
      let (m, d) = statement-ok faults (λ db. (ok (read_again chosen db), db)) t rows read in
      let (same, e'') =
        test-ok (nat_beq (length rows) (length chosen)) _ _ _ jobs
          (sym (ap (λ r. r.0) (e ∙ e')) ∙ h) in
      let whole = e ∙ e' ∙ e'' in
      let kept = ap (λ (r : Result (List Job) × Session). r.1.db) whole ∙ d in
      let answer =
        ok-injective jobs (scan_jobs rows)
          (sym h ∙ ap (λ (r : Result (List Job) × Session). r.0) whole) in
      (
        ap length answer ∙ length-scan_jobs rows ∙ ground arith,
        answer
            ∙ ap scan_jobs (sym (ok-injective _ rows m))
            ∙ ap (λ db. scan_jobs (read_again chosen db)) (sym kept),
        kept,
      )

  bounded_rows-ok :
      (rows : List Row) (t : Session) (jobs : List Job)
      → (reserve_bounded_rows faults token until bytes rows t).0 ≡ ok jobs
      → Reserved
          (take_bounded bytes 0 false rows)
          t.db
          (reserve_bounded_rows faults token until bytes rows t).1.db
          jobs
  unfolding reserve_bounded_rows
  bounded_rows-ok rows t jobs h =
      let (nonempty, e) = guard-ok (nat_beq (length chosen) 0) _ _ t jobs h in
      let (n, counted_, e') =
        bind-ok (statement faults update) (bounded_claimed faults token chosen) t jobs
          (sym (ap (λ r. r.0) e) ∙ h) in
      let (m, d) = statement-ok faults update t n counted_ in
      let (count, answer, kept) =
        bounded_claimed-ok chosen n (statement faults update t).1 jobs
          (sym (ap (λ r. r.0) (e ∙ e')) ∙ h) in
      let after = ap (λ (r : Result (List Job) × Session). r.1.db) (e ∙ e') in
      (
        ground arith,
        count,
        answer ∙ ap (λ db. scan_jobs (read_again chosen db)) (sym after),
        after ∙ kept ∙ d,
      )
    where
      chosen : List Row
      chosen = take_bounded bytes 0 false rows

      update : Db → Result ℕ × Db
      update = update_jobs (listed (row_ids chosen)) (reserve token (to_ms until))

  claimed_from :
      (db after : Db) (rows : List Row) (jobs : List Job)
      → Distinct (row_ids db.jobs)
      → claimable (c ∷ []) (to_ms now) most db ≡ rows
      → Reserved (take_bounded bytes 0 false rows) db after jobs
      → BoundedClaim db after jobs
  claimed_from db after rows jobs d selected (nonempty, count, answer, updated) = (
    rows,
    take_bounded bytes 0 false rows,
    subst (IsSelection (c ∷ []) (to_ms now) most db.jobs) selected
        (claimable-IsSelection (c ∷ []) (to_ms now) most db d),
    take_bounded-IsLongest bytes rows,
    nonempty,
    count,
    answer,
    subst (Leases (take_bounded bytes 0 false rows) token (to_ms until) db) (sym updated)
        (reserve-Leases (take_bounded bytes 0 false rows) token (to_ms until) db),
  )

  reserve_bounded-ok :
      (t : Session) (jobs : List Job)
      → Distinct (row_ids t.db.jobs)
      → (reserve_bounded faults now until token c most bytes t).0 ≡ ok jobs
      → BoundedClaim t.db (reserve_bounded faults now until token c most bytes t).1.db jobs
  unfolding reserve_bounded
  reserve_bounded-ok t jobs d h =
      let (rows, read, e) =
        bind-ok select (reserve_bounded_rows faults token until bytes) t jobs h in
      let (m, same) =
        statement-ok faults (λ db. (ok (claimable (c ∷ []) (to_ms now) most db), db)) t rows read in
      subst (λ (r : Result (List Job) × Session). BoundedClaim t.db r.1.db jobs) (sym e)
        (claimed_from t.db _ rows jobs d (ok-injective _ rows m) (
          subst
            (λ db.
              Reserved (take_bounded bytes 0 false rows) db
                (reserve_bounded_rows faults token until bytes rows (select t).1).1.db jobs)
            same
            (bounded_rows-ok rows (select t).1 jobs
              (sym (ap (λ (r : Result (List Job) × Session). r.0) e) ∙ h))))
    where
      select : Sql (List Row)
      select = query faults (claimable (c ∷ []) (to_ms now) most)

  -- After a bounded claim; with an error nothing is changed, or a claim is committed whole.
  abbrev pub BoundedResult : Db → Result (List Job) × Session → Type 0
  BoundedResult db (ok jobs, s) = BoundedClaim db s.db jobs
  BoundedResult db (err e, s) = (s.db ≡ db) ⊎ ((jobs : List Job) × BoundedClaim db s.db jobs)

  at_start :
      (db after : Db) (t : Session) (jobs : List Job)
      → Distinct (row_ids db.jobs)
      → t.db ≡ db
      → (reserve_bounded faults now until token c most bytes t).0 ≡ ok jobs
      → after ≡ (reserve_bounded faults now until token c most bytes t).1.db
      → BoundedClaim db after jobs
  at_start db after t jobs d began h e =
      subst (λ x. BoundedClaim x after jobs) began
        (subst (λ x. BoundedClaim t.db x jobs) (sym e)
          (reserve_bounded-ok t jobs (subst (λ (x : Db). Distinct (row_ids x.jobs)) (sym began) d)
            h))

  Atomic-BoundedResult :
      (db : Db) (r : Result (List Job) × Session)
      → Distinct (row_ids db.jobs)
      → Atomic db (reserve_bounded faults now until token c most bytes) r
      → BoundedResult db r
  Atomic-BoundedResult db (ok jobs, s) d (t, began, h, e) = at_start db s.db t jobs d began h e
  Atomic-BoundedResult db (err x, s) d (inl same) = inl same
  Atomic-BoundedResult db (err x, s) d (inr (t, jobs, began, h, e)) =
      inr (jobs, at_start db s.db t jobs d began h e)

  checked :
      (e : Option Error) (m : Sql (List Job)) (s : Session)
      → BoundedResult s.db (m s)
      → BoundedResult s.db (unless_error e m s)
  checked none m s h = h
  checked (some e) m s h = inl refl

  -- On a table without repeated identifiers, and whatever calls of the engine fail, a bounded claim in a
  -- transaction of its own: with jobs, they are as many as the rows chosen, which are at least one, and are these
  -- as read again under the token; the chosen rows are leased now and nothing else is changed; and of the first
  -- claimable rows up to the limit they are the longest run from the first on whose payloads keep the limit in
  -- bytes, or the first row alone. With an error the database is as it was, or the whole of such a claim is
  -- committed.
  pub find_and_reserve_bounded-BoundedResult :
      (s : Session)
      → Distinct (row_ids s.db.jobs)
      → BoundedResult s.db (find_and_reserve_bounded faults false now until token c most bytes s)
  unfolding find_and_reserve_bounded
  find_and_reserve_bounded-BoundedResult s d =
      checked (validate_batch_claim token most) (unless_error limits (unless_error valid claim)) s (
        checked limits (unless_error valid claim) s (
          checked valid claim s (
            Atomic-BoundedResult s.db (claim s) d (
              with_immediate_transaction-Atomic faults
                (reserve_bounded faults now until token c most bytes) s))))
    where
      limits : Option Error
      limits = if nat_beq bytes 0 then some invalid_argument else none

      valid : Option Error
      valid = wrap (validate_capability c)

      claim : Sql (List Job)
      claim =
          with_immediate_transaction faults false
            (reserve_bounded faults now until token c most bytes)
