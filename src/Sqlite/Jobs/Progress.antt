-- ===== src/Sqlite/Jobs/Progress.antt =====
-- `FindAndReserveJobsForCapabilities` of backends/sqlite/repositories/jobsrepo/api.go finds work where there
-- is some.
use outbox.Base.{
  ℕ, ◌<◌, ◌≡◌, refl, ap, ◌∙◌, true, false, ◌&&◌, Option, none, some, List, [], ◌∷◌, nat_beq,
  nat_beq_iff, elem, nat_eq, length, arith, inl, inr, Option-cases,
}
use outbox.Core.Errors.{Error, Time}
use outbox.Core.Model.{JobId, LeaseToken, JobCapability}
use outbox.Core.Retry.{ok}
use outbox.Core.Batch.Identifiers.{Distinct}
use outbox.Sqlite.Table.{Row, to_ms, row_ids, find, is_claimable, count_where}
use outbox.Sqlite.Table.Find.{elem-find}
use outbox.Sqlite.Table.Count.{count_each, count_where-each, count_where-cong}
use outbox.Sqlite.Sql.{Db, Session, counted, unless_error}
use outbox.Sqlite.Sql.Success.{no_faults, with_immediate_transaction-no_faults}
use outbox.Sqlite.Jobs.{
  Sql, check_claim, validate_batch_claim, claimable, listed, reserve_jobs, reserve_rows,
  reserve_batch, find_and_reserve_jobs,
}
use outbox.Sqlite.Jobs.Selection.{IsSelection, claimable-IsSelection}

count_each-length :
    (ids : List JobId) (rows : List Row)
    → ((id : JobId) → elem id ids ≡ true → (r : Row) × (find id rows ≡ some r))
    → count_each ids (λ r. true) rows ≡ length ids
count_each-length [] rows found = refl
count_each-length (i ∷ ids) rows found =
    let (r, here) = found i (ground (arith, nat_beq_iff i i)) in
    let rest = count_each-length ids rows (λ id h. found id (ground arith)) in
    ground (arith, here, rest)

length-row_ids : (rows : List Row) → length (row_ids rows) ≡ length rows
length-row_ids [] = refl
length-row_ids (r ∷ rows) = omega (arith, length-row_ids rows)

find-nonempty : (id : JobId) (rows : List Row) (r : Row) → find id rows ≡ some r → 0 < length rows
find-nonempty id [] r h = cc
find-nonempty id (q ∷ rows) r h = omega arith

module _ (cs : List JobCapability) (ms limit : ℕ) (db : Db) (d : Distinct (row_ids db.jobs)) where
  abbrev chosen : List Row
  chosen = claimable cs ms limit db

  chosen-IsSelection : IsSelection cs ms limit db.jobs chosen
  chosen-IsSelection = claimable-IsSelection cs ms limit db d

  count-chosen : count_where (listed (row_ids chosen)) db.jobs ≡ length chosen
  count-chosen =
      count_where-cong (listed (row_ids chosen)) (λ r. elem r.id (row_ids chosen) && true) db.jobs
        (λ r. ground arith)
      ∙ count_where-each (row_ids chosen) (λ r. true) db.jobs chosen-IsSelection.1 d
      ∙ count_each-length (row_ids chosen) db.jobs
          (λ id h. let (r, met) = elem-find id chosen h in (r, (chosen-IsSelection.3 id r met).0))
      ∙ length-row_ids chosen

  nonempty :
      (id : JobId) (r : Row)
      → find id db.jobs ≡ some r
      → is_claimable cs ms r ≡ true
      → 0 < limit
      → 0 < length chosen
  nonempty id r here met some_limit = elim (Option-cases (find id chosen)) [
    | inr (q, taken) ↦ find-nonempty id chosen q taken
    | inl out ↦ elim (chosen-IsSelection.4 id r out here) [
      | inl unmet ↦ absurd (ground arith)
      | inr (full, first) ↦ omega (arith, full, some_limit)
    ]
  ]

module _ (until : Time) (token : LeaseToken) where
  reserve_rows-no_faults :
      (rows : List Row) (t : Session)
      → 0 < length rows
      → count_where (listed (row_ids rows)) t.db.jobs ≡ length rows
      → (reserve_rows no_faults token until rows t).0 ≡ ok (reserve_jobs token until rows)
  reserve_rows-no_faults rows t some_rows all =
      let nonzero : nat_beq (length rows) 0 ≡ false = ground arith in
      let same : nat_beq (count_where (listed (row_ids rows)) t.db.jobs) (length rows) ≡ true =
        (nat_beq_iff (count_where (listed (row_ids rows)) t.db.jobs) (length rows)).1 all in
      rw nonzero (rw same refl)

  unless_error-none :
      {A : Type 0} (e : Option Error) (m : Sql A) (s : Session)
      → e ≡ none
      → (unless_error e m s).0 ≡ (m s).0
  unless_error-none none m s h = refl
  unless_error-none (some e) m s h = cc

  -- With valid arguments, on a table without repeated identifiers that has a claimable row, and where no call
  -- of the engine fails: a claim in a transaction of its own answers with the jobs of a selection that is not
  -- empty.
  pub find_and_reserve_jobs-progress :
      (now : Time) (cs : List JobCapability) (limit : ℕ) (s : Session) (id : JobId) (r : Row)
      → Distinct (row_ids s.db.jobs)
      → check_claim cs ≡ none
      → validate_batch_claim token limit ≡ none
      → find id s.db.jobs ≡ some r
      → is_claimable cs (to_ms now) r ≡ true
      → (rows : List Row) × ((find_and_reserve_jobs no_faults false now until token cs limit s).0
          ≡ ok (reserve_jobs token until rows))
        × (0 < length rows)
        × IsSelection cs (to_ms now) limit s.db.jobs rows
  unfolding find_and_reserve_jobs reserve_batch validate_batch_claim
  find_and_reserve_jobs-progress now cs limit s id r d capable valid here met =
      let rows = claimable cs (to_ms now) limit s.db in
      let t = counted (counted s) in
      let some_rows = nonempty cs (to_ms now) limit s.db d id r here met (ground arith) in
      let work = reserve_batch no_faults now until token cs limit in
      let answered =
        reserve_rows-no_faults rows (counted t) some_rows
          (count-chosen cs (to_ms now) limit s.db d) in
      let (answer, after) =
        with_immediate_transaction-no_faults work s (work t).1 (ok (reserve_jobs token until rows))
          (ap (λ x. (x, (work t).1)) answered) in
      (
        rows,
        unless_error-none (check_claim cs) _ s capable
            ∙ unless_error-none (validate_batch_claim token limit) _ s valid
            ∙ answer,
        some_rows,
        chosen-IsSelection cs (to_ms now) limit s.db d,
      )
