-- ===== src/Sqlite/Jobs/Exclusion.antt =====
-- Two workers and one row of backends/sqlite: a claim leaves alone what another worker holds.
use outbox.Base.{
  ap, ℕ, ◌≡◌, ◌∙◌, true, false, some, List, elem, nat_eq, Bool-cases, inl, inr, arith,
}
use outbox.Core.Errors.{Time}
use outbox.Core.Model.{JobId, LeaseToken, Job, JobCapability}
use outbox.Core.Retry.{Result, ok, err}
use outbox.Core.Batch.Identifiers.{Distinct}
use outbox.Sqlite.Table.{Row, to_ms, row_ids, find, later_than, is_claimable}
use outbox.Sqlite.Table.Find.{elem-find, find-id}
use outbox.Sqlite.Sql.{Db, Session, Faults}
use outbox.Sqlite.Jobs.{find_and_reserve_jobs}
use outbox.Sqlite.Jobs.Claims.{Claimed, ClaimResult, find_and_reserve_jobs-ClaimResult}

live_not_claimable :
    (cs : List JobCapability) (ms : ℕ) (r : Row)
    → later_than ms r.reserved_at ≡ true
    → is_claimable cs ms r ≡ false
live_not_claimable cs ms r h = ground arith

module _ (faults : Faults) (now until : Time) (token : LeaseToken) (cs : List JobCapability)
    (limit : ℕ) where
  Claimed-live :
      (db after : Db) (jobs : List Job) (id : JobId) (r : Row)
      → Claimed now until token cs limit db after jobs
      → find id db.jobs ≡ some r
      → later_than (to_ms now) r.reserved_at ≡ true
      → find id after.jobs ≡ some r
  Claimed-live db after jobs id r c h live =
      let (chosen, selection, nonempty, jobs_eq, leases) = c in
      elim (Bool-cases (elem id (row_ids chosen))) [
        | inr other ↦ leases.0 id ∙ ground (arith, find-id id db.jobs r h)
        | inl taken ↦
            let (q, met) = elem-find id chosen taken in
            absurd (ground (arith, selection.3 id q met, live_not_claimable cs (to_ms now) r live))
      ]

  ClaimResult-live :
      (db : Db) (x : Result (List Job) × Session) (id : JobId) (r : Row)
      → ClaimResult faults now until token cs limit db x
      → find id db.jobs ≡ some r
      → later_than (to_ms now) r.reserved_at ≡ true
      → find id x.1.db.jobs ≡ some r
  ClaimResult-live db (ok jobs, s) id r c h live = Claimed-live db s.db jobs id r c h live
  ClaimResult-live db (err e, s) id r (inl same) h live = ap (λ (x : Db). find id x.jobs) same ∙ h
  ClaimResult-live db (err e, s) id r (inr (jobs, c)) h live =
      Claimed-live db s.db jobs id r c h live

  -- On a table without repeated identifiers, and whatever calls of the engine fail: while a row's lease runs,
  -- a claim in a transaction of its own leaves the row as it is, whatever its result.
  pub find_and_reserve_jobs-live :
      (s : Session) (id : JobId) (r : Row)
      → Distinct (row_ids s.db.jobs)
      → find id s.db.jobs ≡ some r
      → later_than (to_ms now) r.reserved_at ≡ true
      → find id (find_and_reserve_jobs faults false now until token cs limit s).1.db.jobs ≡ some r
  find_and_reserve_jobs-live s id r d =
      ClaimResult-live s.db _ id r
        (find_and_reserve_jobs-ClaimResult faults now until token cs limit s d)
