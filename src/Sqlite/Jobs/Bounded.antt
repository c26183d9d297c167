-- ===== src/Sqlite/Jobs/Bounded.antt =====
-- `FindAndReserveJobsForCapabilityBounded` of backends/sqlite/repositories/jobsrepo/api.go: a claim bounded by the
-- bytes of the payloads.
use outbox.Base.{
  ℕ, ◌+◌, Bool, true, false, not, ◌&&◌, ◌||◌, none, some, List, [], ◌∷◌, if◌then◌else◌, ltb, leb,
  nat_beq, elem, nat_eq, text_eq, length,
}
use outbox.Core.Errors.{Time, sentinel, no_jobs}
use outbox.Core.Model.{JobId, LeaseToken, Job, JobCapability, capability_eq, validate_capability}
use outbox.Sqlite.Jobs.{
  invalid_argument, wrap, validate_batch_claim, reserve, scan_jobs, update_jobs, claimable, listed,
}
use outbox.Sqlite.Table.{Row, precedes, to_ms, where_rows, order_by, row_ids}
use outbox.Sqlite.Sql.{
  Faults, Sql, done, refuse, ◌>>=◌, unless_error, statement, query, with_immediate_transaction,
}

-- The loop of `findAndReserveBatchBoundedWithExecutor` over its candidates: the first of any size, and
-- more while their bytes fit.
unfoldable pub take_bounded : ℕ → ℕ → Bool → List Row → List Row
take_bounded max_bytes used any [] = []
take_bounded max_bytes used any (r ∷ rows) =
    let bytes = used + length r.payload in
    let rest = take_bounded max_bytes bytes true rows in
    if not any || leb bytes max_bytes then r ∷ (if ltb max_bytes bytes then [] else rest) else []

module _ (faults : Faults) where
  abbrev pub with_token : List JobId → LeaseToken → Row → Bool
  with_token ids token r = elem r.id ids && nat_beq r.lease_token token

  abbrev pub bounded_read : List Row → List Row → Sql (List Job)
  bounded_read chosen rows =
      if nat_beq (length rows) (length chosen)
      then done (scan_jobs rows)
      else refuse (sentinel no_jobs)

  abbrev pub bounded_claimed : LeaseToken → List Row → ℕ → Sql (List Job)
  bounded_claimed token chosen affected =
      if nat_beq affected (length chosen)
      then (query faults
            (λ db. order_by precedes (where_rows (with_token (row_ids chosen) token) db.jobs))
          >>= bounded_read chosen)
      else refuse (sentinel no_jobs)

  unfoldable pub reserve_bounded_rows : LeaseToken → Time → ℕ → List Row → Sql (List Job)
  unfolding take_bounded
  reserve_bounded_rows token until max_bytes rows =
      let chosen = take_bounded max_bytes 0 false rows in
      if nat_beq (length chosen) 0
      then refuse (sentinel no_jobs)
      else (statement faults (update_jobs (listed (row_ids chosen)) (reserve token (to_ms until)))
          >>= bounded_claimed token chosen)

  -- `findAndReserveBatchBoundedWithExecutor`
  unfoldable pub reserve_bounded : Time → Time → LeaseToken → JobCapability → ℕ → ℕ → Sql (List Job)
  unfolding take_bounded
  reserve_bounded now until token c max_messages max_bytes =
      query faults (claimable (c ∷ []) (to_ms now) max_messages)
      >>= reserve_bounded_rows token until max_bytes

  -- `FindAndReserveJobsForCapabilityBounded`
  unfoldable pub find_and_reserve_bounded :
      Bool → Time → Time → LeaseToken → JobCapability → ℕ → ℕ → Sql (List Job)
  unfolding reserve_bounded
  find_and_reserve_bounded in_tx now until token c max_messages max_bytes =
      unless_error (validate_batch_claim token max_messages) (
        unless_error (if nat_beq max_bytes 0 then some invalid_argument else none) (
          unless_error (wrap (validate_capability c)) (
            with_immediate_transaction faults in_tx
              (reserve_bounded now until token c max_messages max_bytes))))
