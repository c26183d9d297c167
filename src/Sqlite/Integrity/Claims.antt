-- ===== src/Sqlite/Integrity/Claims.antt =====
-- Creating a job and reserving jobs, in backends/sqlite/repositories/jobsrepo/api.go, with the tables sound.
use outbox.Base.{
  nat_beq, length, nat_eq, text_eq, ℕ, refl, Bool, false, List, [], ◌∷◌, none, some, Text,
  if◌then◌else◌,
}
use outbox.Core.Errors.{Time}
use outbox.Core.Model.{validate_capability, JobId, LeaseToken, SchemaVersion, JobCapability, Job}
use outbox.Sqlite.Table.{where_rows, order_by, precedes, Row, to_ms, row_ids}
use outbox.Sqlite.Sql.{
  unless_error, with_immediate_transaction, done, unless_error, done, with_immediate_transaction,
  Faults, Sql, statement, ◌>>=◌,
}
use outbox.Sqlite.Sql.Preservation.{
  Preserves, bind-Preserves, unless_error-Preserves, if-Preserves, statement-Preserves,
  query-Preserves, with_immediate_transaction-Preserves,
}
use outbox.Sqlite.Jobs.{
  reserve_rows, claimed_all, check_claim, validate_batch_claim, invalid_argument, wrap, create_job,
  new_row, insert_job, update_jobs, listed, reserve, reserve_batch, find_and_reserve_jobs,
  claimable,
}
use outbox.Sqlite.Jobs.Bounded.{
  bounded_claimed, bounded_read, with_token, reserve_bounded_rows, reserve_bounded,
  find_and_reserve_bounded, take_bounded,
}
use outbox.Sqlite.Integrity.{IsSound}
use outbox.Sqlite.Integrity.Tables.{insert_job-IsSound, update_jobs-IsSound}

module _ (faults : Faults) where
  pub create_job-IsSound :
      (id : JobId) (now : Time) (name : Text) (version : SchemaVersion) (payload : Text) (at : Time)
      → Preserves IsSound (create_job faults id now name version payload at)
  unfolding create_job
  create_job-IsSound id now name version payload at =
      unless_error-Preserves IsSound _ (statement faults (insert_job row) >>= λ u. done id) (
        bind-Preserves IsSound (statement faults (insert_job row)) (λ u. done id)
          (statement-Preserves IsSound faults (insert_job row)
            (λ db i. insert_job-IsSound row db tt i))
          (λ u s i. i))
    where
      row : Row
      row = new_row id none name version payload at now

  reserve-IsSound :
      (ids : List JobId) (token : LeaseToken) (ms : ℕ)
      → Preserves IsSound (statement faults (update_jobs (listed ids) (reserve token ms)))
  reserve-IsSound ids token ms =
      statement-Preserves IsSound faults (update_jobs (listed ids) (reserve token ms))
        (λ db i. update_jobs-IsSound (listed ids) (reserve token ms) db (λ r. refl) (λ r. refl) i)

  reserve_rows-IsSound :
      (token : LeaseToken) (until : Time) (rows : List Row)
      → Preserves IsSound (reserve_rows faults token until rows)
  reserve_rows-IsSound token until rows =
      if-Preserves IsSound (nat_beq (length rows) 0) _ _ (λ s i. i)
        (bind-Preserves IsSound
          (statement faults (update_jobs (listed (row_ids rows)) (reserve token (to_ms until))))
          (claimed_all faults token until rows) (reserve-IsSound (row_ids rows) token (to_ms until))
          (λ n. if-Preserves IsSound (nat_beq n (length rows)) _ _ (λ s i. i) (λ s i. i)))

  pub claim-IsSound :
      (in_tx : Bool) (now until : Time) (token : LeaseToken) (cs : List JobCapability) (limit : ℕ)
      → Preserves IsSound (find_and_reserve_jobs faults in_tx now until token cs limit)
  unfolding find_and_reserve_jobs reserve_batch
  claim-IsSound in_tx now until token cs limit =
      unless_error-Preserves IsSound (check_claim cs)
        (unless_error (validate_batch_claim token limit) work)
        (unless_error-Preserves IsSound (validate_batch_claim token limit) work (
          with_immediate_transaction-Preserves IsSound faults in_tx
            (reserve_batch faults now until token cs limit)
            (query-Preserves IsSound faults (claimable cs (to_ms now) limit)
              (reserve_rows faults token until)
              (λ t i. reserve_rows-IsSound token until (claimable cs (to_ms now) limit t.db) t i))))
    where
      work : Sql (List Job)
      work = with_immediate_transaction faults in_tx (reserve_batch faults now until token cs limit)

  bounded_claimed-IsSound :
      (token : LeaseToken) (chosen : List Row) (n : ℕ)
      → Preserves IsSound (bounded_claimed faults token chosen n)
  bounded_claimed-IsSound token chosen n =
      if-Preserves IsSound (nat_beq n (length chosen)) _ _
        (query-Preserves IsSound faults _ (bounded_read faults chosen) (λ t i.
          if-Preserves IsSound
            (nat_beq
              (length (
                order_by precedes
                  (where_rows (with_token faults (row_ids chosen) token) t.db.jobs)))
              (length chosen))
            _ _ (λ s j. j) (λ s j. j) t i))
        (λ s i. i)

  bounded_rows-IsSound :
      (token : LeaseToken) (until : Time) (bytes : ℕ) (rows : List Row)
      → Preserves IsSound (reserve_bounded_rows faults token until bytes rows)
  unfolding reserve_bounded_rows
  bounded_rows-IsSound token until bytes rows =
      if-Preserves IsSound (nat_beq (length chosen) 0) _ _ (λ s i. i)
        (bind-Preserves IsSound
          (statement faults (update_jobs (listed (row_ids chosen)) (reserve token (to_ms until))))
          (bounded_claimed faults token chosen)
          (reserve-IsSound (row_ids chosen) token (to_ms until))
          (bounded_claimed-IsSound token chosen))
    where
      chosen : List Row
      chosen = take_bounded bytes 0 false rows

  pub claim_bounded-IsSound :
      (in_tx : Bool) (now until : Time) (token : LeaseToken) (c : JobCapability) (most bytes : ℕ)
      → Preserves IsSound (find_and_reserve_bounded faults in_tx now until token c most bytes)
  unfolding find_and_reserve_bounded reserve_bounded
  claim_bounded-IsSound in_tx now until token c most bytes =
      unless_error-Preserves IsSound (validate_batch_claim token most) _ (
        unless_error-Preserves IsSound (if nat_beq bytes 0 then some invalid_argument else none) _ (
          unless_error-Preserves IsSound (wrap (validate_capability c)) _ (
            with_immediate_transaction-Preserves IsSound faults in_tx
              (reserve_bounded faults now until token c most bytes)
              (query-Preserves IsSound faults (claimable (c ∷ []) (to_ms now) most)
                (reserve_bounded_rows faults token until bytes)
                (λ t i.
                  bounded_rows-IsSound token until bytes (claimable (c ∷ []) (to_ms now) most t.db)
                    t i)))))
