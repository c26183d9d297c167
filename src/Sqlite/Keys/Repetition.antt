-- ===== src/Sqlite/Keys/Repetition.antt =====
-- `CreateJobVersionedUniqueResult` of backends/sqlite/repositories/jobsrepo/api.go, called again with a key.
use outbox.Base.{
  inr, inl, Bool-cases, ◌≡◌, refl, ap, ◌∙◌, Bool, true, false, Option, none, some, Text, text_eq,
  ◌==◌,
}
use outbox.Core.Errors.{Error, idempotency_conflict, sentinel, Time}
use outbox.Core.Model.{validate_capability, JobId, UniqueBatchPut, UniquePutResult}
use outbox.Core.Publish.{capability_of}
use outbox.Core.Retry.{Result, ok, err}
use outbox.Sqlite.Sql.{counted, Db, KeyRow, Session, Faults}
use outbox.Sqlite.Sql.Success.{no_faults, kept_db, with_immediate_transaction-no_faults}
use outbox.Sqlite.Jobs.{wrap}
use outbox.Sqlite.Keys.Storage.{put-IsStored}
use outbox.Sqlite.Keys.{
  empty_key_or, with_immediate_transaction, unless_error, create_job_unique_result, find_key,
  key_row, put_keyed, put_unique, job_fingerprint,
}

module _ (digest : Text → Text) (format : Time → Text) where
  -- The answer to a put whose key is registered for `id` and whose content is compared.
  abbrev pub repeated : JobId → Bool → Result UniquePutResult
  repeated id true = ok (record { job_id = id; created = false })
  repeated id false = err (sentinel idempotency_conflict)

  put_keyed-known :
      (created : Time) (put : UniqueBatchPut) (k : KeyRow) (t : Session)
      → put_keyed no_faults digest format created put 0 (some k) t
        ≡ (repeated k.job_id (k.fingerprint == job_fingerprint digest format put), t)
  unfolding put_keyed
  put_keyed-known created put k t =
      elim (Bool-cases (k.fingerprint == job_fingerprint digest format put)) [
        | inl same ↦ rw same refl
        | inr other ↦ rw other refl
      ]

  put_unique-known :
      (id : JobId) (created : Time) (put : UniqueBatchPut) (k : KeyRow) (t : Session)
      → find_key put.deduplication_key t.db.keys ≡ some k
      → put_unique no_faults digest format id created put t ≡ (
        repeated k.job_id (k.fingerprint == job_fingerprint digest format put),
        counted (counted t),
      )
  unfolding put_unique key_row
  put_unique-known id created put k t found =
      rw found (rw found (put_keyed-known created put k (counted (counted t))))

  kept-repeated : (id : JobId) (b : Bool) (db : Db) → kept_db (repeated id b) db db ≡ db
  kept-repeated id true db = refl
  kept-repeated id false db = refl

  guarded-known :
      (e : Option Error) (id : JobId) (created : Time) (put : UniqueBatchPut) (k : KeyRow)
      (t : Session)
      → e ≡ none
      → find_key put.deduplication_key t.db.keys ≡ some k
      → let s =
          unless_error e
            (with_immediate_transaction no_faults false
              (put_unique no_faults digest format id created put))
            t in
        (s.0 ≡ repeated k.job_id (k.fingerprint == job_fingerprint digest format put))
        × (s.1.db ≡ t.db)
  guarded-known none id created put k t valid found =
      let (answer, db) =
        with_immediate_transaction-no_faults (put_unique no_faults digest format id created put) t
          (counted (counted (counted (counted t))))
          (repeated k.job_id (k.fingerprint == job_fingerprint digest format put))
          (put_unique-known id created put k (counted (counted t)) found) in
      (
        answer,
        db ∙ kept-repeated k.job_id (k.fingerprint == job_fingerprint digest format put) t.db,
      )
  guarded-known (some e) id created put k t valid found = cc

  -- After a put has answered with a job, on any later database whose registry still has its key as it was, and
  -- where no call of the engine fails: a put with the key and the content's fingerprint answers with the same
  -- job, not created; with another fingerprint it is refused as a conflict. Neither changes the database.
  pub create_job_unique_result-again :
      (faults : Faults) (s t : Session) (id id' : JobId) (created created' : Time)
      (put again : UniqueBatchPut) (r : UniquePutResult)
      → (create_job_unique_result faults digest format false id created put s).0 ≡ ok r
      → find_key put.deduplication_key t.db.keys
        ≡ find_key put.deduplication_key
            (create_job_unique_result faults digest format false id created put s).1.db.keys
      → again.deduplication_key ≡ put.deduplication_key
      → validate_capability (capability_of again) ≡ none
      → let x = create_job_unique_result no_faults digest format false id' created' again t in
        (x.0
          ≡ repeated r.job_id
              (job_fingerprint digest format put == job_fingerprint digest format again))
        × (x.1.db ≡ t.db)
  unfolding create_job_unique_result
  create_job_unique_result-again faults s t id id' created created' put again r h still same valid =
      let (nonempty, (k, found, job, print)) =
        put-IsStored digest format faults s id created put r h in
      let (answer, db) =
        guarded-known
          (empty_key_or again.deduplication_key (wrap (validate_capability (capability_of again))))
          id' created' again k t (rw same (rw nonempty (rw valid refl)))
          (ap (λ key. find_key key t.db.keys) same ∙ still ∙ found) in
      (
        answer
            ∙ ap (λ j. repeated j (k.fingerprint == job_fingerprint digest format again)) job
            ∙ ap (λ f. repeated r.job_id (f == job_fingerprint digest format again)) print,
        db,
      )
