-- ===== src/Sqlite/Keys/Storage.antt =====
-- `CreateJobVersionedUniqueResult` of backends/sqlite/repositories/jobsrepo/api.go: what the registry holds after
-- it.
use mathlib.Core.Path.{subst}
use outbox.Base.{
  length, ℕ, ◌≡◌, refl, sym, ap, ◌∙◌, Bool, true, false, not, Option, none, some, List, Text,
  text_eq, ◌==◌, text_beq_iff, nat_beq, if◌then◌else◌, arith,
}
use outbox.Core.Errors.{Error, Time}
use outbox.Core.Model.{validate_capability, JobId, UniqueBatchPut, UniquePutResult}
use outbox.Core.Publish.{capability_of, wrap_err}
use outbox.Core.Retry.{Result, ok, err}
use outbox.Sqlite.Table.{Row}
use outbox.Sqlite.Sql.{Db, KeyRow, Session, Faults, Sql, statement, query, ◌>>=◌, done}
use outbox.Sqlite.Sql.Atomicity.{Atomic, with_immediate_transaction-Atomic}
use outbox.Sqlite.Sql.Success.{unless_error-ok, bind-ok, statement-ok, guard-ok, ok-injective}
use outbox.Sqlite.Jobs.{wrap, invalid_argument, insert_job}
use outbox.Sqlite.Integrity.Tables.{keys_insert_job}
use outbox.Sqlite.Keys.{
  empty_key_or, with_immediate_transaction, create_job_unique_result, find_key, insert_key, key_row,
  keyed_row, wrapping, put_keyed, put_unique, job_fingerprint,
}

wrapping-ok :
    {A : Type 0} (m : Sql A) (s : Session) (a : A) → (wrapping m s).0 ≡ ok a → (m s).0 ≡ ok a
wrapping-ok {A} m s a h = go (m s).0 h
  where
    go : (r : Result A) → wrap_err r ≡ ok a → r ≡ ok a
    go (ok b) h = h
    go (err e) h = cc

module _ (digest : Text → Text) (format : Time → Text) where
  -- The registry has the key, for the job and the content.
  abbrev pub IsStored : List KeyRow → UniqueBatchPut → JobId → Type 0
  IsStored keys put id =
      (k : KeyRow) × (find_key put.deduplication_key keys ≡ some k)
      × (k.job_id ≡ id)
      × (k.fingerprint ≡ job_fingerprint digest format put)

  put_keyed-ok :
      (faults : Faults) (created : Time) (put : UniqueBatchPut) (inserted : ℕ) (o : Option KeyRow)
      (t : Session) (r : UniquePutResult)
      → find_key put.deduplication_key t.db.keys ≡ o
      → (put_keyed faults digest format created put inserted o t).0 ≡ ok r
      → IsStored (put_keyed faults digest format created put inserted o t).1.db.keys put r.job_id
  unfolding put_keyed
  put_keyed-ok faults created put inserted none t r found h = cc
  put_keyed-ok faults created put inserted (some k) t r found h =
      let (same, e) =
        guard-ok (not (k.fingerprint == job_fingerprint digest format put)) _ rest t r h in
      let (keys, id) =
        go (nat_beq inserted 0) (sym (ap (λ (x : Result UniquePutResult × Session). x.0) e) ∙ h) in
      (
        k,
        ap (find_key put.deduplication_key)
              (ap (λ (x : Result UniquePutResult × Session). x.1.db.keys) e ∙ keys)
            ∙ found,
        id,
        (text_beq_iff k.fingerprint (job_fingerprint digest format put)).0 (ground arith),
      )
    where
      row : Row
      row = keyed_row faults digest format k.job_id created put

      inserting : Sql UniquePutResult
      inserting = wrapping (statement faults (insert_job row)) >>= λ u.
          done (record { job_id = k.job_id; created = true })

      reusing : Sql UniquePutResult
      reusing = done (record { job_id = k.job_id; created = false })

      rest : Sql UniquePutResult
      rest = if nat_beq inserted 0 then reusing else inserting

      go :
          (b : Bool)
          → ((if b then reusing else inserting) t).0 ≡ ok r
          → (((if b then reusing else inserting) t).1.db.keys ≡ t.db.keys) × (k.job_id ≡ r.job_id)
      go true e = (refl, ap (λ (x : UniquePutResult). x.job_id) (ok-injective _ r e))
      go false e =
          let (u, first, e') = bind-ok (wrapping (statement faults (insert_job row))) _ t r e in
          let (v, d) =
            statement-ok faults (insert_job row) t u
              (wrapping-ok (statement faults (insert_job row)) t u first) in
          (
            ap (λ (x : Result UniquePutResult × Session). x.1.db.keys) e'
                ∙ ap (λ (x : Db). x.keys) d
                ∙ keys_insert_job row t.db,
            ap (λ (x : UniquePutResult). x.job_id)
                (ok-injective _ r
                  (sym (ap (λ (x : Result UniquePutResult × Session). x.0) e') ∙ e)),
          )

  put_unique-ok :
      (faults : Faults) (id : JobId) (created : Time) (put : UniqueBatchPut) (t : Session)
      (r : UniquePutResult)
      → (put_unique faults digest format id created put t).0 ≡ ok r
      → IsStored (put_unique faults digest format id created put t).1.db.keys put r.job_id
  unfolding put_unique
  put_unique-ok faults id created put t r h =
      let (n, first, e) = bind-ok insert _ t r h in
      let (o, second, e') =
        bind-ok read (put_keyed faults digest format created put n) (insert t).1 r
          (sym (ap (λ (x : Result UniquePutResult × Session). x.0) e) ∙ h) in
      let (m, d) =
        statement-ok faults (λ db. (ok (find_key put.deduplication_key db.keys), db)) (insert t).1 o
          (wrapping-ok (query faults (λ db. find_key put.deduplication_key db.keys)) (insert t).1 o
            second) in
      let found = ap (λ (x : Db). find_key put.deduplication_key x.keys) d ∙ ok-injective _ o m in
      subst (λ (x : Result UniquePutResult × Session). IsStored x.1.db.keys put r.job_id)
        (sym (e ∙ e'))
        (put_keyed-ok faults created put n o (read (insert t).1).1 r found
          (sym (ap (λ (x : Result UniquePutResult × Session). x.0) (e ∙ e')) ∙ h))
    where
      insert : Sql ℕ
      insert =
          wrapping (statement faults (insert_key (key_row faults digest format id created put)))

      read : Sql (Option KeyRow)
      read = wrapping (query faults (λ db. find_key put.deduplication_key db.keys))

  Atomic-IsStored :
      (faults : Faults) (start : Db) (id : JobId) (created : Time) (put : UniqueBatchPut)
      (r : UniquePutResult) (x : Result UniquePutResult × Session)
      → Atomic start (put_unique faults digest format id created put) x
      → x.0 ≡ ok r
      → IsStored x.1.db.keys put r.job_id
  Atomic-IsStored faults start id created put r (err e, s) atomic h = cc
  Atomic-IsStored faults start id created put r (ok a, s) (t, began, ran, e) h =
      subst (λ (db : Db). IsStored db.keys put r.job_id) (sym e)
        (put_unique-ok faults id created put t r (ran ∙ h))

  pub put-IsStored :
      (faults : Faults) (s : Session) (id : JobId) (created : Time) (put : UniqueBatchPut)
      (r : UniquePutResult)
      → (create_job_unique_result faults digest format false id created put s).0 ≡ ok r
      → (nat_beq (length put.deduplication_key) 0 ≡ false)
        × IsStored
            (create_job_unique_result faults digest format false id created put s).1.db.keys
            put
            r.job_id
  unfolding create_job_unique_result
  put-IsStored faults s id created put r h =
      let (valid, e) = unless_error-ok check transaction s r h in
      (
        nonempty (nat_beq (length put.deduplication_key) 0) valid,
        subst (λ (x : Result UniquePutResult × Session). IsStored x.1.db.keys put r.job_id) (sym e)
            (Atomic-IsStored faults s.db id created put r (transaction s)
              (with_immediate_transaction-Atomic faults
                (put_unique faults digest format id created put) s)
              (sym (ap (λ (x : Result UniquePutResult × Session). x.0) e) ∙ h)),
      )
    where
      check : Option Error
      check = empty_key_or put.deduplication_key (wrap (validate_capability (capability_of put)))

      transaction : Sql UniquePutResult
      transaction =
          with_immediate_transaction faults false (put_unique faults digest format id created put)

      nonempty :
          (b : Bool)
          → (if b then some invalid_argument else wrap (validate_capability (capability_of put)))
            ≡ none
          → b ≡ false
      nonempty true e = cc
      nonempty false e = refl
