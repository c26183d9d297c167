-- ===== src/Sqlite/Integrity/Prepared.antt =====
-- The prepared rows of a unique batch, in backends/sqlite/repositories/jobsrepo/api.go, and the keys that the
-- registry holds for them.
use mathlib.Core.Path.{subst}
use outbox.Base.{
  nat_eq, ◌≡◌, refl, sym, ◌∙◌, Bool, true, false, Option, none, some, List, [], ◌∷◌, if◌then◌else◌,
  Text, text_eq, ◌==◌, text_beq_iff, nat_beq, nat_beq_iff, elem, arith, All,
}
use outbox.Core.Model.{UniquePutResult}
use outbox.Core.Retry.{Result, ok, err}
use outbox.Sqlite.Sql.{KeyRow}
use outbox.Sqlite.Keys.{find_key}
use outbox.Sqlite.Bulk.{add_result, PreparedUniqueBatchPut, stored_keys, compare_key, collect_puts}
use outbox.Core.Errors.{sentinel, idempotency_conflict}
use outbox.Sqlite.Integrity.{IsRegisteredAs, IsRegistered}

-- A batch's rows belong to their keys.
abbrev pub IsPrepared : PreparedUniqueBatchPut → Type 0
IsPrepared p = (p.row.id ≡ p.key.job_id) × (p.row.deduplication_key ≡ some p.put.deduplication_key)

stored_keys-none :
    (texts : List Text) (key : Text) (keys : List KeyRow)
    → elem key texts ≡ false
    → find_key key (stored_keys texts keys) ≡ none
unfolding stored_keys
stored_keys-none texts key [] h = refl
stored_keys-none texts key (j ∷ keys) h =
    ground (arith, text_beq_iff j.deduplication_key key, stored_keys-none texts key keys h)

find_key-stored_keys :
    (texts : List Text) (key : Text) (keys : List KeyRow) (k : KeyRow)
    → find_key key (stored_keys texts keys) ≡ some k
    → find_key key keys ≡ some k
unfolding stored_keys
find_key-stored_keys texts key [] k h = h
find_key-stored_keys texts key (j ∷ keys) k h = ground (
  arith,
  text_beq_iff j.deduplication_key key,
  stored_keys-none texts key keys,
  find_key-stored_keys texts key keys k,
)

-- The jobs to create are those of their keys.
abbrev pub IsCreated :
    List KeyRow → Result (List UniquePutResult × List PreparedUniqueBatchPut) → Type 0
IsCreated keys (err e) = Unit {0}
IsCreated keys (ok (results, created)) = All (λ q. IsRegistered keys q.row) created

add_result-IsCreated :
    (keys : List KeyRow) (k : KeyRow) (p : PreparedUniqueBatchPut)
    (rest : Result (List UniquePutResult × List PreparedUniqueBatchPut))
    → IsPrepared p
    → find_key p.put.deduplication_key keys ≡ some k
    → IsCreated keys rest
    → IsCreated keys (add_result k p rest)
add_result-IsCreated keys k p (err e) prep here all = tt
add_result-IsCreated keys k p (ok (results, created)) prep here all =
    go (nat_beq k.job_id p.key.job_id) (nat_beq_iff k.job_id p.key.job_id).0
  where
    go :
        (b : Bool)
        → (b ≡ true → k.job_id ≡ p.key.job_id)
        → All (λ q. IsRegistered keys q.row) (if b then p ∷ created else created)
    go false same = all
    go true same =
        (subst (IsRegisteredAs keys p.row.id) (sym prep.1) (k, here, same refl ∙ sym prep.0), all)

compare_key-IsCreated :
    (keys : List KeyRow) (o : Option KeyRow) (p : PreparedUniqueBatchPut)
    (rest : Result (List UniquePutResult × List PreparedUniqueBatchPut))
    → IsPrepared p
    → ((k : KeyRow) → o ≡ some k → find_key p.put.deduplication_key keys ≡ some k)
    → IsCreated keys rest
    → IsCreated keys (compare_key o p rest)
compare_key-IsCreated keys none p rest prep here all = tt
compare_key-IsCreated keys (some k) p rest prep here all = go (k.fingerprint == p.key.fingerprint)
  where
    go :
        (b : Bool)
        → IsCreated keys (if b then add_result k p rest else err (sentinel idempotency_conflict))
    go true = add_result-IsCreated keys k p rest prep (here k refl) all
    go false = tt

pub collect_puts-IsCreated :
    (texts : List Text) (keys : List KeyRow) (prepared : List PreparedUniqueBatchPut)
    → All IsPrepared prepared
    → IsCreated keys (collect_puts (stored_keys texts keys) prepared)
unfolding collect_puts
collect_puts-IsCreated texts keys [] prep = tt
collect_puts-IsCreated texts keys (p ∷ prepared) prep =
    compare_key-IsCreated keys (find_key p.put.deduplication_key (stored_keys texts keys)) p
      (collect_puts (stored_keys texts keys) prepared) prep.0
      (find_key-stored_keys texts p.put.deduplication_key keys)
      (collect_puts-IsCreated texts keys prepared prep.1)
