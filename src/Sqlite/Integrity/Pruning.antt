-- ===== src/Sqlite/Integrity/Pruning.antt =====
-- `PruneJobIdempotencyKeys` of backends/sqlite/repositories/jobsrepo/api.go removes no key of an active job.
use outbox.Base.{
  ◌==◌, ℕ, zero, suc, ◌≡◌, refl, ap, ◌∙◌, Bool, true, false, Option, none, some, List, [], ◌∷◌,
  Text, text_eq, text_beq_iff, elem, arith, All, All-map, Bool-cases, inl, inr,
}
use outbox.Sqlite.Table.{Row}
use outbox.Sqlite.Sql.{Db, KeyRow}
use outbox.Sqlite.Jobs.{any_row, has_key}
use outbox.Sqlite.Keys.{
  find_key, first_keys, prunable, insert_key_by, is_prunable, delete_keys, prune_keys, key_precedes,
}
use outbox.Sqlite.Integrity.{IsRegisteredAs, IsRegistered, IsSound}

find_key-delete :
    (texts : List Text) (key : Text) (keys : List KeyRow)
    → elem key texts ≡ false
    → find_key key (delete_keys texts keys) ≡ find_key key keys
unfolding delete_keys
find_key-delete texts key [] h = refl
find_key-delete texts key (k ∷ keys) h =
    ground (arith, text_beq_iff k.deduplication_key key, find_key-delete texts key keys h)

module _ (p : KeyRow → Bool) where
  All-insert :
      (k : KeyRow) (keys : List KeyRow)
      → p k ≡ true
      → All (λ j. p j ≡ true) keys
      → All (λ j. p j ≡ true) (insert_key_by k keys)
  unfolding insert_key_by
  All-insert k [] h all = (h, tt)
  All-insert k (j ∷ keys) h all = elim (Bool-cases (key_precedes j k)) [
    | inl after ↦ rw after (all.0, All-insert k keys h all.1)
    | inr first ↦ rw first (h, all)
  ]

  All-prunable : (keys : List KeyRow) → All (λ k. p k ≡ true) (prunable p keys)
  unfolding prunable
  All-prunable [] = tt
  All-prunable (k ∷ keys) = elim (Bool-cases (p k)) [
    | inl chosen ↦ rw chosen (All-insert k (prunable p keys) chosen (All-prunable keys))
    | inr kept ↦ rw kept (All-prunable keys)
  ]

  elem-first_keys :
      (n : ℕ) (text : Text) (keys : List KeyRow)
      → All (λ k. p k ≡ true) keys
      → elem text (first_keys n keys) ≡ true
      → (k : KeyRow) × (k.deduplication_key ≡ text) × (p k ≡ true)
  elem-first_keys zero text keys all h = cc
  elem-first_keys (suc n) text [] all h = cc
  elem-first_keys (suc n) text (k ∷ keys) all h = elim (Bool-cases (k.deduplication_key == text)) [
    | inl here ↦ (k, (text_beq_iff k.deduplication_key text).0 here, all.0)
    | inr there ↦ elem-first_keys n text keys all.1 (ground arith)
  ]

abbrev IsActiveKey : List Row → Row → Type 0
IsActiveKey rows r =
    (key : Text) → r.deduplication_key ≡ some key → any_row (has_key (some key)) rows ≡ true

All-active : (rows : List Row) → All (IsActiveKey rows) rows
All-active [] = tt
All-active (r ∷ rows) = (
  λ key h. ground (arith, text_beq_iff key key),
  All-map (IsActiveKey rows) (IsActiveKey (r ∷ rows)) rows
      (λ q active key h. ground (arith, active key h)) (All-active rows),
)

kept :
    (ms limit : ℕ) (db : Db) (key : Text)
    → any_row (has_key (some key)) db.jobs ≡ true
    → elem key (first_keys limit (prunable (is_prunable ms db) db.keys)) ≡ false
kept ms limit db key active =
    elim (Bool-cases (elem key (first_keys limit (prunable (is_prunable ms db) db.keys)))) [
      | inr out ↦ out
      | inl chosen ↦
          let (k, same, met) =
            elem-first_keys (is_prunable ms db) limit key (prunable (is_prunable ms db) db.keys)
              (All-prunable (is_prunable ms db) db.keys) chosen in
          let on : any_row (has_key (some k.deduplication_key)) db.jobs ≡ true =
            ap (λ t. any_row (has_key (some t)) db.jobs) same ∙ active in
          absurd (ground (arith, met, on))
    ]

All-kept :
    (texts : List Text) (keys : List KeyRow) (rows : List Row)
    → All (IsRegistered keys) rows
    → All (λ r. (key : Text) → r.deduplication_key ≡ some key → elem key texts ≡ false) rows
    → All (IsRegistered (delete_keys texts keys)) rows
All-kept texts keys [] all out = tt
All-kept texts keys (r ∷ rows) all out =
    (go r.deduplication_key all.0 out.0, All-kept texts keys rows all.1 out.1)
  where
    go :
        (o : Option Text)
        → IsRegisteredAs keys r.id o
        → ((key : Text) → o ≡ some key → elem key texts ≡ false)
        → IsRegisteredAs (delete_keys texts keys) r.id o
    go none h e = tt
    go (some key) (k, found, same) e =
        (k, find_key-delete texts key keys (e key refl) ∙ found, same)

pub prune_keys-IsSound : (ms limit : ℕ) (db : Db) → IsSound db → IsSound (prune_keys ms limit db).1
unfolding prune_keys
prune_keys-IsSound ms limit db (d, all) = (
  d,
  All-kept (first_keys limit (prunable (is_prunable ms db) db.keys)) db.keys db.jobs all (
      All-map (IsActiveKey db.jobs) _ db.jobs
        (λ r active key h. kept ms limit db key (active key h)) (All-active db.jobs)),
)
