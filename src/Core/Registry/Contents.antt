-- ===== src/Core/Registry/Contents.antt =====
-- `RegisterJobs` of outbox/service.go: which lists of handlers it accepts, and what is registered afterwards.
use outbox.Base.{
  ◌≡◌, refl, true, false, Bool, ◌&&◌, ◌||◌, Option, none, some, List, [], ◌∷◌, arith, Bool-cases,
  inl, inr, is_some, if◌then◌else◌, ◌==◌,
}
use outbox.Base.Int.{pos}
use outbox.Base.Dict.{Dict, lookup, contains, insert, lookup-insert}
use outbox.Core.Errors.{Error, first_some, wrapped}
use outbox.Core.Model.{JobCapability, capability_eq, capability_beq_iff, validate_capability}
use outbox.Core.Retry.{Result, ok, err}
use outbox.Core.Registry.{
  Handler, Registry, register_jobs, collect, clashes, install, install_all, capability_for_job,
  checked, duplicate_capability,
}

-- The schema version is 1 unless the handler has one.
abbrev pub capability_of : Handler → JobCapability
capability_of h = record {
  name = h.name;
  schema_version = elim h.schema_version [ none ↦ pos 1 | some version ↦ version ];
}

-- The handler of the list that has the capability.
abbrev pub offered : JobCapability → List (Option Handler) → Option Handler
offered c [] = none
offered c (none ∷ hs) = offered c hs
offered c (some h ∷ hs) = if capability_of h == c then some h else offered c hs

-- No handler is nil, each capability is valid, and no two are the same.
abbrev pub AreProper : List (Option Handler) → Type 0
AreProper [] = Unit {0}
AreProper (none ∷ hs) = ⊥
AreProper (some h ∷ hs) =
    (validate_capability (capability_of h) ≡ none)
    × (offered (capability_of h) hs ≡ none)
    × AreProper hs

abbrev pub IsAcceptable : List (Option Handler) → Registry → Type 0
IsAcceptable hs r =
    AreProper hs
    × (r.running ≡ false)
    × ((c : JobCapability)
        → is_some (offered c hs) && (contains c r.jobs || contains c r.batch_jobs) ≡ false)

-- On an error nothing has changed.
abbrev pub Registers : List (Option Handler) → Registry → Option Error × Registry → Type 0
Registers hs r (some e, r') = (¬ IsAcceptable hs r) × (r' ≡ r)
Registers hs r (none, r') =
    IsAcceptable hs r
    × ((c : JobCapability) → lookup c r'.jobs ≡ first_some (offered c hs) (lookup c r.jobs))
    × (r'.batch_jobs ≡ r.batch_jobs)
    × (r'.running ≡ r.running)

-- Each key stands once.
abbrev IsProper : Dict JobCapability Handler → Type 0
IsProper [] = Unit {0}
IsProper ((k, v) ∷ d) = (contains k d ≡ false) × IsProper d

insert-IsProper :
    (c : JobCapability) (h : Handler) (d : Dict JobCapability Handler)
    → IsProper d
    → IsProper (insert c h d)
insert-IsProper c h [] p = (refl, tt)
insert-IsProper c h ((k, v) ∷ d) p = elim (Bool-cases (k == c)) [
  | inl same ↦ rw same (ground (arith, capability_beq_iff k c), p.1)
  | inr other ↦ rw other (
    ground (arith, lookup-insert c k h d, capability_beq_iff k c, capability_beq_iff c k),
    insert-IsProper c h d p.1,
  )
]

-- No handler of the list has a capability of the map.
abbrev AreNew : List (Option Handler) → Dict JobCapability Handler → Type 0
AreNew hs d = (c : JobCapability) → is_some (offered c hs) && contains c d ≡ false

abbrev Collects :
    List (Option Handler)
    → Dict JobCapability Handler
    → Result (Dict JobCapability Handler)
    → Type 0
Collects hs d (err e) = ¬ (AreProper hs × AreNew hs d)
Collects hs d (ok d') =
    AreProper hs
    × AreNew hs d
    × IsProper d'
    × ((c : JobCapability) → lookup c d' ≡ first_some (offered c hs) (lookup c d))

AreNew-insert :
    (h : Handler) (hs : List (Option Handler)) (d : Dict JobCapability Handler)
    → offered (capability_of h) hs ≡ none
    → AreNew (some h ∷ hs) d
    → AreNew hs (insert (capability_of h) h d)
AreNew-insert h hs d single new c =
    ground
      (arith, new c, lookup-insert (capability_of h) c h d, capability_beq_iff (capability_of h) c)

collected :
    (h : Handler) (hs : List (Option Handler)) (d : Dict JobCapability Handler)
    (r : Result (Dict JobCapability Handler))
    → validate_capability (capability_of h) ≡ none
    → contains (capability_of h) d ≡ false
    → Collects hs (insert (capability_of h) h d) r
    → Collects (some h ∷ hs) d r
collected h hs d (err e) valid free s = λ p. s (p.0.2, AreNew-insert h hs d p.0.1 p.1)
collected h hs d (ok d') valid free (proper, new, once, held) = (
  (
    valid,
    ground (
      arith,
      new (capability_of h),
      lookup-insert (capability_of h) (capability_of h) h d,
      capability_beq_iff (capability_of h) (capability_of h),
    ),
    proper,
  ),
  λ c.
      ground (
        arith,
        new c,
        lookup-insert (capability_of h) c h d,
        capability_beq_iff (capability_of h) c,
      ),
  once,
  λ c. ground (
    arith,
    new c,
    held c,
    lookup-insert (capability_of h) c h d,
    capability_beq_iff (capability_of h) c,
  ),
)

collect-Collects :
    (hs : List (Option Handler)) (d : Dict JobCapability Handler)
    → IsProper d
    → Collects hs d (collect hs d)
unfolding collect capability_for_job
collect-Collects [] d p = (tt, λ c. refl, p, λ c. refl)
collect-Collects (none ∷ hs) d p = λ q. q.0
collect-Collects (some h ∷ hs) d p =
    let k = capability_of h in
    go (collect-Collects hs (insert k h d) (insert-IsProper k h d p)) (validate_capability k) refl
  where
    c : JobCapability
    c = capability_of h

    rest : Result (Dict JobCapability Handler)
    rest = collect hs (insert c h d)

    unless_taken :
        Collects hs (insert c h d) rest
        → (b : Bool) → contains c d ≡ b
        → validate_capability c ≡ none
        → Collects (some h ∷ hs) d (if b then err duplicate_capability else rest)
    unless_taken later true taken valid = λ q. ground (arith, q.1 c, capability_beq_iff c c)
    unless_taken later false free valid = collected h hs d rest valid free later

    go :
        Collects hs (insert c h d) rest
        → (o : Option Error) → validate_capability c ≡ o
        → Collects
            (some h ∷ hs)
            d
            (elim (checked o c) as (λ x. Result (Dict JobCapability Handler)) [
              | err e ↦ err (wrapped e)
              | ok k ↦ if contains k d then err duplicate_capability else collect hs (insert k h d)
            ])
    go later none valid = unless_taken later (contains c d) refl valid
    go later (some e) invalid = λ q. cc (q.0.0, invalid)

install-lookup :
    (d jobs : Dict JobCapability Handler) (c : JobCapability)
    → IsProper d
    → lookup c (install d jobs) ≡ first_some (lookup c d) (lookup c jobs)
install-lookup [] jobs c p = refl
install-lookup ((k, v) ∷ d) jobs c p = ground (
  arith,
  install-lookup d (insert k v jobs) c p.1,
  lookup-insert k c v jobs,
  capability_beq_iff k c,
  p.0,
)

clashes_none :
    (d : Dict JobCapability Handler) (r : Registry) (c : JobCapability)
    → clashes d r ≡ false
    → contains c d && (contains c r.jobs || contains c r.batch_jobs) ≡ false
unfolding clashes
clashes_none [] r c h = refl
clashes_none ((k, v) ∷ d) r c h = ground (arith, capability_beq_iff k c, clashes_none d r c)

clashes_some :
    (d : Dict JobCapability Handler) (r : Registry)
    → clashes d r ≡ true
    → (c : JobCapability) × (contains c d && (contains c r.jobs || contains c r.batch_jobs) ≡ true)
unfolding clashes
clashes_some [] r h = absurd cc
clashes_some ((k, v) ∷ d) r h = elim (Bool-cases (contains k r.jobs || contains k r.batch_jobs)) [
  | inl here ↦ (k, ground (arith, capability_beq_iff k k))
  | inr other ↦ let (c, found) = clashes_some d r (ground arith) in (c, ground (arith, found))
]

install_all-Registers :
    (hs : List (Option Handler)) (c : Result (Dict JobCapability Handler)) (r : Registry)
    → Collects hs [] c
    → Registers hs r (install_all c r)
unfolding install_all
install_all-Registers hs (err e) r none_ = (λ p. none_ (p.0, λ c. ground arith), refl)
install_all-Registers hs (ok d) r (proper, new, once, held) = elim (Bool-cases r.running) [
  | inl running ↦ rw running (λ p. cc, refl)
  | inr stopped ↦ elim (Bool-cases (clashes d r)) [
    | inl clash ↦
        rw (clash, stopped)
          (
            λ p. let (c, found) = clashes_some d r clash in ground (arith, held c, p.2 c, found),
            refl,
          )
    | inr free ↦
        rw (free, stopped)
          (
            (proper, refl, λ c. ground (arith, held c, clashes_none d r c free)),
            λ c. ground (arith, held c, install-lookup d r.jobs c once),
            refl,
            refl,
          )
  ]
]

-- A registration of single jobs succeeds exactly if the service does not run and no handler is nil, has an
-- invalid capability, or one that another of them has or that is registered for either kind. Then each capability
-- of a handler leads to that handler, and every other lookup gives what it gave before; on an error nothing is
-- changed.
pub register_jobs-Registers :
    (hs : List (Option Handler)) (r : Registry) → Registers hs r (register_jobs hs r)
unfolding register_jobs
register_jobs-Registers hs r =
    install_all-Registers hs (collect hs []) r (collect-Collects hs [] tt)
