-- ===== src/Core/Batch/Identifiers.antt =====
-- Lists of job identifiers without repetition.
use outbox.Base.{
  elem, suc, ◌≤◌, ◌≡◌, refl, true, false, List, [], ◌∷◌, if◌then◌else◌, length, ◌==◌, nat_eq,
  nat_beq_iff, arith, Bool-cases, inl, inr,
}
use outbox.Core.Model.{JobId}

abbrev pub Distinct : List JobId → Type 0
Distinct [] = Unit {0}
Distinct (id ∷ ids) = (elem id ids ≡ false) × Distinct ids

abbrev pub Subset : List JobId → List JobId → Type 0
Subset ids js = (id : JobId) → elem id ids ≡ true → elem id js ≡ true

remove : JobId → List JobId → List JobId
remove id [] = []
remove id (j ∷ ids) = if j == id then ids else j ∷ remove id ids

length-remove :
    (id : JobId) (ids : List JobId) → elem id ids ≡ true → suc (length (remove id ids)) ≡ length ids
unfolding remove
length-remove id [] h = cc
length-remove id (j ∷ ids) h = ground (arith, length-remove id ids)

elem-remove_ne :
    (k id : JobId) (ids : List JobId) → (id == k) ≡ false → elem k (remove id ids) ≡ elem k ids
unfolding remove
elem-remove_ne k id [] h = refl
elem-remove_ne k id (j ∷ ids) h = ground (arith, elem-remove_ne k id ids h)

-- A list without repetition that is no shorter than one that contains it has all its members.
pub Subset-of_length :
    (ids js : List JobId) → Distinct ids → Subset ids js → length js ≤ length ids → Subset js ids
Subset-of_length [] [] d s h id e = e
Subset-of_length [] (j ∷ js) d s h id e = absurd (omega arith)
Subset-of_length (i ∷ ids) js d s h id e = elim (Bool-cases (i == id)) [
  | inl here ↦ rw here
  | inr there ↦
      let found : elem i js ≡ true = s i (ground (arith, nat_beq_iff i i)) in
      let rest : elem id ids ≡ true =
        Subset-of_length ids (remove i js) d.1
          (λ k m. ground (arith, elem-remove_ne k i js, s k, d.0))
          (omega (arith, length-remove i js found)) id
          (ground (arith, elem-remove_ne id i js there)) in
      rw there rest
]

-- A list without repetition is no longer than one that contains it.
pub length-le_of_Subset :
    (ids js : List JobId) → Distinct ids → Subset ids js → length ids ≤ length js
length-le_of_Subset [] js d s = omega arith
length-le_of_Subset (i ∷ ids) js d s =
    let found : elem i js ≡ true = s i (ground (arith, nat_beq_iff i i)) in
    let ih =
      length-le_of_Subset ids (remove i js) d.1
        (λ k m. ground (arith, elem-remove_ne k i js, s k, d.0, nat_beq_iff i k)) in
    omega (arith, length-remove i js found, ih)
