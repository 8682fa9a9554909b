-- ===== src/Base/Outcome.antt =====
-- Go's pair of a value and an error, of which one is set, and early returns.
use mathlib.Core.Path.{◌≡◌, refl}
use mathlib.Core.Logic.{◌⊎◌, inl, inr}
use mathlib.Core.Bool.{Bool, true, false}

-- The error comes first, so that `Result E` is what a function may fail with.
pub data Result {ℓ} (E : Type 0) (A : Type ℓ) : Type ℓ where
  err : E → Result E A
  ok : A → Result E A

-- `a, err := …; if err != nil { return err }`
infixl 5 ◌>>=◌
abbrev pub ◌>>=◌ {κ ℓ} :
    {A : Type ℓ} {E : Type 0} {B : Type κ} → Result E A → (A → Result E B) → Result E B
outcome >>= rest = elim outcome [ err e ↦ err e | ok a ↦ rest a ]

-- The same for a step that has no value.
infixl 5 ◌>>◌
abbrev pub ◌>>◌ {κ} : {B : Type κ} {E : Type 0} → Result E (Unit {0}) → Result E B → Result E B
check >> rest = elim check [ err e ↦ err e | ok done ↦ rest ]

module _ {E : Type 0} where
  -- `if bad { return e }`
  abbrev pub refuse_if : Bool → E → Result E (Unit {0})
  refuse_if bad e = elim bad [ true ↦ err e | false ↦ ok tt ]

  pub Result-cases {ℓ} :
      {A : Type ℓ} (outcome : Result E A)
      → ((a : A) × (outcome ≡ ok a)) ⊎ ((e : E) × (outcome ≡ err e))
  Result-cases (err e) = inr (e, refl)
  Result-cases (ok a) = inl (a, refl)
