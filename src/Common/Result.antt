-- ===== src/Common/Result.antt =====
-- A Go function that returns a value and an `error`: the value counts only where the error is nil.
use mathlib.Core.Path.{◌≡◌, refl, ap}
use native.Mathlib.Omega.{arith}
use mathlib.Core.Logic.{◌⊎◌, inl, inr}

pub data Result {ℓ} (E : Type 0) (A : Type ℓ) : Type ℓ where
  err : E → Result E A
  ok : A → Result E A

module _ {ℓ} {E : Type 0} {A : Type ℓ} where
  -- The early return of the first error.
  infixl 5 ◌>>=◌
  abbrev pub ◌>>=◌ {κ} : {B : Type κ} → Result E A → (A → Result E B) → Result E B
  err e >>= next = err e
  ok a >>= next = next a

  pub Result-cases : (r : Result E A) → ((a : A) × (r ≡ ok a)) ⊎ ((e : E) × (r ≡ err e))
  Result-cases (err e) = inr (e, refl)
  Result-cases (ok a) = inl (a, refl)

  pub >>=-eq-ok :
      {B : Type ℓ} (r : Result E A) (next : A → Result E B) (b : B)
      → (r >>= next) ≡ ok b
      → (a : A) × (r ≡ ok a) × (next a ≡ ok b)
  >>=-eq-ok (err e) next b h = absurd (ground arith)
  >>=-eq-ok (ok a) next b h = (a, refl, h)

  value_or : A → Result E A → A
  value_or a (err e) = a
  value_or a (ok b) = b

  pub ok_injective : (a b : A) → ◌≡◌ {A = Result E A} (ok a) (ok b) → a ≡ b
  unfolding value_or
  ok_injective a b h = ap (value_or a) h
