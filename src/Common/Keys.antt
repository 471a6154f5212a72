-- ===== src/Common/Keys.antt =====
-- The keys of a dictionary: each occurs once, and those of one dictionary among those of another.
use Prim.Native.Nat.{◌≤◌, ◌+◌}
use mathlib.Core.Logic.{◌≢◌, inl, inr}
use mathlib.Core.Path.{◌≡◌, refl, ◌∙◌, subst}
use mathlib.Core.Option.{none, some}
use mathlib.Core.List.{[], ◌∷◌}
use native.Mathlib.Omega.{arith}
use lightnode.Common.Tests.{Bool-cases, Option-cases}
use lightnode.Common.Lists.{length}
use lightnode.Common.Eq.{Eq, ◌==◌, ==_iff, ==_refl}
use lightnode.Common.Dict.{Dict, lookup, insert, delete, lookup-insert, lookup-delete}

module _ {ℓ κ} {K : Type ℓ} {V : Type κ} ⦃e : Eq K⦄ where
  -- A Go map holds a key once.
  unfoldable pub Distinct : Dict K V → Type κ
  Distinct [] = Unit {κ}
  Distinct ((k, v) ∷ d) = (lookup k d ≡ none) × Distinct d

  pub delete-Distinct : (key : K) (d : Dict K V) → Distinct d → Distinct (delete key d)
  unfolding Distinct delete
  delete-Distinct key [] h = h
  delete-Distinct key ((k, v) ∷ d) h =
      ground (arith, delete-Distinct key d h.1, lookup-delete key k d)

  pub insert-Distinct : (key : K) (v : V) (d : Dict K V) → Distinct d → Distinct (insert key v d)
  unfolding Distinct insert lookup
  insert-Distinct key v [] h = (refl, tt)
  insert-Distinct key v ((k, w) ∷ d) h =
      ground
        (arith, insert-Distinct key v d h.1, lookup-insert key k v d, ==_iff key k, ==_iff k key)

  pub length-delete_le : (key : K) (d : Dict K V) → length (delete key d) ≤ length d
  unfolding delete
  length-delete_le key [] = omega arith
  length-delete_le key ((k, v) ∷ d) = ground (arith, length-delete_le key d)

  pub length-delete_present :
      (key : K) (v : V) (d : Dict K V)
      → lookup key d ≡ some v
      → length (delete key d) + 1 ≤ length d
  unfolding delete lookup
  length-delete_present key v [] h = ground arith
  length-delete_present key v ((k, w) ∷ d) h =
      ground (arith, length-delete_present key v d, length-delete_le key d)

-- Every key of the second dictionary is one of the first.
abbrev pub Covers {ℓ κ μ} :
    {K : Type ℓ} {V : Type κ} {W : Type μ} ⦃e : Eq K⦄ → Dict K V → Dict K W → Type (ℓ ⊔ κ ⊔ μ)
Covers {K = K} d c = (k : K) → lookup k d ≡ none → lookup k c ≡ none

Covers-delete {ℓ κ μ} :
    {K : Type ℓ} {V : Type κ} {W : Type μ} ⦃e : Eq K⦄ (k : K) (w : W) (d : Dict K V) (c : Dict K W)
    → lookup k c ≡ none
    → Covers d ((k, w) ∷ c)
    → Covers (delete k d) c
unfolding lookup
Covers-delete k w d c fresh covers j h =
    ground (arith, covers j, lookup-delete k j d, ==_iff j k, ==_iff k j)

-- A dictionary whose keys are among those of another is not longer.
pub length-Covers {ℓ κ μ} :
    {K : Type ℓ} {V : Type κ} {W : Type μ} ⦃e : Eq K⦄ (d : Dict K V) (c : Dict K W)
    → Distinct c
    → Covers d c
    → length c ≤ length d
unfolding Distinct lookup
length-Covers d [] distinct covers = omega arith
length-Covers d ((k, w) ∷ c) distinct covers = elim (Option-cases (lookup k d)) [
  | inl p ↦ absurd (ground (arith, covers k p, ==_refl k))
  | inr (v, p) ↦ omega (
    arith,
    length-delete_present k v d p,
    length-Covers (delete k d) c distinct.1 (Covers-delete k w d c distinct.0 covers),
  )
]

module _ {ℓ κ μ} {K : Type ℓ} {V : Type κ} {W : Type μ} ⦃e : Eq K⦄ where
  pub Covers-insert :
      (d : Dict K V) (c : Dict K W) (k : K) (v : V) → Covers d c → Covers (insert k v d) c
  Covers-insert d c k v covers j h = ground (arith, covers j, lookup-insert k j v d)

  -- A key of the first dictionary may be written to the second.
  pub Covers-insert_known :
      (d : Dict K V) (c : Dict K W) (k : K) (w : W)
      → Covers d c
      → lookup k d ≢ none
      → Covers d (insert k w c)
  Covers-insert_known d c k w covers known j h = elim (Bool-cases (j == k)) [
    | inl p ↦ absurd (known (subst (λ i. lookup i d ≡ none) ((==_iff j k).0 p) h))
    | inr p ↦ lookup-insert k j w c ∙ rw p (covers j h)
  ]
