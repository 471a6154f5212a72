-- ===== src/Common/Dict.antt =====
-- A Go map (and a key-value table) as an association list: reads, writes, `delete` and `len`.
-- The program never depends on the order in which a map is iterated.
use Prim.Native.Nat.{◌≤◌, ◌+◌}
use mathlib.Core.Path.{◌≡◌, refl}
use mathlib.Core.Option.{Option, none, some}
use mathlib.Core.List.{List, [], ◌∷◌}
use native.Mathlib.Omega.{arith}
use lightnode.Common.Tests.{if◌then◌else◌}
use lightnode.Common.Lists.{length}
use lightnode.Common.Eq.{Eq, ◌==◌, ==_iff}

abbrev pub Dict {ℓ κ} : Type ℓ → Type κ → Type (ℓ ⊔ κ)
Dict K V = List (K × V)

module _ {ℓ κ} {K : Type ℓ} {V : Type κ} ⦃e : Eq K⦄ where
  -- delete(d, key)
  unfoldable pub delete : K → Dict K V → Dict K V
  delete key [] = []
  delete key ((k, v) ∷ d) = let rest = delete key d in if key == k then rest else (k, v) ∷ rest

  -- value, ok := d[key]
  unfoldable pub lookup : K → Dict K V → Option V
  lookup key [] = none
  lookup key ((k, v) ∷ d) = if key == k then some v else lookup key d

  -- d[key] = value
  unfoldable pub insert : K → V → Dict K V → Dict K V
  insert key value [] = (key, value) ∷ []
  insert key value ((k, v) ∷ d) = if key == k then (k, value) ∷ d else (k, v) ∷ insert key value d

  pub lookup-delete :
      (key j : K) (d : Dict K V) → lookup j (delete key d) ≡ (if j == key then none else lookup j d)
  unfolding lookup delete
  lookup-delete key j [] = ground arith
  lookup-delete key j ((k, v) ∷ d) =
      ground (arith, lookup-delete key j d, ==_iff key k, ==_iff j k, ==_iff j key)

  pub lookup-insert :
      (key j : K) (value : V) (d : Dict K V)
      → lookup j (insert key value d) ≡ (if j == key then some value else lookup j d)
  unfolding lookup insert
  lookup-insert key j value [] = refl
  lookup-insert key j value ((k, v) ∷ d) =
      ground (arith, lookup-insert key j value d, ==_iff key k, ==_iff j k, ==_iff j key)

  pub length-insert :
      (key : K) (value : V) (d : Dict K V) → length (insert key value d) ≤ length d + 1
  unfolding insert
  length-insert key value [] = omega arith
  length-insert key value ((k, v) ∷ d) = ground (arith, length-insert key value d)
