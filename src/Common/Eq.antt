-- ===== src/Common/Eq.antt =====
-- Go's `==` and `reflect.DeepEqual` on a type, as an instance argument.
use text.Mathlib.Text.{◌==◌ as text_equal}
use text.Mathlib.TextEquality.{eq_iff}
use Prim.Native.Nat.{ℕ}
use Prim.Native.String.{String}
use mathlib.Core.Path.{◌≡◌, refl}
use mathlib.Core.Logic.{◌↔◌}
use mathlib.Core.Bool.{Bool, true, false, ◌&&◌}
use mathlib.Core.List.{List, [], ◌∷◌}
use native.Mathlib.Omega.{arith}
use lightnode.Common.Tests.{nat_beq, nat_beq_iff}

-- A test for equality that answers true exactly on equal values.
pub record Eq {ℓ} (T : Type ℓ) : Type ℓ where
  pub equal : T → T → Bool
  pub equal_iff : (x y : T) → (equal x y ≡ true) ↔ (x ≡ y)

-- Keys of maps are texts; ids are numbers.
instance abbrev pub string_eq : Eq String
string_eq = record { equal = text_equal; equal_iff = eq_iff }

instance abbrev pub number_eq : Eq ℕ
number_eq = record { equal = nat_beq; equal_iff = nat_beq_iff }

abbrev bytes_beq : List ℕ → List ℕ → Bool
bytes_beq [] [] = true
bytes_beq (x ∷ a) (y ∷ b) = nat_beq x y && bytes_beq a b
bytes_beq _ _ = false

pub bytes_beq_iff : (a b : List ℕ) → (bytes_beq a b ≡ true) ↔ (a ≡ b)
bytes_beq_iff [] [] = ground arith
bytes_beq_iff [] (y ∷ b) = ground arith
bytes_beq_iff (x ∷ a) [] = ground arith
bytes_beq_iff (x ∷ a) (y ∷ b) = ground (arith, nat_beq_iff x y, bytes_beq_iff a b)

instance abbrev pub bytes_eq : Eq (List ℕ)
bytes_eq = record { equal = bytes_beq; equal_iff = bytes_beq_iff }

module _ {ℓ} {T : Type ℓ} ⦃c : Eq T⦄ where
  infix 50 ◌==◌
  abbrev pub ◌==◌ : T → T → Bool
  x == y = c.equal x y

  pub ==_iff : (x y : T) → ((x == y) ≡ true) ↔ (x ≡ y)
  ==_iff x y = c.equal_iff x y

  pub ==_refl : (x : T) → (x == x) ≡ true
  ==_refl x = (c.equal_iff x x).1 refl
