-- ===== src/Common/Int.antt =====
-- Integers over the native numbers, under the names of the library's ℤ.
use Prim.Native.Nat.{ℕ, zero, suc, ◌%◌, ◌^◌}

-- `negsuc n` is -(n + 1).
pub data ℤ : Type 0 where
  pos negsuc : ℕ → ℤ

abbrev pub absolute : ℤ → ℕ
absolute (pos n) = n
absolute (negsuc n) = suc n

abbrev pub minus : ℕ → ℤ
minus zero = pos 0
minus (suc n) = negsuc n

-- big.Int.Uint64: the low 64 bits of the absolute value.
abbrev pub uint64_of : ℤ → ℕ
uint64_of n = absolute n % 2 ^ 64
