-- ===== src/Abi/Numbers/RoundTrip.antt =====
-- What the binary and the JSON form of a number of compat/v0/abi.go are decoded to.
use lightnode.Common.{
  ℕ, zero, suc, ◌*◌, ◌^◌, ◌<◌, ◌≡◌, refl, ap, sym, subst, Option, none, some, [], ◌∷◌, arith,
  length,
}
use lightnode.Common.Int.{ℤ, pos, negsuc, absolute}
use lightnode.Common.Result.{ok}
use lightnode.Darknode.{Bytes}
use lightnode.Compat.V0.Codec.Blocks.{
  little_endian, from_little_endian, read_full, read_some, read_some-append, append_none,
}
use lightnode.Abi.Decimal.{decimal, set_string, set_string-decimal, trim-decimal}
use lightnode.Abi.Numbers.{
  from_text, NumberType, int_of, quoted, from_quoted, from_quoted_positive, int64, marshal_word,
  unmarshal_signed, unmarshal_unsigned, from_big_endian, sign_byte, with_sign, unmarshal_wide,
  unmarshal_padded, marshal_wide, marshal_padded, number_i8, number_i16, number_i32, number_i64,
  number_i128, number_i256, number_u8, number_u16, number_u32, number_u64, number_u128, number_u256,
  methods, i8, i16, i32, i64, i128, i256, u8, u16, u32, u64, u128, u256,
}

-- What go-ethereum's documentation says of PaddedBigBytes, for integers that fit: so many bytes,
-- the highest first, of the absolute value.
pub record IsPadding (padded_big_bytes : ℤ → ℕ → Bytes) : Type 0 where
  pub padded_length : (x : ℤ) (n : ℕ) → absolute x < 2 ^ (8 * n) → length (padded_big_bytes x n) ≡ n
  pub padded_value :
      (x : ℤ) (n : ℕ)
      → absolute x < 2 ^ (8 * n)
      → from_big_endian 0 (padded_big_bytes x n) ≡ absolute x

-- The integers of a type: the bounds of two's complement, of a magnitude and of unsigned numbers.
abbrev Signed : ℕ → ℤ → Type 0
Signed bound (pos n) = n < bound
Signed bound (negsuc n) = n < bound

abbrev Unsigned : ℕ → ℤ → Type 0
Unsigned bound (pos n) = n < bound
Unsigned bound (negsuc n) = ⊥

unfoldable pub InRange : NumberType → ℤ → Type 0
InRange i8 x = Signed (2 ^ 7) x
InRange i16 x = Signed (2 ^ 15) x
InRange i32 x = Signed (2 ^ 31) x
InRange i64 x = Signed (2 ^ 63) x
InRange i128 x = absolute x < 2 ^ 128
InRange i256 x = absolute x < 2 ^ 256
InRange u8 x = Unsigned (2 ^ 8) x
InRange u16 x = Unsigned (2 ^ 16) x
InRange u32 x = Unsigned (2 ^ 32) x
InRange u64 x = Unsigned (2 ^ 64) x
InRange u128 x = Unsigned (2 ^ 128) x
InRange u256 x = Unsigned (2 ^ 256) x

-- The integers whose text the decoder of a type takes.
unfoldable pub IsReadable : NumberType → ℤ → Type 0
IsReadable i8 x = Unit
IsReadable i16 x = Unit
IsReadable i32 x = Unit
IsReadable i64 x = Unit
IsReadable i128 x = Unit
IsReadable i256 x = Unit
IsReadable u8 x = x ≡ pos (absolute x)
IsReadable u16 x = x ≡ pos (absolute x)
IsReadable u32 x = x ≡ pos (absolute x)
IsReadable u64 x = x ≡ pos (absolute x)
IsReadable u128 x = x ≡ pos (absolute x)
IsReadable u256 x = x ≡ pos (absolute x)

word-i8 : (x : ℤ) → InRange i8 x → unmarshal_signed 1 (marshal_word 1 (some x)) ≡ ok x
unfolding InRange unmarshal_signed marshal_word read_full little_endian from_little_endian int64
word-i8 (pos n) h = ground (arith, h)
word-i8 (negsuc n) h = ground (arith, h)

word-i16 : (x : ℤ) → InRange i16 x → unmarshal_signed 2 (marshal_word 2 (some x)) ≡ ok x
unfolding InRange unmarshal_signed marshal_word read_full little_endian from_little_endian int64
word-i16 (pos n) h = ground (arith, h)
word-i16 (negsuc n) h = ground (arith, h)

word-i32 : (x : ℤ) → InRange i32 x → unmarshal_signed 4 (marshal_word 4 (some x)) ≡ ok x
unfolding InRange unmarshal_signed marshal_word read_full little_endian from_little_endian int64
word-i32 (pos n) h = ground (arith, h)
word-i32 (negsuc n) h = ground (arith, h)

word-i64 : (x : ℤ) → InRange i64 x → unmarshal_signed 8 (marshal_word 8 (some x)) ≡ ok x
unfolding InRange unmarshal_signed marshal_word read_full little_endian from_little_endian int64
word-i64 (pos n) h = ground (arith, h)
word-i64 (negsuc n) h = ground (arith, h)

word-u8 : (x : ℤ) → InRange u8 x → unmarshal_unsigned 1 (marshal_word 1 (some x)) ≡ ok x
unfolding InRange unmarshal_unsigned marshal_word read_full little_endian from_little_endian int64
word-u8 (pos n) h = ground (arith, h)
word-u8 (negsuc n) h = absurd h

word-u16 : (x : ℤ) → InRange u16 x → unmarshal_unsigned 2 (marshal_word 2 (some x)) ≡ ok x
unfolding InRange unmarshal_unsigned marshal_word read_full little_endian from_little_endian int64
word-u16 (pos n) h = ground (arith, h)
word-u16 (negsuc n) h = absurd h

word-u32 : (x : ℤ) → InRange u32 x → unmarshal_unsigned 4 (marshal_word 4 (some x)) ≡ ok x
unfolding InRange unmarshal_unsigned marshal_word read_full little_endian from_little_endian int64
word-u32 (pos n) h = ground (arith, h)
word-u32 (negsuc n) h = absurd h

word-u64 : (x : ℤ) → InRange u64 x → unmarshal_unsigned 8 (marshal_word 8 (some x)) ≡ ok x
unfolding InRange unmarshal_unsigned marshal_word read_full little_endian from_little_endian int64
word-u64 (pos n) h = ground (arith, h)
word-u64 (negsuc n) h = absurd h

read_byte : (b : ℕ) (rest : Bytes) → read_full 1 (b ∷ rest) ≡ ok (b ∷ [], rest)
unfolding read_full
read_byte b rest = ground arith

with_sign-sign_byte : (x : ℤ) → with_sign (sign_byte x) (absolute x) ≡ x
unfolding with_sign sign_byte
with_sign-sign_byte (pos zero) = refl
with_sign-sign_byte (pos (suc n)) = refl
with_sign-sign_byte (negsuc n) = refl

module _ (padded_big_bytes : ℤ → ℕ → Bytes) (padding : IsPadding padded_big_bytes) where
  read_some-padded :
      (x : ℤ) (n : ℕ)
      → absolute x < 2 ^ (8 * n)
      → read_some n (padded_big_bytes x n) ≡ ok (padded_big_bytes x n, [])
  read_some-padded x n h =
      subst (λ k. read_some k (padded_big_bytes x n) ≡ ok (padded_big_bytes x n, []))
        (padding.padded_length x n h)
        (subst (λ b. read_some (length (padded_big_bytes x n)) b ≡ ok (padded_big_bytes x n, []))
          (append_none (padded_big_bytes x n)) (read_some-append (padded_big_bytes x n) []))

  padded-wide :
      (x : ℤ) (n : ℕ)
      → absolute x < 2 ^ (8 * n)
      → unmarshal_wide n (marshal_wide padded_big_bytes n (some x)) ≡ ok x
  unfolding unmarshal_wide marshal_wide
  padded-wide x n h =
      rw
        (
          read_byte (sign_byte x) (padded_big_bytes x n),
          read_some-padded x n h,
          padding.padded_value x n h,
        )
        (ap ok (with_sign-sign_byte x))

  padded-unsigned :
      (m n : ℕ)
      → m < 2 ^ (8 * n)
      → unmarshal_padded n (marshal_padded padded_big_bytes n (some (pos m))) ≡ ok (pos m)
  unfolding unmarshal_padded marshal_padded
  padded-unsigned m n h = rw (read_some-padded (pos m) n h, padding.padded_value (pos m) n h) refl

  abbrev IsDecoded : NumberType → Option ℤ → ℤ → Type 0
  IsDecoded t x y =
      let number = methods padded_big_bytes t in
      number.unmarshal_binary (number.marshal_binary x) ≡ ok y

  unmarshal-marshal_int : (t : NumberType) (x : ℤ) → InRange t x → IsDecoded t (some x) x
  unfolding InRange number_i8 number_i16 number_i32 number_i64 number_i128 number_i256 number_u8
      number_u16 number_u32 number_u64 number_u128 number_u256
  unmarshal-marshal_int i8 x h = word-i8 x h
  unmarshal-marshal_int i16 x h = word-i16 x h
  unmarshal-marshal_int i32 x h = word-i32 x h
  unmarshal-marshal_int i64 x h = word-i64 x h
  unmarshal-marshal_int i128 x h = padded-wide x 16 h
  unmarshal-marshal_int i256 x h = padded-wide x 32 h
  unmarshal-marshal_int u8 x h = word-u8 x h
  unmarshal-marshal_int u16 x h = word-u16 x h
  unmarshal-marshal_int u32 x h = word-u32 x h
  unmarshal-marshal_int u64 x h = word-u64 x h
  unmarshal-marshal_int u128 (pos n) h = padded-unsigned n 16 h
  unmarshal-marshal_int u128 (negsuc n) h = absurd h
  unmarshal-marshal_int u256 (pos n) h = padded-unsigned n 32 h
  unmarshal-marshal_int u256 (negsuc n) h = absurd h

  marshal-none :
      (t : NumberType)
      → (methods padded_big_bytes t).marshal_binary none
        ≡ (methods padded_big_bytes t).marshal_binary (some (pos 0))
  unfolding number_i8 number_i16 number_i32 number_i64 number_i128 number_i256 number_u8 number_u16
      number_u32 number_u64 number_u128 number_u256 marshal_word marshal_wide marshal_padded
  marshal-none i8 = refl
  marshal-none i16 = refl
  marshal-none i32 = refl
  marshal-none i64 = refl
  marshal-none i128 = refl
  marshal-none i256 = refl
  marshal-none u8 = refl
  marshal-none u16 = refl
  marshal-none u32 = refl
  marshal-none u64 = refl
  marshal-none u128 = refl
  marshal-none u256 = refl

  -- A number in the range of its type is decoded from its own bytes, a nil pointer as zero.
  pub unmarshal-marshal_number :
      (t : NumberType) (x : Option ℤ)
      → InRange t (int_of x)
      → (methods padded_big_bytes t).unmarshal_binary
          ((methods padded_big_bytes t).marshal_binary x)
        ≡ ok (int_of x)
  unmarshal-marshal_number t (some x) h = unmarshal-marshal_int t x h
  unmarshal-marshal_number t none h =
      subst (λ b. (methods padded_big_bytes t).unmarshal_binary b ≡ ok (pos 0))
        (sym (marshal-none t)) (unmarshal-marshal_int t (pos 0) h)

read_text : (x : ℤ) (text : Bytes) → set_string text ≡ some x → from_text text ≡ ok x
unfolding set_string
read_text x [] h = ground (arith, h)
read_text x (c ∷ s) h = rw h refl

from_quoted-quoted : (x : Option ℤ) → from_quoted (quoted x) ≡ ok (int_of x)
unfolding from_quoted quoted
from_quoted-quoted x =
    rw (trim-decimal (int_of x))
      (read_text (int_of x) (decimal (int_of x)) (set_string-decimal (int_of x)))

positive_read :
    (x : Option ℤ)
    → int_of x ≡ pos (absolute (int_of x))
    → from_quoted_positive (quoted x) ≡ ok (int_of x)
unfolding from_quoted_positive
positive_read x h = rw (from_quoted-quoted x, h) refl

module _ (padded_big_bytes : ℤ → ℕ → Bytes) where
  -- A number is decoded from its own JSON form, at any size, a nil pointer as zero.
  pub unmarshal-marshal_json :
      (t : NumberType) (x : Option ℤ)
      → IsReadable t (int_of x)
      → (methods padded_big_bytes t).unmarshal_json ((methods padded_big_bytes t).marshal_json x)
        ≡ ok (int_of x)
  unfolding IsReadable number_i8 number_i16 number_i32 number_i64 number_i128 number_i256 number_u8
      number_u16 number_u32 number_u64 number_u128 number_u256
  unmarshal-marshal_json i8 x h = from_quoted-quoted x
  unmarshal-marshal_json i16 x h = from_quoted-quoted x
  unmarshal-marshal_json i32 x h = from_quoted-quoted x
  unmarshal-marshal_json i64 x h = from_quoted-quoted x
  unmarshal-marshal_json i128 x h = from_quoted-quoted x
  unmarshal-marshal_json i256 x h = from_quoted-quoted x
  unmarshal-marshal_json u8 x h = positive_read x h
  unmarshal-marshal_json u16 x h = positive_read x h
  unmarshal-marshal_json u32 x h = positive_read x h
  unmarshal-marshal_json u64 x h = positive_read x h
  unmarshal-marshal_json u128 x h = positive_read x h
  unmarshal-marshal_json u256 x h = positive_read x h
