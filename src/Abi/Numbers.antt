-- ===== src/Abi/Numbers.antt =====
-- compat/v0/abi.go: the twelve types of numbers. Each holds a pointer to a big.Int, nil in its zero
-- value; what a pointer is compared by is the number that names it. The method table of a type
-- stands for its methods. Int64 gives the low 64 bits of an integer in two's complement, and
-- PaddedBigBytes of go-ethereum is a parameter.
pub mod RoundTrip
use lightnode.Common.{
  ℕ, zero, suc, ◌+◌, ◌-◌, ◌*◌, ◌/◌, ◌%◌, ◌^◌, ◌≤◌, ◌<◌, ◌≡◌, refl, ap, Bool, true, false, Option,
  none, some, List, [], ◌∷◌, ◌++◌, arith, ltb, length, if◌then◌else◌,
}
use lightnode.Common.Eq.{Eq, number_eq, bytes_eq, ◌==◌}
use lightnode.Common.Int.{ℤ, pos, negsuc, absolute, minus}
use lightnode.Common.Result.{Result, ok, err, ◌>>=◌}
use lightnode.Darknode.{Bytes}
use lightnode.Compat.V0.Codec.Blocks.{
  CodecError, little_endian, from_little_endian, read_full, read_some,
}
use lightnode.Abi.Decimal.{decimal, set_string, trim}
use lightnode.Abi.Types.{
  type_i8, type_i16, type_i32, type_i64, type_i128, type_i256, type_u8, type_u16, type_u32,
  type_u64, type_u128, type_u256,
}

pub data NumberType : Type 0 where
  i8 i16 i32 i64 i128 i256 u8 u16 u32 u64 u128 u256 : NumberType

pub data JsonError : Type 0 where
  invalid_big_integer expected_positive_integer : JsonError

-- Two pointers are equal where they are the same pointer.
abbrev pub same_pointer : Option ℕ → Option ℕ → Bool
same_pointer none none = true
same_pointer (some p) (some q) = p == q
same_pointer _ _ = false

pub record Number : Type 0 where
  pub kind : Bytes
  pub equal : Option ℕ → Bytes → Option ℕ → Bool
  pub marshal_json : Option ℤ → Bytes
  pub unmarshal_json : Bytes → Result JsonError ℤ
  pub marshal_binary : Option ℤ → Bytes
  pub unmarshal_binary : Bytes → Result CodecError ℤ

-- `Equal` compares the types and then the structs, which hold the pointers.
unfoldable pub equal_pointers : Bytes → Option ℕ → Bytes → Option ℕ → Bool
equal_pointers kind p other_kind q = if other_kind == kind then same_pointer p q else false

-- A nil pointer counts as zero.
abbrev pub int_of : Option ℤ → ℤ
int_of none = pos 0
int_of (some x) = x

unfoldable pub quoted : Option ℤ → Bytes
quoted x = 34 ∷ (decimal (int_of x) ++ (34 ∷ []))

abbrev pub read_by : Option ℤ → Result JsonError ℤ
read_by none = err invalid_big_integer
read_by (some x) = ok x

abbrev pub from_text : Bytes → Result JsonError ℤ
from_text [] = ok (pos 0)
from_text (c ∷ s) = read_by (set_string (c ∷ s))

unfoldable pub from_quoted : Bytes → Result JsonError ℤ
from_quoted data_bytes = from_text (trim 34 data_bytes)

abbrev pub positive : ℤ → Result JsonError ℤ
positive (pos n) = ok (pos n)
positive (negsuc n) = err expected_positive_integer

unfoldable pub from_quoted_positive : Bytes → Result JsonError ℤ
from_quoted_positive data_bytes = from_quoted data_bytes >>= positive

-- The word that Int64 leaves of an integer.
unfoldable pub int64 : ℤ → ℕ
int64 (pos n) = n % 2 ^ 64
int64 (negsuc n) = 2 ^ 64 - 1 - n % 2 ^ 64

-- So many low bytes of the word, and a word of so many bytes read as signed or as unsigned.
unfoldable pub marshal_word : ℕ → Option ℤ → Bytes
marshal_word k x = little_endian k (int64 (int_of x))

abbrev pub signed : ℕ → ℕ → ℤ
signed w n = if ltb n (2 ^ (w - 1)) then pos n else negsuc (2 ^ w - 1 - n)

unfoldable pub unmarshal_signed : ℕ → Bytes → Result CodecError ℤ
unmarshal_signed k b = read_full k b >>= λ r. ok (signed (8 * k) (from_little_endian r.0))

unfoldable pub unmarshal_unsigned : ℕ → Bytes → Result CodecError ℤ
unmarshal_unsigned k b = read_full k b >>= λ r. ok (pos (from_little_endian r.0))

-- SetBytes: the bytes of a number, the highest first, after a number already read.
unfoldable pub from_big_endian : ℕ → Bytes → ℕ
from_big_endian n [] = n
from_big_endian n (b ∷ bs) = from_big_endian (256 * n + b) bs

-- int8(Sign())
unfoldable pub sign_byte : ℤ → ℕ
sign_byte (pos zero) = 0
sign_byte (pos (suc n)) = 1
sign_byte (negsuc n) = 255

unfoldable pub with_sign : ℕ → ℕ → ℤ
with_sign sign n = if ltb sign 128 then pos n else minus n

abbrev first_byte : Bytes → ℕ
first_byte [] = 0
first_byte (b ∷ bs) = b

unfoldable pub unmarshal_wide : ℕ → Bytes → Result CodecError ℤ
unmarshal_wide n b = read_full 1 b >>= λ sign.
    read_some n sign.1 >>= λ r. ok (with_sign (first_byte sign.0) (from_big_endian 0 r.0))

unfoldable pub unmarshal_padded : ℕ → Bytes → Result CodecError ℤ
unmarshal_padded n b = read_some n b >>= λ r. ok (pos (from_big_endian 0 r.0))

module _ (padded_big_bytes : ℤ → ℕ → Bytes) where
  unfoldable pub marshal_wide : ℕ → Option ℤ → Bytes
  marshal_wide n x = sign_byte (int_of x) ∷ padded_big_bytes (int_of x) n

  unfoldable pub marshal_padded : ℕ → Option ℤ → Bytes
  marshal_padded n x = padded_big_bytes (int_of x) n

  unfoldable pub number_i8 : Number
  number_i8 = record {
    kind = type_i8;
    equal = equal_pointers type_i8;
    marshal_json = quoted;
    unmarshal_json = from_quoted;
    marshal_binary = marshal_word 1;
    unmarshal_binary = unmarshal_signed 1;
  }

  unfoldable pub number_i16 : Number
  number_i16 = record {
    kind = type_i16;
    equal = equal_pointers type_i16;
    marshal_json = quoted;
    unmarshal_json = from_quoted;
    marshal_binary = marshal_word 2;
    unmarshal_binary = unmarshal_signed 2;
  }

  unfoldable pub number_i32 : Number
  number_i32 = record {
    kind = type_i32;
    equal = equal_pointers type_i32;
    marshal_json = quoted;
    unmarshal_json = from_quoted;
    marshal_binary = marshal_word 4;
    unmarshal_binary = unmarshal_signed 4;
  }

  unfoldable pub number_i64 : Number
  number_i64 = record {
    kind = type_i64;
    equal = equal_pointers type_i64;
    marshal_json = quoted;
    unmarshal_json = from_quoted;
    marshal_binary = marshal_word 8;
    unmarshal_binary = unmarshal_signed 8;
  }

  unfoldable pub number_i128 : Number
  number_i128 = record {
    kind = type_i128;
    equal = equal_pointers type_i128;
    marshal_json = quoted;
    unmarshal_json = from_quoted;
    marshal_binary = marshal_wide 16;
    unmarshal_binary = unmarshal_wide 16;
  }

  unfoldable pub number_i256 : Number
  number_i256 = record {
    kind = type_i256;
    equal = equal_pointers type_i256;
    marshal_json = quoted;
    unmarshal_json = from_quoted;
    marshal_binary = marshal_wide 32;
    unmarshal_binary = unmarshal_wide 32;
  }

  unfoldable pub number_u8 : Number
  number_u8 = record {
    kind = type_u8;
    equal = equal_pointers type_u8;
    marshal_json = quoted;
    unmarshal_json = from_quoted_positive;
    marshal_binary = marshal_word 1;
    unmarshal_binary = unmarshal_unsigned 1;
  }

  unfoldable pub number_u16 : Number
  number_u16 = record {
    kind = type_u16;
    equal = equal_pointers type_u16;
    marshal_json = quoted;
    unmarshal_json = from_quoted_positive;
    marshal_binary = marshal_word 2;
    unmarshal_binary = unmarshal_unsigned 2;
  }

  unfoldable pub number_u32 : Number
  number_u32 = record {
    kind = type_u32;
    equal = equal_pointers type_u32;
    marshal_json = quoted;
    unmarshal_json = from_quoted_positive;
    marshal_binary = marshal_word 4;
    unmarshal_binary = unmarshal_unsigned 4;
  }

  unfoldable pub number_u64 : Number
  number_u64 = record {
    kind = type_u64;
    equal = equal_pointers type_u64;
    marshal_json = quoted;
    unmarshal_json = from_quoted_positive;
    marshal_binary = marshal_word 8;
    unmarshal_binary = unmarshal_unsigned 8;
  }

  unfoldable pub number_u128 : Number
  number_u128 = record {
    kind = type_u128;
    equal = equal_pointers type_u128;
    marshal_json = quoted;
    unmarshal_json = from_quoted_positive;
    marshal_binary = marshal_padded 16;
    unmarshal_binary = unmarshal_padded 16;
  }

  unfoldable pub number_u256 : Number
  number_u256 = record {
    kind = type_u256;
    equal = equal_pointers type_u256;
    marshal_json = quoted;
    unmarshal_json = from_quoted_positive;
    marshal_binary = marshal_padded 32;
    unmarshal_binary = unmarshal_padded 32;
  }

  -- The method table that a type of numbers selects.
  abbrev pub methods : NumberType → Number
  methods i8 = number_i8
  methods i16 = number_i16
  methods i32 = number_i32
  methods i64 = number_i64
  methods i128 = number_i128
  methods i256 = number_i256
  methods u8 = number_u8
  methods u16 = number_u16
  methods u32 = number_u32
  methods u64 = number_u64
  methods u128 = number_u128
  methods u256 = number_u256
