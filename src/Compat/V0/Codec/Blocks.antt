-- ===== src/Compat/V0/Codec/Blocks.antt =====
-- compat/v0/tx.go: lengths as little-endian 64-bit words, byte slices behind their length, and lists
-- behind their count. `encoding/binary` reads a word completely or fails; `Read` of a bytes.Buffer
-- fails only where the buffer is empty, and otherwise leaves the bytes that it has not got zero.
use lightnode.Common.{
  ℕ, zero, suc, ◌+◌, ◌-◌, ◌*◌, ◌/◌, ◌%◌, ◌^◌, ◌≤◌, ◌<◌, ◌≡◌, false, refl, ap, subst, List, [], ◌∷◌,
  ◌++◌, arith, ltb, leb, length, take, drop, length-append, All, if◌then◌else◌,
}
use lightnode.Common.Result.{Result, ok, err, ◌>>=◌}
use lightnode.Darknode.{Bytes}

pub data CodecError : Type 0 where
  cannot_read too_many too_many_bytes cannot_unmarshal : CodecError

-- The low bytes of a number, the lowest first.
unfoldable pub little_endian : ℕ → ℕ → Bytes
little_endian zero n = []
little_endian (suc k) n = n % 256 ∷ little_endian k (n / 256)

unfoldable pub from_little_endian : Bytes → ℕ
from_little_endian [] = 0
from_little_endian (b ∷ bs) = b + 256 * from_little_endian bs

abbrev pub zero_bytes : ℕ → Bytes
zero_bytes zero = []
zero_bytes (suc n) = 0 ∷ zero_bytes n

-- binary.Read of a value of fixed size, as bytes.
unfoldable pub read_full : ℕ → Bytes → Result CodecError (Bytes × Bytes)
read_full n buf = if leb n (length buf) then ok (take n buf, drop n buf) else err cannot_read

-- binary.Read of a uint64.
unfoldable pub read_u64 : Bytes → Result CodecError (ℕ × Bytes)
read_u64 buf = read_full 8 buf >>= λ r. ok (from_little_endian r.0, r.1)

-- buf.Read into a new slice.
unfoldable pub read_some : ℕ → Bytes → Result CodecError (Bytes × Bytes)
read_some zero buf = ok ([], buf)
read_some (suc n) [] = err cannot_read
read_some (suc n) (b ∷ buf) =
    ok (take (suc n) (b ∷ buf) ++ zero_bytes (suc n - length (b ∷ buf)), drop (suc n) (b ∷ buf))

-- The length of a slice and the slice, at most a number of bytes.
unfoldable pub write_block : Bytes → Bytes
write_block b = little_endian 8 (length b) ++ b

unfoldable pub read_block : ℕ → Bytes → Result CodecError (Bytes × Bytes)
read_block most buf =
    read_u64 buf >>= λ r. if ltb most r.0 then err too_many_bytes else read_some r.0 r.1

module _ {ℓ} {A : Type ℓ} where
  -- The loop that writes the elements of a list.
  unfoldable pub write_each : (A → Bytes) → List A → Bytes
  write_each marshal [] = []
  write_each marshal (x ∷ xs) = write_block (marshal x) ++ write_each marshal xs

  unfoldable pub write_list : (A → Bytes) → List A → Bytes
  write_list marshal xs = little_endian 8 (length xs) ++ write_each marshal xs

  -- The loop that reads so many elements.
  unfoldable pub read_each :
      ℕ → (Bytes → Result CodecError A) → ℕ → Bytes → Result CodecError (List A × Bytes)
  read_each most unmarshal zero buf = ok ([], buf)
  read_each most unmarshal (suc n) buf = read_block most buf >>= λ r.
      unmarshal r.0 >>= λ x. read_each most unmarshal n r.1 >>= λ s. ok (x ∷ s.0, s.1)

  unfoldable pub read_list :
      ℕ → ℕ → (Bytes → Result CodecError A) → Bytes → Result CodecError (List A × Bytes)
  read_list many most unmarshal buf =
      read_u64 buf >>= λ r. if ltb many r.0 then err too_many else read_each most unmarshal r.0 r.1

abbrev pow256 : ℕ → ℕ
pow256 zero = 1
pow256 (suc k) = 256 * pow256 k

from-little_endian : (k n : ℕ) → n < pow256 k → from_little_endian (little_endian k n) ≡ n
unfolding from_little_endian little_endian
from-little_endian zero n h = omega (arith, h)
from-little_endian (suc k) n h = omega (arith, h, from-little_endian k (n / 256) (omega (arith, h)))

length-little_endian : (k n : ℕ) → length (little_endian k n) ≡ k
unfolding little_endian
length-little_endian zero n = refl
length-little_endian (suc k) n = ap suc (length-little_endian k (n / 256))

take-append : (a b : Bytes) → take (length a) (a ++ b) ≡ a
take-append [] b = refl
take-append (x ∷ a) b = ap (λ t. x ∷ t) (take-append a b)

drop-append : (a b : Bytes) → drop (length a) (a ++ b) ≡ b
drop-append [] b = refl
drop-append (x ∷ a) b = drop-append a b

pub read_full-append : (a b : Bytes) → read_full (length a) (a ++ b) ≡ ok (a, b)
unfolding read_full
read_full-append a b = ground (arith, take-append a b, drop-append a b, length-append a b)

read_full-word :
    (n : ℕ) (rest : Bytes) → read_full 8 (little_endian 8 n ++ rest) ≡ ok (little_endian 8 n, rest)
read_full-word n rest =
    subst (λ k. read_full k (little_endian 8 n ++ rest) ≡ ok (little_endian 8 n, rest))
      (length-little_endian 8 n) (read_full-append (little_endian 8 n) rest)

pub append_assoc : (a b c : Bytes) → (a ++ b) ++ c ≡ a ++ (b ++ c)
append_assoc [] b c = refl
append_assoc (x ∷ a) b c = ap (λ t. x ∷ t) (append_assoc a b c)

pub append_none : (a : Bytes) → a ++ [] ≡ a
append_none [] = refl
append_none (x ∷ a) = ap (λ t. x ∷ t) (append_none a)

no_padding : (a b : Bytes) → suc (length a) - suc (length (a ++ b)) ≡ 0
no_padding a b = omega (arith, length-append a b)

pub read_u64-little_endian :
    (n : ℕ) (rest : Bytes) → n < 2 ^ 64 → read_u64 (little_endian 8 n ++ rest) ≡ ok (n, rest)
unfolding read_u64
read_u64-little_endian n rest h =
    rw (read_full-word n rest) (ap (λ m. ok (m, rest)) (from-little_endian 8 n (omega (arith, h))))

pub read_some-append : (a b : Bytes) → read_some (length a) (a ++ b) ≡ ok (a, b)
unfolding read_some
read_some-append [] b = refl
read_some-append (x ∷ a) b =
    rw (no_padding a b, take-append a b, drop-append a b, append_none a) refl

pub within : (most n : ℕ) → n ≤ most → ltb most n ≡ false
within most n h = ground (arith, h)

-- A block that fits the bound is read back, and the rest of the buffer is left.
pub read-write_block :
    (most : ℕ) (b rest : Bytes)
    → length b ≤ most
    → most < 2 ^ 64
    → read_block most (write_block b ++ rest) ≡ ok (b, rest)
unfolding read_block write_block
read-write_block most b rest h fits =
    rw
      (
        append_assoc (little_endian 8 (length b)) b rest,
        read_u64-little_endian (length b) (b ++ rest) (omega (arith, h, fits)),
        within most (length b) h,
      )
      (read_some-append b rest)

pub read_last-write_block :
    (most : ℕ) (b : Bytes)
    → length b ≤ most
    → most < 2 ^ 64
    → read_block most (write_block b) ≡ ok (b, [])
read_last-write_block most b h fits =
    subst (λ buf. read_block most buf ≡ ok (b, [])) (append_none (write_block b))
      (read-write_block most b [] h fits)

module _ {A : Type 0} (marshal : A → Bytes) (unmarshal : Bytes → Result CodecError A) where
  -- An element that fits the bound and is read back from its own bytes.
  abbrev pub IsReadBack : ℕ → A → Type 0
  IsReadBack most x = (length (marshal x) ≤ most) × (unmarshal (marshal x) ≡ ok x)

  read-write_each :
      (most : ℕ) (xs : List A) (rest : Bytes)
      → most < 2 ^ 64
      → All (IsReadBack most) xs
      → read_each most unmarshal (length xs) (write_each marshal xs ++ rest) ≡ ok (xs, rest)
  unfolding read_each write_each
  read-write_each most [] rest fits a = refl
  read-write_each most (x ∷ xs) rest fits a =
      rw
        (
          append_assoc (write_block (marshal x)) (write_each marshal xs) rest,
          read-write_block most (marshal x) (write_each marshal xs ++ rest) a.0.0 fits,
          a.0.1,
          read-write_each most xs rest fits a.1,
        )
        refl

  -- A list within its bounds whose elements are read back is read back, and the rest of the buffer
  -- is left.
  pub read-write_list :
      (many most : ℕ) (xs : List A) (rest : Bytes)
      → length xs ≤ many
      → many < 2 ^ 64
      → most < 2 ^ 64
      → All (IsReadBack most) xs
      → read_list many most unmarshal (write_list marshal xs ++ rest) ≡ ok (xs, rest)
  unfolding read_list write_list
  read-write_list many most xs rest count counts fits a =
      rw
        (
          append_assoc (little_endian 8 (length xs)) (write_each marshal xs) rest,
          read_u64-little_endian (length xs) (write_each marshal xs ++ rest)
              (omega (arith, count, counts)),
          within many (length xs) count,
        )
        (read-write_each most xs rest fits a)

  pub read_last-write_list :
      (many most : ℕ) (xs : List A)
      → length xs ≤ many
      → many < 2 ^ 64
      → most < 2 ^ 64
      → All (IsReadBack most) xs
      → read_list many most unmarshal (write_list marshal xs) ≡ ok (xs, [])
  read_last-write_list many most xs count counts fits a =
      subst (λ buf. read_list many most unmarshal buf ≡ ok (xs, []))
        (append_none (write_list marshal xs)) (read-write_list many most xs [] count counts fits a)
