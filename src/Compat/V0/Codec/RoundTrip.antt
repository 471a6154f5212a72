-- ===== src/Compat/V0/Codec/RoundTrip.antt =====
-- The transactions of version 0 that their binary encoding gives back, and what a truncated encoding
-- decodes to.
use lightnode.Common.{
  ℕ, zero, suc, take, drop, ◌-◌, ◌*◌, ◌^◌, ◌≤◌, ◌<◌, ◌≡◌, refl, ap, subst, List, [], ◌∷◌, ◌++◌,
  arith, length, All, if◌then◌else◌,
}
use lightnode.Common.Eq.{bytes_eq, ◌==◌, ==_iff}
use lightnode.Common.Result.{ok, ◌>>=◌}
use lightnode.Darknode.{Bytes}
use lightnode.Compat.V0.Codec.Blocks.{
  little_endian, zero_bytes, read_full, read_some, write_block, read_block, within,
  read_full-append, read_u64-little_endian, read-write_block, IsReadBack, read-write_list,
  read_last-write_block, read_last-write_list,
}
use lightnode.Compat.V0.Codec.Args.{
  Values, Arg, Tx, get, set, marshal_arg, unmarshal_arg, marshal_tx, unmarshal_tx, marshal_txs,
  unmarshal_txs, marshal_status, unmarshal_status, marshal_statuses, unmarshal_statuses,
}

take_short : (n : ℕ) (b : Bytes) → length b ≤ n → take n b ≡ b
take_short zero [] h = refl
take_short zero (x ∷ b) h = absurd (ground (arith, h))
take_short (suc n) [] h = refl
take_short (suc n) (x ∷ b) h = ap (λ t. x ∷ t) (take_short n b (omega (arith, h)))

drop_short : (n : ℕ) (b : Bytes) → length b ≤ n → drop n b ≡ []
drop_short zero [] h = refl
drop_short zero (x ∷ b) h = absurd (ground (arith, h))
drop_short (suc n) [] h = refl
drop_short (suc n) (x ∷ b) h = drop_short n b (omega (arith, h))

read_some-short :
    (n : ℕ) (byte : ℕ) (b : Bytes)
    → length (byte ∷ b) ≤ n
    → read_some n (byte ∷ b) ≡ ok ((byte ∷ b) ++ zero_bytes (n - length (byte ∷ b)), [])
unfolding read_some
read_some-short zero byte b h = absurd (ground (arith, h))
read_some-short (suc n) byte b h =
    rw (take_short n b (omega (arith, h)), drop_short n b (omega (arith, h))) refl

-- The length of a block is trusted only as far as the buffer is empty: what is missing of it is read
-- as zero bytes.
pub read_block-truncated :
    (most n : ℕ) (byte : ℕ) (b : Bytes)
    → length (byte ∷ b) ≤ n
    → n ≤ most
    → most < 2 ^ 64
    → read_block most (little_endian 8 n ++ (byte ∷ b))
      ≡ ok ((byte ∷ b) ++ zero_bytes (n - length (byte ∷ b)), [])
unfolding read_block
read_block-truncated most n byte b short bound fits =
    rw (read_u64-little_endian n (byte ∷ b) (omega (arith, bound, fits)), within most n bound)
      (read_some-short n byte b short)

module _ (values : Values) where
  -- An argument within the bounds of the decoder, whose value is read back under its type.
  pub record IsStorable (arg : Arg values) : Type 0 where
    pub name_size : length arg.name ≤ 1024
    pub kind_size : length arg.kind ≤ 1024
    pub value_size : length (values.marshal_value arg.value) ≤ 1024 * 1024
    pub value_back : values.unmarshal_value arg.kind (values.marshal_value arg.value) ≡ ok arg.value

  unmarshal-marshal_arg :
      (arg : Arg values) → IsStorable arg → unmarshal_arg values (marshal_arg values arg) ≡ ok arg
  unfolding unmarshal_arg marshal_arg
  unmarshal-marshal_arg arg s =
      rw
        (
          read-write_block 1024 arg.name
              (write_block arg.kind ++ write_block (values.marshal_value arg.value)) s.name_size
              (omega arith),
          read-write_block 1024 arg.kind (write_block (values.marshal_value arg.value)) s.kind_size
              (omega arith),
          read_last-write_block (1024 * 1024) (values.marshal_value arg.value) s.value_size
              (omega arith),
          s.value_back,
        )
        refl

  -- An argument that fits a place of the transaction.
  abbrev pub Fits : ℕ → Arg values → Type 0
  Fits most arg = IsStorable arg × (length (marshal_arg values arg) ≤ most)

  pub record IsEncodable (tx : Tx values) : Type 0 where
    pub hash_size : length tx.hash ≡ 32
    pub to_size : length tx.to ≤ 1024
    pub in_count : length tx.ins ≤ 64
    pub in_fits : All (Fits (10 * 1024)) tx.ins
    pub autogen_count : length tx.autogen ≤ 64
    pub autogen_fits : All (Fits (10 * 1024)) tx.autogen
    pub out_count : length tx.outs ≤ 16
    pub out_fits : All (Fits 1024) tx.outs

  args-IsReadBack :
      (most : ℕ) (args : List (Arg values))
      → All (Fits most) args
      → All (IsReadBack (marshal_arg values) (unmarshal_arg values) most) args
  args-IsReadBack most [] a = tt
  args-IsReadBack most (arg ∷ args) a =
      ((a.0.1, unmarshal-marshal_arg arg a.0.0), args-IsReadBack most args a.1)

  hash_read :
      (tx : Tx values) (rest : Bytes)
      → IsEncodable tx
      → read_full 32 (tx.hash ++ rest) ≡ ok (tx.hash, rest)
  hash_read tx rest e =
      subst (λ k. read_full k (tx.hash ++ rest) ≡ ok (tx.hash, rest)) e.hash_size
        (read_full-append tx.hash rest)

  -- A transaction within the bounds of the decoder is read back from its encoding.
  pub unmarshal-marshal_tx :
      (tx : Tx values) → IsEncodable tx → unmarshal_tx values (marshal_tx values tx) ≡ ok tx
  unfolding unmarshal_tx marshal_tx
  unmarshal-marshal_tx tx e =
      rw
        (
          hash_read tx _ e,
          read-write_block 1024 tx.to _ e.to_size (omega arith),
          read-write_list (marshal_arg values) (unmarshal_arg values) 64 (10 * 1024) tx.ins _
              e.in_count (omega arith) (omega arith) (args-IsReadBack (10 * 1024) tx.ins e.in_fits),
          read-write_list (marshal_arg values) (unmarshal_arg values) 64 (10 * 1024) tx.autogen _
              e.autogen_count (omega arith) (omega arith)
              (args-IsReadBack (10 * 1024) tx.autogen e.autogen_fits),
          read_last-write_list (marshal_arg values) (unmarshal_arg values) 16 1024 tx.outs
              e.out_count (omega arith) (omega arith) (args-IsReadBack 1024 tx.outs e.out_fits),
        )
        refl

  txs-IsReadBack :
      (txs : List (Tx values))
      → All (λ tx. IsEncodable tx × (length (marshal_tx values tx) ≤ 10 * 1024)) txs
      → All (IsReadBack (marshal_tx values) (unmarshal_tx values) (10 * 1024)) txs
  txs-IsReadBack [] a = tt
  txs-IsReadBack (tx ∷ txs) a = ((a.0.1, unmarshal-marshal_tx tx a.0.0), txs-IsReadBack txs a.1)

  -- At most 8192 such transactions of at most 10 KB each are read back from their encoding.
  pub unmarshal-marshal_txs :
      (txs : List (Tx values))
      → length txs ≤ 8192
      → All (λ tx. IsEncodable tx × (length (marshal_tx values tx) ≤ 10 * 1024)) txs
      → unmarshal_txs values (marshal_txs values txs) ≡ ok txs
  unfolding unmarshal_txs marshal_txs
  unmarshal-marshal_txs txs count a =
      ap (λ r. r >>= λ s. ok s.0)
        (read_last-write_list (marshal_tx values) (unmarshal_tx values) 8192 (10 * 1024) txs count
          (omega arith) (omega arith) (txs-IsReadBack txs a))

  -- An argument that was set is the one found under its name, and no other name changes.
  pub get-set :
      (arg : Arg values) (name : Bytes) (args : List (Arg values))
      → get values name (set values arg args)
        ≡ (if arg.name == name then arg else get values name args)
  unfolding get set
  get-set arg name [] = refl
  get-set arg name (a ∷ args) = ground (
    arith,
    get-set arg name args,
    ==_iff a.name arg.name,
    ==_iff a.name name,
    ==_iff arg.name name,
  )

statuses-IsReadBack :
    (statuses : List ℕ) → All (IsReadBack marshal_status unmarshal_status 1024) statuses
unfolding marshal_status unmarshal_status read_full
statuses-IsReadBack [] = tt
statuses-IsReadBack (s ∷ statuses) = ((omega arith, refl), statuses-IsReadBack statuses)

-- At most 8192 statuses are read back from their encoding.
pub unmarshal-marshal_statuses :
    (statuses : List ℕ)
    → length statuses ≤ 8192
    → unmarshal_statuses (marshal_statuses statuses) ≡ ok statuses
unfolding unmarshal_statuses marshal_statuses
unmarshal-marshal_statuses statuses count =
    ap (λ r. r >>= λ s. ok s.0)
      (read_last-write_list marshal_status unmarshal_status 8192 1024 statuses count (omega arith)
        (omega arith) (statuses-IsReadBack statuses))
