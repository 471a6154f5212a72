-- ===== src/Compat/V0/Codec/Args.antt =====
-- compat/v0/tx.go: arguments, transactions and statuses with their binary encoding. Go strings are
-- the lists of their bytes.
use lightnode.Common.{ℕ, ◌*◌, List, [], ◌∷◌, ◌++◌, if◌then◌else◌}
use lightnode.Common.Eq.{bytes_eq, ◌==◌}
use lightnode.Common.Result.{Result, ok, err, ◌>>=◌}
use lightnode.Darknode.{Bytes}
use lightnode.Compat.V0.Codec.Blocks.{
  CodecError, cannot_read, read_full, write_block, read_block, write_list, read_list,
}

-- The values of the ABI: the encoding of a value does not name its type, and the decoder takes the
-- type of the argument. `nil` is the nil interface.
pub record Values : Type 1 where
  pub Value : Type 0
  pub nil : Value
  pub marshal_value : Value → Bytes
  pub unmarshal_value : Bytes → Bytes → Result CodecError Value

module _ (values : Values) where
  pub record Arg : Type 0 where
    pub name : Bytes
    pub kind : Bytes
    pub value : values.Value

  pub record Tx : Type 0 where
    pub hash : Bytes
    pub to : Bytes
    pub ins : List Arg
    pub autogen : List Arg
    pub outs : List Arg

  unfoldable pub get : Bytes → List Arg → Arg
  get name [] = record { name = []; kind = []; value = values.nil }
  get name (arg ∷ args) = if arg.name == name then arg else get name args

  unfoldable pub set : Arg → List Arg → List Arg
  set arg [] = arg ∷ []
  set arg (a ∷ args) =
      let rest = set arg args in if a.name == arg.name then arg ∷ args else a ∷ rest

  unfoldable pub remove : Bytes → List Arg → List Arg
  remove name [] = []
  remove name (arg ∷ args) =
      let rest = remove name args in if arg.name == name then args else arg ∷ rest

  unfoldable pub marshal_arg : Arg → Bytes
  marshal_arg arg =
      write_block arg.name ++ (write_block arg.kind ++ write_block (values.marshal_value arg.value))

  unfoldable pub unmarshal_arg : Bytes → Result CodecError Arg
  unmarshal_arg buf = read_block 1024 buf >>= λ name. read_block 1024 name.1 >>= λ kind.
      read_block (1024 * 1024) kind.1 >>= λ value. values.unmarshal_value kind.0 value.0 >>= λ v.
      ok record { name = name.0; kind = kind.0; value = v }

  unfoldable pub marshal_tx : Tx → Bytes
  marshal_tx tx =
      tx.hash
      ++ (write_block tx.to
          ++ (write_list marshal_arg tx.ins
              ++ (write_list marshal_arg tx.autogen ++ write_list marshal_arg tx.outs)))

  unfoldable pub unmarshal_tx : Bytes → Result CodecError Tx
  unmarshal_tx buf = read_full 32 buf >>= λ hash. read_block 1024 hash.1 >>= λ to.
      read_list 64 (10 * 1024) unmarshal_arg to.1 >>= λ ins.
      read_list 64 (10 * 1024) unmarshal_arg ins.1 >>= λ autogen.
      read_list 16 1024 unmarshal_arg autogen.1 >>= λ outs.
      ok record { hash = hash.0; to = to.0; ins = ins.0; autogen = autogen.0; outs = outs.0 }

  unfoldable pub marshal_txs : List Tx → Bytes
  marshal_txs txs = write_list marshal_tx txs

  unfoldable pub unmarshal_txs : Bytes → Result CodecError (List Tx)
  unmarshal_txs buf = read_list 8192 (10 * 1024) unmarshal_tx buf >>= λ r. ok r.0

-- TxStatus is a uint8.
unfoldable pub marshal_status : ℕ → Bytes
marshal_status s = s ∷ []

abbrev status_byte : Bytes → Result CodecError ℕ
status_byte [] = err cannot_read
status_byte (s ∷ buf) = ok s

unfoldable pub unmarshal_status : Bytes → Result CodecError ℕ
unmarshal_status buf = read_full 1 buf >>= λ r. status_byte r.0

unfoldable pub marshal_statuses : List ℕ → Bytes
marshal_statuses statuses = write_list marshal_status statuses

unfoldable pub unmarshal_statuses : Bytes → Result CodecError (List ℕ)
unmarshal_statuses buf = read_list 8192 1024 unmarshal_status buf >>= λ r. ok r.0
