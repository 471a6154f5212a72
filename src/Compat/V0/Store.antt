-- ===== src/Compat/V0/Store.antt =====
-- compat/v0/store.go: the mapping from transactions of version 0 to those of version 1, in Redis by
-- their hash and by what the transaction spends, a UTXO or the reference of a burn. The expiry of
-- the entries is that of the server, and the model is about the time before it.
pub mod Mapping
use Prim.Native.String.{◌++◌ as str_append}
use lightnode.Common.{ℕ, suc, String, Bool, true, false, Option, none, some, [], take}
use lightnode.Common.Int.{ℤ, pos, negsuc}
use lightnode.Common.Ascii.{codes}
use lightnode.Common.Result.{Result, ok, err, ◌>>=◌}
use lightnode.Darknode.{Bytes, Selector, Darknode}
use lightnode.Darknode as Engine
use lightnode.Redis.{Redis, RedisError, nil_reply}
use lightnode.Database.{DbError, no_rows, nil_dereference, Columns, Database}
use lightnode.Database.Rows.{copy32}
use lightnode.Database.Txs as Txs
use lightnode.Compat.V0.Hashes.{Naming}
use lightnode.Compat.V0.Codec.Args.{Arg, Tx, get}
use lightnode.Abi.Numbers.{u64}
use lightnode.Abi.Values.{
  Scalar, Utxo, Payload, number, b32, btc_compat_utxo, eth_compat_address, eth_compat_payload,
}
use lightnode.Abi.Codec.{abi_values}
use lightnode.Abi.Contracts.{ValidationError, is_shift_in}

-- ErrNotFound, the errors of what is called, and no error value but a panic: a failed type
-- assertion, a nil pointer, or an address that IsShiftIn does not know.
pub data CompatError : Type 0 where
  not_found panicked : CompatError
  bad_hash other : String → CompatError
  redis_failed : RedisError → CompatError
  db_failed : DbError → CompatError
  not_valid : ValidationError → CompatError

-- string(bytes), and the decoder of standard base64.
pub record Texts : Type 0 where
  pub naming : Naming
  pub text : Bytes → String
  pub decode_std : String → Option Bytes

-- The type assertions on the value of an argument.
abbrev pub as_utxo : Option (Scalar ℤ) → Result CompatError (Utxo ℤ)
as_utxo (some (btc_compat_utxo u)) = ok u
as_utxo _ = err panicked

abbrev pub as_u64 : Option (Scalar ℤ) → Result CompatError (Option ℤ)
as_u64 (some (number u64 n)) = ok n
as_u64 _ = err panicked

abbrev pub as_b32 : Option (Scalar ℤ) → Result CompatError Bytes
as_b32 (some (b32 x)) = ok x
as_b32 _ = err panicked

abbrev pub as_address : Option (Scalar ℤ) → Result CompatError Bytes
as_address (some (eth_compat_address x)) = ok x
as_address _ = err panicked

abbrev pub as_payload : Option (Scalar ℤ) → Result CompatError Payload
as_payload (some (eth_compat_payload x)) = ok x
as_payload _ = err panicked

-- What a pointer to an integer points at, where it is not nil.
abbrev pub int_at : Option ℤ → Result CompatError ℤ
int_at (some n) = ok n
int_at none = err panicked

-- The error of a call of another package.
abbrev pub called {ℓ} : {A : Type ℓ} → Result String A → Result CompatError A
called (ok a) = ok a
called (err e) = err (other e)

module _ (padded_big_bytes : ℤ → ℕ → Bytes) where
  abbrev pub V0Tx : Type 0
  V0Tx = Tx (abi_values padded_big_bytes)

  abbrev pub in_value : String → V0Tx → Option (Scalar ℤ)
  in_value name v0tx = (get (abi_values padded_big_bytes) (codes name) v0tx.ins).value

module _ (texts : Texts) where
  open texts use {naming, text, decode_std}

  -- big.Int.String, also of a nil pointer.
  unfoldable pub int_string : Option ℤ → String
  int_string none = "<nil>"
  int_string (some (pos n)) = naming.decimal n
  int_string (some (negsuc n)) = str_append "-" (naming.decimal (suc n))

  unfoldable pub utxo_lookup_string : Utxo ℤ → String
  utxo_lookup_string utxo =
      str_append (naming.b32_string utxo.tx_hash) (str_append "_" (int_string utxo.v_out))

  unfoldable pub ref_lookup_string : Selector → Option ℤ → String
  ref_lookup_string selector ref = str_append selector (str_append "_" (int_string ref))

  -- The first three bytes of the address name the asset; an address that IsShiftIn knows has them.
  unfoldable pub burn_selector : Bytes → Selector
  burn_selector to = str_append (text (take 3 to)) "/fromEthereum"

  unfoldable pub decode_hash_string : Columns → String → Result CompatError Bytes
  decode_hash_string columns s = elim (columns.decode_base64 s) [
    | some b ↦ ok (copy32 columns b)
    | none ↦ elim (decode_std s) [ some b ↦ ok (copy32 columns b) | none ↦ err (bad_hash s) ]
  ]

  module _ (redis : Redis) (columns : Columns) where
    abbrev on_reply : Result RedisError String → Result CompatError Bytes
    on_reply (ok s) = decode_hash_string columns s
    on_reply (err nil_reply) = err not_found
    on_reply (err e) = err (redis_failed e)

    unfoldable pub read_hash : String → redis.State → Result CompatError Bytes
    read_hash key s = on_reply (redis.get key s)

    unfoldable pub get_v1_hash_from_hash : Bytes → redis.State → Result CompatError Bytes
    unfolding read_hash
    get_v1_hash_from_hash v0hash s = read_hash (naming.b32_string v0hash) s

    unfoldable pub write_hash : String → Bytes → redis.State → Option CompatError × redis.State
    write_hash key hash s =
        let reply = redis.set key (columns.base64 hash) s in
        (elim reply.0 [ none ↦ none | some e ↦ some (redis_failed e) ], reply.1)

  module _ (padded_big_bytes : ℤ → ℕ → Bytes) where
    abbrev key_of : V0Tx padded_big_bytes → Option Bool → Result CompatError String
    key_of v0tx none = err panicked
    key_of v0tx (some true) =
        as_utxo (in_value padded_big_bytes "utxo" v0tx) >>= λ utxo. ok (utxo_lookup_string utxo)
    key_of v0tx (some false) = as_u64 (in_value padded_big_bytes "ref" v0tx) >>= λ ref.
        ok (ref_lookup_string (burn_selector v0tx.to) ref)

    -- The key of what the transaction spends.
    unfoldable pub lookup_string : V0Tx padded_big_bytes → Result CompatError String
    lookup_string v0tx = key_of v0tx (is_shift_in v0tx.to)

    module _ (redis : Redis) (columns : Columns) where
      abbrev write_spent :
          Result CompatError String → Bytes → redis.State → Option CompatError × redis.State
      write_spent (err e) hash s = (some e, s)
      write_spent (ok key) hash s = write_hash redis columns key hash s

      abbrev unless_failed :
          V0Tx padded_big_bytes
          → Bytes
          → Option CompatError × redis.State
          → Option CompatError × redis.State
      unless_failed v0tx hash (some e, s) = (some e, s)
      unless_failed v0tx hash (none, s) = write_spent (lookup_string v0tx) hash s

      unfoldable pub persist_tx_mappings :
          V0Tx padded_big_bytes → Engine.Tx → redis.State → Option CompatError × redis.State
      unfolding write_hash
      persist_tx_mappings v0tx v1tx s =
          unless_failed v0tx v1tx.hash
            (write_hash redis columns (naming.b32_string v0tx.hash) v1tx.hash s)

      module _ (darknode : Darknode) where
        abbrev pub from_db : Result DbError Engine.Tx → Result CompatError Engine.Tx
        from_db (ok v1tx) = ok v1tx
        from_db (err no_rows) = err not_found
        from_db (err nil_dereference) = err panicked
        from_db (err e) = err (db_failed e)

        unfoldable pub get_v1_tx_from_tx :
            Option String
            → V0Tx padded_big_bytes
            → Database
            → redis.State
            → Result CompatError Engine.Tx
        unfolding read_hash
        get_v1_tx_from_tx fault v0tx db s = lookup_string v0tx >>= λ key.
            read_hash redis columns key s >>= λ hash.
            from_db (Txs.tx columns darknode fault hash db)
