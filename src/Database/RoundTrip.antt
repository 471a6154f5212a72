-- ===== src/Database/RoundTrip.antt =====
-- What is read back of a transaction or a gateway that was stored.
use lightnode.Common.{
  ℕ, ◌^◌, ◌<◌, String, ◌≡◌, refl, ap, sym, Option, none, some, List, [], ◌∷◌, ◌++◌, arith, take,
  length, inl, inr, if◌then◌else◌,
}
use lightnode.Common.Eq.{string_eq, ◌==◌, ==_refl}
use lightnode.Common.Result.{Result, ok, ◌>>=◌, Result-cases}
use lightnode.Darknode.{Bytes, Typed, LockInput, Tx, Darknode}
use lightnode.Database.{DbError, Columns, TxRow, GatewayRow, Database}
use lightnode.Database.Rows.{
  tx_fields, gateway_fields, tx_row, gateway_row, decode_bytes, copy32, decode_bytes32, decode_u256,
  tx_input, gateway_input, zeros, as_other, restored, row_to_tx, row_to_gateway,
}
use lightnode.Database.Txs.{find_tx, exec_insert, insert_tx, tx}
use lightnode.Database.Gateways.{find_gateway, exec_insert_gateway, insert_gateway, gateway}
use lightnode.Database.Invariant.{find_tx-append}

-- The sizes that pack gives: 32 bytes for a pack.Bytes32, 256 bits for a pack.U256.
pub record HasSizes (i : LockInput) : Type 0 where
  pub amount_fits : i.amount < 2 ^ 256
  pub phash_size : length i.phash ≡ 32
  pub nonce_size : length i.nonce ≡ 32
  pub nhash_size : length i.nhash ≡ 32
  pub ghash_size : length i.ghash ≡ 32

append_nil : (b : Bytes) → b ++ [] ≡ b
append_nil [] = refl
append_nil (x ∷ b) = ap (λ t. x ∷ t) (append_nil b)

take-length : (b : Bytes) → take (length b) b ≡ b
take-length [] = refl
take-length (x ∷ b) = ap (λ t. x ∷ t) (take-length b)

pub copy32_full : (columns : Columns) (b : Bytes) → length b ≡ 32 → copy32 columns b ≡ b
unfolding copy32
copy32_full columns b h = rw (h, append_nil b) (rw (sym h) (take-length b))

find_gateway-append :
    (a : String) (rows : List GatewayRow) (row : GatewayRow)
    → find_gateway a (rows ++ row ∷ []) ≡ elim (find_gateway a rows) [
      | none ↦ if row.gateway_address == a then some row else none
      | some r ↦ some r
    ]
unfolding find_gateway
find_gateway-append a [] row = refl
find_gateway-append a (r ∷ rows) row = ground (arith, find_gateway-append a rows row)

module _ (columns : Columns) where
  decode_bytes-base64 :
      (name : String) (b : Bytes) → decode_bytes columns name (columns.base64 b) ≡ ok b
  unfolding decode_bytes
  decode_bytes-base64 name b = ground (arith, columns.decode-base64 b)

  decode_bytes32-base64 :
      (name : String) (b : Bytes)
      → length b ≡ 32
      → decode_bytes32 columns name (columns.base64 b) ≡ ok b
  unfolding decode_bytes32
  decode_bytes32-base64 name b h = rw (decode_bytes-base64 name b) (ap ok (copy32_full columns b h))

  decode_u256-decimal : (n : ℕ) → n < 2 ^ 256 → decode_u256 columns (columns.decimal n) ≡ ok n
  unfolding decode_u256
  decode_u256-decimal n h = ground (arith, columns.parse-decimal n h)

  tx_input-tx_row :
      (now : ℕ) (t : Tx) (i : LockInput)
      → HasSizes i
      → tx_input columns (tx_row columns now t i) ≡ ok i
  unfolding tx_input tx_row
  tx_input-tx_row now t i s =
      rw
        (
          decode_bytes-base64 "txid" i.txid,
          decode_u256-decimal i.amount s.amount_fits,
          decode_bytes-base64 "payload" i.payload,
          decode_bytes32-base64 "phash" i.phash s.phash_size,
          decode_bytes32-base64 "nonce" i.nonce s.nonce_size,
          decode_bytes32-base64 "nhash" i.nhash s.nhash_size,
          decode_bytes-base64 "gpubkey" i.gpubkey,
          decode_bytes32-base64 "ghash" i.ghash s.ghash_size,
        )
        refl

  gateway_input-gateway_row :
      (now : ℕ) (address : String) (t : Tx) (i : LockInput)
      → HasSizes i
      → gateway_input columns (gateway_row columns now address t i)
        ≡ ok (record i { txid = []; txindex = 0; amount = 0 })
  unfolding gateway_input gateway_row
  gateway_input-gateway_row now address t i s =
      rw
        (
          decode_bytes-base64 "payload" i.payload,
          decode_bytes32-base64 "phash" i.phash s.phash_size,
          decode_bytes32-base64 "nonce" i.nonce s.nonce_size,
          decode_bytes32-base64 "nhash" i.nhash s.nhash_size,
          decode_bytes-base64 "gpubkey" i.gpubkey,
          decode_bytes32-base64 "ghash" i.ghash s.ghash_size,
        )
        refl

  -- The row that a successful insertion leaves under its hash.
  exec_insert-find :
      (fault : Option String) (row : TxRow) (db next : Database)
      → exec_insert fault row db ≡ (none, next)
      → find_tx row.hash next.txs ≡ some row
  unfolding exec_insert
  exec_insert-find (some e) row db next h = absurd (ground (arith, h))
  exec_insert-find none row db next h =
      ground (arith, h, find_tx-append row.hash db.txs row, ==_refl row.hash)

  pub insert_tx-find :
      (fault : Option String) (now : ℕ) (t : Tx) (i : LockInput) (db next : Database)
      → tx_fields t.input ≡ ok i
      → insert_tx columns fault now t db ≡ (none, next)
      → find_tx (columns.base64 t.hash) next.txs ≡ some (tx_row columns now t i)
  unfolding insert_tx tx_row
  insert_tx-find fault now t i db next fields h =
      exec_insert-find fault (tx_row columns now t i) db next (ground (arith, h, fields))

  module _ (darknode : Darknode) where
    -- What a stored transaction is read back as: its fields encoded again, with the hash, version
    -- and selector of a version 0 transaction, and what tx.NewTx makes of any other.
    abbrev pub read_back : Tx → LockInput → Result DbError Tx
    read_back t i = as_other columns darknode (darknode.encode i) >>= λ input.
        if t.version == darknode.version0
        then ok record { hash = t.hash; version = t.version; selector = t.selector; input = input }
        else as_other columns darknode (darknode.new_tx t.selector input)

    -- What a stored gateway is read back as: its fields without a deposit, its selector, and no
    -- hash and no version.
    abbrev pub gateway_back : Tx → LockInput → Result DbError Tx
    gateway_back t i =
        as_other columns darknode
          (darknode.encode (record i { txid = []; txindex = 0; amount = 0 }))
        >>= λ input.
            ok record { hash = zeros 32; version = ""; selector = t.selector; input = input }

    restored-base64 :
        (t : Tx) (input : Typed)
        → length t.hash ≡ 32
        → restored columns darknode (columns.base64 t.hash) t.version t.selector input ≡ (
            if t.version == darknode.version0
            then ok
                record { hash = t.hash; version = t.version; selector = t.selector; input = input }
            else as_other columns darknode (darknode.new_tx t.selector input))
    unfolding restored
    restored-base64 t input size = rw (decode_bytes32-base64 "hash" t.hash size) refl

    row_to_tx-tx_row :
        (now : ℕ) (t : Tx) (i : LockInput)
        → length t.hash ≡ 32
        → HasSizes i
        → row_to_tx columns darknode (tx_row columns now t i) ≡ read_back t i
    unfolding row_to_tx tx_row
    row_to_tx-tx_row now t i size sizes = elim (Result-cases (darknode.encode i)) [
      | inl (input, p) ↦ rw (tx_input-tx_row now t i sizes, p) (restored-base64 t input size)
      | inr (e, p) ↦ rw (tx_input-tx_row now t i sizes, p) refl
    ]

    row_to_gateway-gateway_row :
        (now : ℕ) (address : String) (t : Tx) (i : LockInput)
        → HasSizes i
        → row_to_gateway columns darknode (gateway_row columns now address t i) ≡ gateway_back t i
    unfolding row_to_gateway gateway_row
    row_to_gateway-gateway_row now address t i sizes =
        rw (gateway_input-gateway_row now address t i sizes) refl

    -- A transaction that was inserted without an error is read back under its hash.
    pub tx-insert_tx :
        (fault : Option String) (now : ℕ) (t : Tx) (i : LockInput) (db next : Database)
        → length t.hash ≡ 32
        → HasSizes i
        → tx_fields t.input ≡ ok i
        → insert_tx columns fault now t db ≡ (none, next)
        → tx columns darknode none t.hash next ≡ read_back t i
    unfolding tx row_to_tx
    tx-insert_tx fault now t i db next size sizes fields h =
        rw (insert_tx-find fault now t i db next fields h, tx) (row_to_tx-tx_row now t i size sizes)

    exec_insert-find_gateway :
        (fault : Option String) (row : GatewayRow) (db next : Database)
        → exec_insert_gateway fault row db ≡ (none, next)
        → find_gateway row.gateway_address next.gateways ≡ some row
    unfolding exec_insert_gateway
    exec_insert-find_gateway (some e) row db next h = absurd (ground (arith, h))
    exec_insert-find_gateway none row db next h = ground (
      arith,
      h,
      find_gateway-append row.gateway_address db.gateways row,
      ==_refl row.gateway_address,
    )

    -- A gateway that was inserted without an error is read back under its address, without the
    -- version of its transaction.
    pub gateway-insert_gateway :
        (fault : Option String) (now : ℕ) (address : String) (t : Tx) (i : LockInput)
        (db next : Database)
        → HasSizes i
        → gateway_fields t.input ≡ ok i
        → insert_gateway columns fault now address t db ≡ (none, next)
        → gateway columns darknode none address next ≡ gateway_back t i
    unfolding gateway insert_gateway gateway_row
    gateway-insert_gateway fault now address t i db next sizes fields h =
        rw
          (
            exec_insert-find_gateway fault (gateway_row columns now address t i) db next
                (ground (arith, h, fields)),
            gateway,
          )
          (row_to_gateway-gateway_row now address t i sizes)
