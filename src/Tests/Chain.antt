-- ===== src/Tests/Chain.antt =====
-- Concrete Darknode packages, namings and addresses.
use lightnode.Common.{String, ◌≡◌, ◌≢◌, true, some, [], ◌∷◌, ◌++◌, arith}
use lightnode.Common.Eq.{string_eq, ◌==◌, ==_iff}
use lightnode.Common.Dict.{lookup}
use lightnode.Common.Result.{Result, ok}
use lightnode.Darknode.{Darknode, LockInput, Typed, bytes, bytes32, str, u32, u256}
use lightnode.Compat.V0.Hashes.{Naming}

abbrev pub fields : LockInput → Typed
fields i =
    ("txid", bytes i.txid)
    ∷ ("txindex", u32 i.txindex)
    ∷ ("amount", u256 i.amount)
    ∷ ("payload", bytes i.payload)
    ∷ ("phash", bytes32 i.phash)
    ∷ ("to", str i.to)
    ∷ ("nonce", bytes32 i.nonce)
    ∷ ("nhash", bytes32 i.nhash)
    ∷ ("gpubkey", bytes i.gpubkey)
    ∷ ("ghash", bytes32 i.ghash)
    ∷ []

module _ (i : LockInput) (t : Typed)
    (h : ◌≡◌ {A = Result String Typed} (ok (fields i)) (ok t)) where
  pub same_fields : fields i ≡ t
  same_fields = cc

  pub fields-txid : lookup "txid" t ≡ some (bytes i.txid)
  unfolding lookup
  fields-txid = rw (← same_fields)

  pub fields-amount : lookup "amount" t ≡ some (u256 i.amount)
  unfolding lookup
  fields-amount = rw (← same_fields)

  pub fields-to : lookup "to" t ≡ some (str i.to)
  unfolding lookup
  fields-to = rw (← same_fields)

  pub fields-nonce : lookup "nonce" t ≡ some (bytes32 i.nonce)
  unfolding lookup
  fields-nonce = rw (← same_fields)

pub versions : ◌≢◌ {A = String} "0" "1"
versions = ground (arith, ==_iff {T = String} "0" "1")

abbrev pub simple_darknode : Darknode
simple_darknode = record {
  is_lock = λ s. s == "BTC/toEthereum";
  is_burn = λ s. s == "BTC/fromEthereum";
  is_cross_chain = λ s. true;
  version0 = "0";
  version1 = "1";
  versions_differ = versions;
  encode = λ i. ok (fields i);
  new_tx_hash = λ v s t. ok (1 ∷ []);
  new_tx = λ s t. ok (record { hash = 2 ∷ []; version = "1"; selector = s; input = t });
  hash_string = λ h. "hash";
  phash_of = λ p. p;
  nhash_of = λ n t i. n ++ t;
  ghash_of = λ s p d n. p ++ d ++ n;
  encode-txid = fields-txid;
  encode-amount = fields-amount;
  encode-to = fields-to;
  encode-nonce = fields-nonce;
}

abbrev pub simple_naming : Naming
simple_naming = record {
  asset = λ s. "BTC";
  source_asset = λ s. "Eth";
  destination_asset = λ s. "Btc";
  title_lower = λ s. s;
  decimal = λ n. "1";
  u256_of = λ b. 1;
  keccak = λ s. 3 ∷ [];
  b32_string = λ b. "v0";
}
