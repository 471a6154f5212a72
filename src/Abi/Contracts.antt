-- ===== src/Abi/Contracts.antt =====
-- compat/v0/contract.go: the contracts of version 0 with the arguments that they expect, and
-- ValidateV0Tx of compat/v0/tx.go, which holds a transaction against its contract. A panic is an
-- answer `none`.
pub mod Validation
use lightnode.Common.{
  ℕ, Bool, true, false, ◌&&◌, ◌||◌, Option, none, some, List, [], ◌∷◌, String, length, ltb, not,
  if◌then◌else◌,
}
use lightnode.Common.Ascii.{codes}
use lightnode.Common.Eq.{bytes_eq, ◌==◌}
use lightnode.Common.Dict.{Dict, lookup}
use lightnode.Common.Int.{ℤ}
use lightnode.Common.Result.{Result, ok, err, ◌>>=◌}
use lightnode.Darknode.{Bytes}
use lightnode.Compat.V0.Codec.Args.{Arg, Tx, get}
use lightnode.Abi.Types.{
  type_address, type_str, type_b32, type_b, type_i8, type_i16, type_i32, type_i64, type_i128,
  type_i256, type_u8, type_u16, type_u32, type_u64, type_u128, type_u256, type_record, type_list,
  type_ext_eth_compat_address, type_ext_btc_compat_utxo, type_ext_btc_compat_utxos,
  type_ext_eth_compat_tx, type_ext_eth_compat_payload,
}
use lightnode.Abi.Values.{Scalar}
use lightnode.Abi.Codec.{abi_values}

pub record Formal : Type 0 where
  pub name : Bytes
  pub kind : Bytes

pub record Contract : Type 0 where
  pub address : Bytes
  pub ins : List Formal
  pub autogen : List Formal
  pub outs : List Formal

abbrev formal : String → Bytes → Formal
formal name kind = record { name = codes name; kind = kind }

abbrev pub btc0_btc2eth : Contract
btc0_btc2eth = record {
  address = codes "BTC0Btc2Eth";
  ins =
      formal "p" type_ext_eth_compat_payload
      ∷ formal "token" type_ext_eth_compat_address
      ∷ formal "to" type_ext_eth_compat_address
      ∷ formal "n" type_b32
      ∷ formal "utxo" type_ext_btc_compat_utxo
      ∷ [];
  autogen =
      formal "ghash" type_b32
      ∷ formal "nhash" type_b32
      ∷ formal "phash" type_b32
      ∷ formal "sighash" type_b32
      ∷ formal "amount" type_u256
      ∷ formal "utxo" type_ext_btc_compat_utxo
      ∷ [];
  outs = formal "r" type_b32 ∷ formal "s" type_b32 ∷ formal "v" type_u8 ∷ [];
}

abbrev pub btc0_eth2btc : Contract
btc0_eth2btc = record {
  address = codes "BTC0Eth2Btc";
  ins = formal "ref" type_u64 ∷ [];
  autogen = [];
  outs = formal "txhash" type_b ∷ [];
}

abbrev pub bch0_bch2eth : Contract
bch0_bch2eth = record {
  address = codes "BCH0Bch2Eth";
  ins =
      formal "p" type_ext_eth_compat_payload
      ∷ formal "token" type_ext_eth_compat_address
      ∷ formal "to" type_ext_eth_compat_address
      ∷ formal "n" type_b32
      ∷ formal "utxo" type_ext_btc_compat_utxo
      ∷ [];
  autogen =
      formal "ghash" type_b32
      ∷ formal "nhash" type_b32
      ∷ formal "phash" type_b32
      ∷ formal "sighash" type_b32
      ∷ formal "amount" type_u256
      ∷ formal "utxo" type_ext_btc_compat_utxo
      ∷ [];
  outs = formal "r" type_b32 ∷ formal "s" type_b32 ∷ formal "v" type_u8 ∷ [];
}

abbrev pub bch0_eth2bch : Contract
bch0_eth2bch = record {
  address = codes "BCH0Eth2Bch";
  ins = formal "ref" type_u64 ∷ [];
  autogen = [];
  outs = formal "txhash" type_b ∷ [];
}

abbrev pub zec0_zec2eth : Contract
zec0_zec2eth = record {
  address = codes "ZEC0Zec2Eth";
  ins =
      formal "p" type_ext_eth_compat_payload
      ∷ formal "token" type_ext_eth_compat_address
      ∷ formal "to" type_ext_eth_compat_address
      ∷ formal "n" type_b32
      ∷ formal "utxo" type_ext_btc_compat_utxo
      ∷ [];
  autogen =
      formal "ghash" type_b32
      ∷ formal "nhash" type_b32
      ∷ formal "phash" type_b32
      ∷ formal "sighash" type_b32
      ∷ formal "amount" type_u256
      ∷ formal "utxo" type_ext_btc_compat_utxo
      ∷ [];
  outs = formal "r" type_b32 ∷ formal "s" type_b32 ∷ formal "v" type_u8 ∷ [];
}

abbrev pub zec0_eth2zec : Contract
zec0_eth2zec = record {
  address = codes "ZEC0Eth2Zec";
  ins = formal "ref" type_u64 ∷ [];
  autogen = [];
  outs = formal "txhash" type_b ∷ [];
}

unfoldable pub intrinsics : Dict Bytes Contract
intrinsics =
    (btc0_btc2eth.address, btc0_btc2eth)
    ∷ (btc0_eth2btc.address, btc0_eth2btc)
    ∷ (zec0_zec2eth.address, zec0_zec2eth)
    ∷ (zec0_eth2zec.address, zec0_eth2zec)
    ∷ (bch0_bch2eth.address, bch0_bch2eth)
    ∷ (bch0_eth2bch.address, bch0_eth2bch)
    ∷ []

pub data AddressError : Type 0 where
  invalid_v0_contract_address : AddressError

unfoldable pub validate_address : Bytes → Result AddressError (Unit {0})
validate_address addr =
    if addr == btc0_btc2eth.address
      || addr == zec0_zec2eth.address
      || addr == bch0_bch2eth.address
      || addr == btc0_eth2btc.address
      || addr == zec0_eth2zec.address
      || addr == bch0_eth2bch.address
    then ok tt
    else err invalid_v0_contract_address

unfoldable pub is_shift_in : Bytes → Option Bool
is_shift_in addr =
    if addr == btc0_btc2eth.address || addr == zec0_zec2eth.address || addr == bch0_bch2eth.address
    then some true
    else if addr == btc0_eth2btc.address
        || addr == zec0_eth2zec.address
        || addr == bch0_eth2bch.address
    then some false
    else none

pub data ValidationError : Type 0 where
  contract_not_found too_few_arguments : ValidationError
  missing_argument wrong_type : Bytes → ValidationError

module _ (padded_big_bytes : ℤ → ℕ → Bytes) where
  abbrev is_none : Option (Scalar ℤ) → Bool
  is_none none = true
  is_none (some v) = false

  unfoldable pub is_nil : Arg (abi_values padded_big_bytes) → Bool
  is_nil arg = arg.name == [] && (arg.kind == [] && is_none arg.value)

  -- The loop over the formal arguments.
  unfoldable pub check_formals :
      List Formal → List (Arg (abi_values padded_big_bytes)) → Result ValidationError (Unit {0})
  check_formals [] args = ok tt
  check_formals (f ∷ formals) args =
      let rest = check_formals formals args in
      let arg = get (abi_values padded_big_bytes) f.name args in
      if is_nil arg
      then err (missing_argument f.name)
      else if not (arg.kind == f.kind)
      then err (wrong_type f.name)
      else rest

  unfoldable pub check_contract :
      Option Contract → List (Arg (abi_values padded_big_bytes)) → Result ValidationError (Unit {0})
  check_contract none args = err contract_not_found
  check_contract (some contract) args =
      if ltb (length args) (length contract.ins)
      then err too_few_arguments
      else check_formals contract.ins args

  unfoldable pub validate_v0_tx :
      Tx (abi_values padded_big_bytes) → Result ValidationError (Unit {0})
  validate_v0_tx tx = check_contract (lookup tx.to intrinsics) tx.ins
