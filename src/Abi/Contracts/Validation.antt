-- ===== src/Abi/Contracts/Validation.antt =====
-- What ValidateV0Tx of compat/v0/tx.go accepts, and what the callers may do with it.
use lightnode.Common.{
  ℕ, Bool, true, false, ◌||◌, ◌≡◌, ◌≢◌, ◌≤◌, ◌↔◌, refl, Option, none, some, List, [], ◌∷◌, length,
  ltb, not, All, arith, if◌then◌else◌,
}
use lightnode.Common.Eq.{bytes_eq, ◌==◌, ==_iff}
use lightnode.Common.Dict.{lookup}
use lightnode.Common.Int.{ℤ}
use lightnode.Common.Result.{Result, ok, err}
use lightnode.Darknode.{Bytes}
use lightnode.Compat.V0.Codec.Args.{Arg, Tx, get}
use lightnode.Abi.Codec.{abi_values}
use lightnode.Abi.Contracts.{
  Formal, Contract, btc0_btc2eth, btc0_eth2btc, bch0_bch2eth, bch0_eth2bch, zec0_zec2eth,
  zec0_eth2zec, intrinsics, is_shift_in, ValidationError, is_nil, check_formals, check_contract,
  validate_v0_tx, too_few_arguments, missing_argument, wrong_type,
}

shift_choice :
    {A : Type 0} (a b c d e f : Bool) (u v w x y z : A)
    → (if a
        then some u
        else if b
        then some v
        else if c
        then some w
        else if d
        then some x
        else if e
        then some y
        else if f
        then some z
        else none)
      ≢ none
    → (if a || c || e then some true else if b || d || f then some false else none) ≢ none
shift_choice a b c d e f u v w x y z h = ground (arith, h)

-- IsShiftIn does not panic on the address of an intrinsic contract.
shift_known : (addr : Bytes) → lookup addr intrinsics ≢ none → is_shift_in addr ≢ none
unfolding lookup intrinsics is_shift_in
shift_known addr h =
    shift_choice (addr == btc0_btc2eth.address) (addr == btc0_eth2btc.address)
      (addr == zec0_zec2eth.address) (addr == zec0_eth2zec.address) (addr == bch0_bch2eth.address)
      (addr == bch0_eth2bch.address) btc0_btc2eth btc0_eth2btc zec0_zec2eth zec0_eth2zec
      bch0_bch2eth bch0_eth2bch h

count_step :
    (n m : ℕ) (rest : Result ValidationError (Unit {0}))
    → ((if ltb n m then err too_few_arguments else rest) ≡ ok tt) ↔ ((m ≤ n) × (rest ≡ ok tt))
count_step n m rest = ground arith

module _ (padded_big_bytes : ℤ → ℕ → Bytes) where
  -- A formal argument that the arguments supply under its name with its type.
  abbrev Supplied : List (Arg (abi_values padded_big_bytes)) → Formal → Type 0
  Supplied args f =
      let arg = get (abi_values padded_big_bytes) f.name args in
      (arg.kind ≡ f.kind) × (is_nil padded_big_bytes arg ≡ false)

  formal_step :
      (nil : Bool) (kind expected name : Bytes) (rest : Result ValidationError (Unit {0}))
      → ((if nil
            then err (missing_argument name)
            else if not (kind == expected)
            then err (wrong_type name)
            else rest)
          ≡ ok tt)
        ↔ (((kind ≡ expected) × (nil ≡ false)) × (rest ≡ ok tt))
  formal_step nil kind expected name rest = ground (arith, ==_iff kind expected)

  check_formals_iff :
      (formals : List Formal) (args : List (Arg (abi_values padded_big_bytes)))
      → (check_formals padded_big_bytes formals args ≡ ok tt) ↔ All (Supplied args) formals
  unfolding check_formals
  check_formals_iff [] args = ground arith
  check_formals_iff (f ∷ formals) args =
      let arg = get (abi_values padded_big_bytes) f.name args in
      let rest = check_formals padded_big_bytes formals args in
      let step = formal_step (is_nil padded_big_bytes arg) arg.kind f.kind f.name rest in
      let next = check_formals_iff formals args in
      (λ e. let r = step.0 e in (r.0, next.0 r.1), λ r. step.1 (r.0, next.1 r.1))

  -- The arguments that a contract takes.
  pub record IsTaken (tx : Tx (abi_values padded_big_bytes)) : Type 0 where
    contract : Contract
    known : lookup tx.to intrinsics ≡ some contract
    enough : length contract.ins ≤ length tx.ins
    supplied : All (Supplied tx.ins) contract.ins

  taken :
      (tx : Tx (abi_values padded_big_bytes)) (found : Option Contract)
      → lookup tx.to intrinsics ≡ found
      → check_contract padded_big_bytes found tx.ins ≡ ok tt
      → IsTaken tx
  unfolding check_contract
  taken tx none e h = absurd (ground (arith, h))
  taken tx (some c) e h =
      let r =
        (count_step (length tx.ins) (length c.ins) (check_formals padded_big_bytes c.ins tx.ins)).0
          h in
      record {
        contract = c;
        known = e;
        enough = r.0;
        supplied = (check_formals_iff c.ins tx.ins).0 r.1;
      }

  -- A transaction is accepted exactly where its contract is known and each formal argument of it is
  -- supplied under its name with its type.
  pub validate_v0_tx_iff :
      (tx : Tx (abi_values padded_big_bytes))
      → (validate_v0_tx padded_big_bytes tx ≡ ok tt) ↔ IsTaken tx
  unfolding validate_v0_tx check_contract
  validate_v0_tx_iff tx = (
    taken tx (lookup tx.to intrinsics) refl,
    λ t. rw t.known (
        (count_step (length tx.ins) (length t.contract.ins)
            (check_formals padded_big_bytes t.contract.ins tx.ins)).1
          (t.enough, (check_formals_iff t.contract.ins tx.ins).1 t.supplied)),
  )

  -- IsShiftIn does not panic on the address of a transaction that was accepted.
  pub validate_v0_tx-is_shift_in :
      (tx : Tx (abi_values padded_big_bytes))
      → validate_v0_tx padded_big_bytes tx ≡ ok tt
      → is_shift_in tx.to ≢ none
  validate_v0_tx-is_shift_in tx h =
      let t = (validate_v0_tx_iff tx).0 h in
      shift_known tx.to (λ e. absurd (ground (arith, e, t.known)))
