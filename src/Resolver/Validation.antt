-- ===== src/Resolver/Validation.antt =====
-- resolver/resolver.go: the check that a gateway address belongs to the transaction that it is
-- stored for. The cryptography and the encodings of the chains are parameters.
use Prim.Native.String.{[] as empty, ◌∷◌ as ◌∷ˢ◌}
use lightnode.Common.{String, Bool, true, false, ◌≡◌, ap, sym, subst, arith, if◌then◌else◌}
use lightnode.Common.Eq.{string_eq, ◌==◌, ==_iff}
use lightnode.Common.Result.{Result, ok, err, ◌>>=◌}
use lightnode.Darknode.{Typed, Selector, Tx, Darknode}

-- What validateGateway uses of the chains: their kinds, the address of the script of a UTXO
-- gateway, and the address of the sum of the two public keys of an account gateway.
pub record Gateway : Type 1 where
  pub Input : Type 0
  pub decode_input : Typed → Result String Input
  pub is_utxo_based : Selector → Bool
  pub is_account_based : Selector → Bool
  pub is_fil : Selector → Bool
  pub script_address : Selector → Input → Result String String
  pub pub_key_address : Selector → Input → Result String String

-- An error, or the panic of an index into an empty text.
pub data Problem : Type 0 where
  problem : String → Problem
  out_of_range : Problem

abbrev pub or_problem {ℓ} : {A : Type ℓ} → Result String A → Result Problem A
or_problem (err e) = err (problem e)
or_problem (ok a) = ok a

-- out[0] = 'f'
unfoldable pub mainnet_encoding : String → Result Problem String
mainnet_encoding empty = err out_of_range
mainnet_encoding (c ∷ˢ s) = ok ("f" ∷ˢ s)

abbrev pub matches : String → String → Result Problem (Unit {0})
matches expected actual =
    if expected == actual then ok tt else err (problem "gateway address mismatch")

matches_ok : (expected actual : String) → matches expected actual ≡ ok tt → expected ≡ actual
matches_ok expected actual h = ground (arith, h, ==_iff expected actual)

found_ok :
    (gateway : String) (found : Result String String)
    → (or_problem found >>= λ expected. matches expected gateway) ≡ ok tt
    → found ≡ ok gateway
found_ok gateway (err e) h = absurd (ground (arith, h))
found_ok gateway (ok expected) h = ap ok (matches_ok expected gateway h)

encoded_ok :
    (found : Result String String) (actual : Result Problem String)
    → (or_problem found >>= λ expected. actual >>= λ a. matches expected a) ≡ ok tt
    → actual ≡ or_problem found
encoded_ok (err e) actual h = absurd (ground (arith, h))
encoded_ok (ok expected) (err e) h = absurd (ground (arith, h))
encoded_ok (ok expected) (ok a) h = ap ok (sym (matches_ok expected a h))

-- Both checks pass where they apply.
both_ok :
    (e : Problem) (is_burn utxo account : Bool) (script pub_key : Result Problem (Unit {0}))
    → (if is_burn
        then err e
        else ((if utxo then script else ok tt) >>= λ _. if account then pub_key else ok tt))
      ≡ ok tt
    → (is_burn ≡ false) × ((utxo ≡ true → script ≡ ok tt) × (account ≡ true → pub_key ≡ ok tt))
both_ok e true utxo account script pub_key h = absurd (ground (arith, h))
both_ok e false true account (err p) pub_key h = absurd (ground (arith, h))
both_ok e false true account (ok _) pub_key h = ground (arith, h)
both_ok e false false account script pub_key h = ground (arith, h)

module _ (darknode : Darknode) (chain : Gateway) where
  unfoldable pub check_script : String → Selector → chain.Input → Result Problem (Unit {0})
  check_script gateway selector input =
      or_problem (chain.script_address selector input) >>= λ expected. matches expected gateway

  unfoldable pub check_pub_key : String → Selector → chain.Input → Result Problem (Unit {0})
  check_pub_key gateway selector input =
      or_problem (chain.pub_key_address selector input) >>= λ expected.
      (if chain.is_fil selector then mainnet_encoding gateway else ok gateway) >>= λ actual.
      matches expected actual

  unfoldable pub validate_gateway : String → Tx → chain.Input → Result Problem (Unit {0})
  validate_gateway gateway tx input =
      if darknode.is_burn tx.selector
      then err (problem "Cannot store gateways for burn txes")
      else ((if chain.is_utxo_based tx.selector
            then check_script gateway tx.selector input
            else ok tt)
          >>= λ _.
              if chain.is_account_based tx.selector
              then check_pub_key gateway tx.selector input
              else ok tt)

  plain :
      (gateway : String) (selector : Selector) (input : chain.Input)
      → chain.is_fil selector ≡ false
      → check_pub_key gateway selector input ≡ ok tt
      → chain.pub_key_address selector input ≡ ok gateway
  unfolding check_pub_key
  plain gateway selector input other h = found_ok gateway (chain.pub_key_address selector input) (
      subst
        (λ b.
          (or_problem (chain.pub_key_address selector input) >>= λ expected.
          (if b then mainnet_encoding gateway else ok gateway) >>= λ actual.
          matches expected actual)
          ≡ ok tt)
        other h)

  encoded :
      (gateway : String) (selector : Selector) (input : chain.Input)
      → chain.is_fil selector ≡ true
      → check_pub_key gateway selector input ≡ ok tt
      → mainnet_encoding gateway ≡ or_problem (chain.pub_key_address selector input)
  unfolding check_pub_key
  encoded gateway selector input fil h =
      encoded_ok (chain.pub_key_address selector input) (mainnet_encoding gateway) (
        subst
          (λ b.
            (or_problem (chain.pub_key_address selector input) >>= λ expected.
            (if b then mainnet_encoding gateway else ok gateway) >>= λ actual.
            matches expected actual)
            ≡ ok tt)
          fil h)

  -- What an accepted gateway address is: on a chain of UTXOs, the address of the script of the
  -- transaction; on a chain of accounts other than that of FIL, that of its public key.
  pub record BelongsTo (gateway : String) (tx : Tx) (input : chain.Input) : Type 0 where
    no_burn : darknode.is_burn tx.selector ≡ false
    from_script :
        chain.is_utxo_based tx.selector ≡ true → chain.script_address tx.selector input ≡ ok gateway
    from_pub_key :
        chain.is_account_based tx.selector ≡ true
        → chain.is_fil tx.selector ≡ false
        → chain.pub_key_address tx.selector input ≡ ok gateway
    from_fil :
        chain.is_account_based tx.selector ≡ true
        → chain.is_fil tx.selector ≡ true
        → mainnet_encoding gateway ≡ or_problem (chain.pub_key_address tx.selector input)

  pub validate_gateway-BelongsTo :
      (gateway : String) (tx : Tx) (input : chain.Input)
      → validate_gateway gateway tx input ≡ ok tt
      → BelongsTo gateway tx input
  unfolding validate_gateway check_script check_pub_key
  validate_gateway-BelongsTo gateway tx input h =
      let r =
        both_ok (problem "Cannot store gateways for burn txes") (darknode.is_burn tx.selector)
          (chain.is_utxo_based tx.selector) (chain.is_account_based tx.selector)
          (check_script gateway tx.selector input) (check_pub_key gateway tx.selector input) h in
      record {
        no_burn = r.0;
        from_script =
            λ utxo. found_ok gateway (chain.script_address tx.selector input) (r.1.0 utxo);
        from_pub_key = λ account other. plain gateway tx.selector input other (r.1.1 account);
        from_fil = λ account fil. encoded gateway tx.selector input fil (r.1.1 account);
      }
