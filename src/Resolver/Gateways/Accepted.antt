-- ===== src/Resolver/Gateways/Accepted.antt =====
-- What an accepted submission of resolver/resolver.go does, and what ren_queryGateway then answers.
use lightnode.Common.{
  ℕ, ◌≡◌, ◌⊎◌, inl, inr, refl, subst, String, Option, none, some, arith, ltb, Bool-cases,
}
use lightnode.Common.Result.{Result, ok, err}
use lightnode.Darknode.{Tx, Darknode, LockInput}
use lightnode.JsonRpc.{JsonRpc, Error}
use lightnode.Database.{DbError, no_rows, nil_dereference, Columns, Database}
use lightnode.Database.Rows.{gateway_fields}
use lightnode.Database.Gateways.{gateway, gateway_count, insert_gateway}
use lightnode.Database.RoundTrip.{HasSizes, gateway_back, gateway-insert_gateway}
use lightnode.Resolver.{failed}
use lightnode.Resolver.Validation.{Gateway, Problem, validate_gateway, problem, out_of_range}
use lightnode.Resolver.Gateways.{
  Faults, Answered, refuse, accept, on_insertion, on_count, on_existing, on_validation, on_input,
  submit_gateway,
}

module _ (rpc : JsonRpc) (columns : Columns) (darknode : Darknode) (chain : Gateway)
    (submitted : rpc.Value) (faults : Faults) (now : ℕ) (id : rpc.RequestId) where
  -- An answer without an error: the gateway was there, or it was inserted.
  abbrev Accepts : Database → String → Tx → Answered rpc columns darknode chain submitted → Type 0
  Accepts db address tx none = Unit
  Accepts db address tx (some answer) =
      rpc.error answer.0 ≡ none
      → ((found : Tx) × ((gateway columns darknode faults.on_read address db ≡ ok found)
            × (answer.1 ≡ db)))
        ⊎ (insert_gateway columns faults.on_insert now address tx db ≡ (none, answer.1))

  refused :
      {P : Type 0} {v : Option rpc.Value} (e : Error)
      → rpc.error (rpc.new_response id v (some e)) ≡ none
      → P
  refused {v = v} e h = absurd (ground (arith, h, rpc.error-new_response id v (some e)))

  on_insertion-Accepts :
      (address : String) (tx : Tx) (db : Database) (inserted : Option DbError × Database)
      → insert_gateway columns faults.on_insert now address tx db ≡ inserted
      → Accepts db address tx (on_insertion rpc columns darknode chain submitted id inserted)
  unfolding refuse accept failed
  on_insertion-Accepts address tx db (some e, next) h = λ r. refused _ r
  on_insertion-Accepts address tx db (none, next) h = λ r. inr h

  on_count-Accepts :
      (address : String) (tx : Tx) (db : Database) (count : Result DbError ℕ)
      → Accepts db address tx
          (on_count rpc columns darknode chain submitted faults now id address tx db count)
  unfolding refuse failed
  on_count-Accepts address tx db (err e) = λ r. refused _ r
  on_count-Accepts address tx db (ok count) = elim (Bool-cases (ltb db.max_gateway_count count)) [
    | inl over ↦ rw over (λ r. refused _ r)
    | inr room ↦ rw room (
        on_insertion-Accepts address tx db
          (insert_gateway columns faults.on_insert now address tx db) refl)
  ]

  on_existing-Accepts :
      (address : String) (tx : Tx) (db : Database) (found : Result DbError Tx)
      → gateway columns darknode faults.on_read address db ≡ found
      → Accepts db address tx
          (on_existing rpc columns darknode chain submitted faults now id address tx db found)
  unfolding refuse accept failed
  on_existing-Accepts address tx db (ok t) h = λ r. inl (t, (h, refl))
  on_existing-Accepts address tx db (err no_rows) h =
      on_count-Accepts address tx db (gateway_count faults.on_count db)
  on_existing-Accepts address tx db (err nil_dereference) h = tt
  on_existing-Accepts address tx db (err _) h = λ r. refused _ r

  on_validation-Accepts :
      (address : String) (tx : Tx) (db : Database) (valid : Result Problem (Unit {0}))
      → Accepts db address tx
          (on_validation rpc columns darknode chain submitted faults now id address tx db valid)
  unfolding failed
  on_validation-Accepts address tx db (err out_of_range) = tt
  on_validation-Accepts address tx db (err (problem e)) = λ r. refused _ r
  on_validation-Accepts address tx db (ok _) =
      on_existing-Accepts address tx db (gateway columns darknode faults.on_read address db) refl

  on_input-Accepts :
      (address : String) (tx : Tx) (db : Database) (input : Result String chain.Input)
      → Accepts db address tx
          (on_input rpc columns darknode chain submitted faults now id address tx db input)
  unfolding failed
  on_input-Accepts address tx db (err e) = λ r. refused _ r
  on_input-Accepts address tx db (ok input) =
      on_validation-Accepts address tx db (validate_gateway darknode chain address tx input)

  -- A submission that is answered without an error found the gateway in the database, which it then
  -- leaves as it was, or has inserted it.
  pub submit_gateway_accepts :
      (address : String) (tx : Tx) (db : Database) (response : rpc.Response) (next : Database)
      → submit_gateway rpc columns darknode chain submitted faults now id address tx db
        ≡ some (response, next)
      → rpc.error response ≡ none
      → ((found : Tx) × ((gateway columns darknode faults.on_read address db ≡ ok found)
            × (next ≡ db)))
        ⊎ (insert_gateway columns faults.on_insert now address tx db ≡ (none, next))
  unfolding submit_gateway
  submit_gateway_accepts address tx db response next e =
      subst (Accepts db address tx) e (on_input-Accepts address tx db (chain.decode_input tx.input))

  -- After an accepted submission under a new address, the gateway is read back under that address.
  pub gateway-submit_gateway :
      (address : String) (tx : Tx) (i : LockInput) (db : Database) (response : rpc.Response)
      (next : Database)
      → submit_gateway rpc columns darknode chain submitted faults now id address tx db
        ≡ some (response, next)
      → rpc.error response ≡ none
      → gateway columns darknode faults.on_read address db ≡ err no_rows
      → HasSizes i
      → gateway_fields tx.input ≡ ok i
      → gateway columns darknode none address next ≡ gateway_back columns darknode tx i
  gateway-submit_gateway address tx i db response next e accepted absent sizes fields =
      elim (submit_gateway_accepts address tx db response next e accepted) [
        | inl (found, (there, same)) ↦ absurd (ground (arith, there, absent))
        | inr inserted ↦
            gateway-insert_gateway columns darknode faults.on_insert now address tx i db next sizes
              fields inserted
      ]
