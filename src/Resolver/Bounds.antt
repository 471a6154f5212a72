-- ===== src/Resolver/Bounds.antt =====
-- What a submitted gateway of resolver/resolver.go leaves in the database.
use lightnode.Common.{
  ℕ, suc, ◌≤◌, ◌≡◌, refl, subst, false, String, Option, none, some, [], ◌∷◌, arith, length,
  length-append, ltb, Option-cases, Bool-cases, inl, inr,
}
use lightnode.Common.Result.{Result, ok, err, Result-cases}
use lightnode.Darknode.{Tx, Darknode}
use lightnode.JsonRpc.{JsonRpc}
use lightnode.Database.{DbError, no_rows, nil_dereference, Columns, GatewayRow, Database}
use lightnode.Database.Rows.{gateway_fields, gateway_row}
use lightnode.Database.Gateways.{
  find_gateway, gateway, gateway_count, insert_gateway, exec_insert_gateway,
}
use lightnode.Resolver.Validation.{Gateway, Problem, validate_gateway, problem, out_of_range}
use lightnode.Resolver.Gateways.{
  Faults, Answered, refuse, accept, on_insertion, on_count, on_existing, on_validation, on_input,
  submit_gateway,
}

-- The database admits one gateway more than its maximum.
abbrev pub IsWithinMax : Database → Type 0
IsWithinMax db = length db.gateways ≤ suc db.max_gateway_count

-- A statement that keeps a database, or adds a gateway to it.
abbrev Grows : Database → Database → Type 0
Grows db next =
    (length next.gateways ≤ suc (length db.gateways))
    × (next.max_gateway_count ≡ db.max_gateway_count)

exec_insert_gateway-Grows :
    (fault : Option String) (row : GatewayRow) (db : Database)
    → Grows db (exec_insert_gateway fault row db).1
unfolding exec_insert_gateway
exec_insert_gateway-Grows (some e) row db = (omega arith, refl)
exec_insert_gateway-Grows none row db =
    elim (Option-cases (find_gateway row.gateway_address db.gateways)) [
      | inl free ↦
          rw (free, exec_insert_gateway) (omega (arith, length-append db.gateways (row ∷ [])), refl)
      | inr (found, taken) ↦ rw (taken, exec_insert_gateway) (omega arith, refl)
    ]

insert_gateway-Grows :
    (columns : Columns) (fault : Option String) (now : ℕ) (address : String) (tx : Tx)
    (db : Database)
    → Grows db (insert_gateway columns fault now address tx db).1
unfolding insert_gateway
insert_gateway-Grows columns fault now address tx db =
    elim (Result-cases (gateway_fields tx.input)) [
      | inl (i, fields) ↦
          rw (fields, insert_gateway)
            (exec_insert_gateway-Grows fault (gateway_row columns now address tx i) db)
      | inr (e, failed) ↦ rw (failed, insert_gateway) (omega arith, refl)
    ]

still_within : (n m most next : ℕ) → (m ≤ suc n) × (next ≡ most) → ltb most n ≡ false → m ≤ suc next
still_within n m most next grown room = ground (arith, grown, room)

module _ (rpc : JsonRpc) (columns : Columns) (darknode : Darknode) (chain : Gateway)
    (submitted : rpc.Value) (faults : Faults) (now : ℕ) (id : rpc.RequestId) where
  abbrev Keeps : Answered rpc columns darknode chain submitted → Type 0
  Keeps none = Unit
  Keeps (some answer) = IsWithinMax answer.1

  on_insertion-Keeps :
      (inserted : Option DbError × Database)
      → IsWithinMax inserted.1
      → Keeps (on_insertion rpc columns darknode chain submitted id inserted)
  unfolding refuse accept
  on_insertion-Keeps (some e, db) h = h
  on_insertion-Keeps (none, db) h = h

  on_count-Keeps :
      (address : String) (tx : Tx) (db : Database) (count : Result DbError ℕ)
      → IsWithinMax db
      → ((n : ℕ) → count ≡ ok n → n ≡ length db.gateways)
      → Keeps (on_count rpc columns darknode chain submitted faults now id address tx db count)
  unfolding refuse
  on_count-Keeps address tx db (err e) h counts = h
  on_count-Keeps address tx db (ok count) h counts =
      elim (Bool-cases (ltb db.max_gateway_count count)) [
        | inl over ↦ rw over h
        | inr room ↦ rw room (
            on_insertion-Keeps (insert_gateway columns faults.on_insert now address tx db) (
              still_within (length db.gateways)
                (length (insert_gateway columns faults.on_insert now address tx db).1.gateways)
                db.max_gateway_count
                (insert_gateway columns faults.on_insert now address tx db).1.max_gateway_count
                (insert_gateway-Grows columns faults.on_insert now address tx db)
                (subst (λ n. ltb db.max_gateway_count n ≡ false) (counts count refl) room)))
      ]

  counted :
      (db : Database) (n : ℕ) → gateway_count faults.on_count db ≡ ok n → n ≡ length db.gateways
  unfolding gateway_count
  counted db n h = elim (Option-cases faults.on_count) [
    | inl quiet ↦ ground (arith, h, quiet)
    | inr (e, fault) ↦ absurd (ground (arith, h, fault))
  ]

  on_existing-Keeps :
      (address : String) (tx : Tx) (db : Database) (found : Result DbError Tx)
      → IsWithinMax db
      → Keeps (on_existing rpc columns darknode chain submitted faults now id address tx db found)
  unfolding refuse accept
  on_existing-Keeps address tx db (ok t) h = h
  on_existing-Keeps address tx db (err no_rows) h =
      on_count-Keeps address tx db (gateway_count faults.on_count db) h (counted db)
  on_existing-Keeps address tx db (err nil_dereference) h = tt
  on_existing-Keeps address tx db (err _) h = h

  on_validation-Keeps :
      (address : String) (tx : Tx) (db : Database) (valid : Result Problem (Unit {0}))
      → IsWithinMax db
      → Keeps (on_validation rpc columns darknode chain submitted faults now id address tx db valid)
  on_validation-Keeps address tx db (err out_of_range) h = tt
  on_validation-Keeps address tx db (err (problem e)) h = h
  on_validation-Keeps address tx db (ok _) h =
      on_existing-Keeps address tx db (gateway columns darknode faults.on_read address db) h

  on_input-Keeps :
      (address : String) (tx : Tx) (db : Database) (input : Result String chain.Input)
      → IsWithinMax db
      → Keeps (on_input rpc columns darknode chain submitted faults now id address tx db input)
  on_input-Keeps address tx db (err e) h = h
  on_input-Keeps address tx db (ok input) h =
      on_validation-Keeps address tx db (validate_gateway darknode chain address tx input) h

  -- No submission makes the gateways more than one above their maximum, whatever the driver
  -- reports.
  pub submit_gateway-IsWithinMax :
      (address : String) (tx : Tx) (db : Database) (response : rpc.Response) (next : Database)
      → IsWithinMax db
      → submit_gateway rpc columns darknode chain submitted faults now id address tx db
        ≡ some (response, next)
      → IsWithinMax next
  unfolding submit_gateway
  submit_gateway-IsWithinMax address tx db response next h e =
      subst Keeps e (on_input-Keeps address tx db (chain.decode_input tx.input) h)
