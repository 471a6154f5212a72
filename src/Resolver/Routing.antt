-- ===== src/Resolver/Routing.antt =====
-- In which version resolver/resolver.go submits a transaction.
use lightnode.Common.{◌≡◌, ◌≢◌, refl, sym, String, Bool, true, false, arith, Bool-cases, inl, inr}
use lightnode.Common.Eq.{string_eq, ◌==◌, ==_iff}
use lightnode.Common.Result.{Result}
use lightnode.Darknode.{Tx, Darknode}
use lightnode.JsonRpc.{JsonRpc}
use lightnode.Resolver.{Call, submitted_tx, submit_tx}

module _ (rpc : JsonRpc) (known : String → Bool) where
  module _ (darknode : Darknode) (tx_from_v1_tx : Tx → Bool → Result String rpc.Value) where
    not_old :
        (version : String) → (version == darknode.version0) ≡ false → version ≢ darknode.version0
    not_old version new h = absurd (ground (arith, new, h, ==_iff version darknode.version0))

    abbrev Submittable : Tx → Tx → Type 0
    Submittable tx submitted =
        (submitted.version ≢ darknode.version0)
        × ((submitted.hash ≡ tx.hash)
            × ((submitted.selector ≡ tx.selector) × (submitted.input ≡ tx.input)))

    submitted_tx-Submittable :
        (tx : Tx)
        → darknode.is_burn tx.selector ≡ true
        → Submittable tx (submitted_tx rpc known darknode tx_from_v1_tx tx)
    unfolding submitted_tx
    submitted_tx-Submittable tx burn = elim (Bool-cases (tx.version == darknode.version0)) [
      | inl old ↦
          rw (old, burn, submitted_tx) (λ e. darknode.versions_differ (sym e), (refl, (refl, refl)))
      | inr new ↦ rw (new, submitted_tx) (not_old tx.version new, (refl, (refl, refl)))
    ]

    -- No burn is submitted in version 0, and what is submitted differs from the request in nothing
    -- but the version.
    pub submit_tx_burn :
        (call : Call rpc) (tx : Tx)
        → darknode.is_burn tx.selector ≡ true
        → let submitted = (submit_tx rpc known darknode tx_from_v1_tx call tx).1.0 in
          (submitted.version ≢ darknode.version0)
          × ((submitted.hash ≡ tx.hash)
              × ((submitted.selector ≡ tx.selector) × (submitted.input ≡ tx.input)))
    unfolding submit_tx
    submit_tx_burn call tx burn = submitted_tx-Submittable tx burn
