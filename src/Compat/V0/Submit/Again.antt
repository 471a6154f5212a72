-- ===== src/Compat/V0/Submit/Again.antt =====
-- A transaction of version 0 that was submitted before is answered by what the database has.
use lightnode.Common.{
  ℕ, String, ◌≡◌, refl, sym, subst, ◌∙◌, Option, none, some, arith, inl, inr, length,
}
use lightnode.Common.Eq.{string_eq, ==_refl}
use lightnode.Common.Result.{ok, err, Result-cases}
use lightnode.Darknode.{LockInput, Typed, Tx}
use lightnode.Database.{Database}
use lightnode.Database.Rows.{tx_fields}
use lightnode.Database.Txs.{insert_tx}
use lightnode.Database.RoundTrip.{HasSizes, tx-insert_tx}
use lightnode.Abi.Contracts.{validate_v0_tx}
use lightnode.Compat.V0.Store.{
  CompatError, not_found, V0Tx, lookup_string, get_v1_tx_from_tx, persist_tx_mappings,
}
use lightnode.Compat.V0.Store.Mapping.{get_v1_tx_from_tx-persist_tx_mappings}
use lightnode.Compat.V0.Submit.{Compat, converted, mapped_txs, on_persisted, v1_tx_params_from_tx}

module _ (c : Compat) where
  open c use {texts, padded_big_bytes, redis, columns, darknode}

  -- What is stored for a transaction spends the same, and is in version 0.
  record Maps (v0tx stored : V0Tx padded_big_bytes) (v1tx : Tx) : Type 0 where
    same_spent :
        lookup_string texts padded_big_bytes stored ≡ lookup_string texts padded_big_bytes v0tx
    in_version0 : v1tx.version ≡ darknode.version0

  mapped_txs-Maps :
      (v0tx stored : V0Tx padded_big_bytes) (v1tx : Tx)
      → mapped_txs c v0tx ≡ ok (stored, v1tx)
      → Maps v0tx stored v1tx
  unfolding mapped_txs lookup_string
  mapped_txs-Maps v0tx stored v1tx h = elim (Result-cases (converted c v0tx)) [
    | inr (e, p) ↦ absurd (ground (arith, p))
    | inl ((t, (hash, version)), p) ↦
        elim (Result-cases (darknode.new_tx_hash version t.selector t.input)) [
          | inr (e, q) ↦ absurd (ground (arith, p, q))
          | inl (k, q) ↦ record {
            same_spent = ground (arith, p, q);
            in_version0 = ground (arith, p, q);
          }
        ]
  ]

  record Submitted (v0tx : V0Tx padded_big_bytes) (v1tx : Tx) (s s' : redis.State) : Type 0 where
    stored : V0Tx padded_big_bytes
    maps : Maps v0tx stored v1tx
    persisted : persist_tx_mappings texts padded_big_bytes redis columns stored v1tx s ≡ (none, s')

  on_persisted-eq-ok :
      (t v1tx : Tx) (r : Option CompatError × redis.State) (s' : redis.State)
      → on_persisted c t r ≡ (ok v1tx, s')
      → (t ≡ v1tx) × (r ≡ (none, s'))
  on_persisted-eq-ok t v1tx (none, s) s' h = ground arith
  on_persisted-eq-ok t v1tx (some e, s) s' h = absurd (ground arith)

  submitted :
      (fault : Option String) (v0tx : V0Tx padded_big_bytes) (v1tx : Tx) (db : Database)
      (s s' : redis.State)
      → get_v1_tx_from_tx texts padded_big_bytes redis columns darknode fault v0tx db s
        ≡ err not_found
      → v1_tx_params_from_tx c fault v0tx db s ≡ (ok v1tx, s')
      → Submitted v0tx v1tx s s'
  unfolding v1_tx_params_from_tx
  submitted fault v0tx v1tx db s s' new h =
      elim (Result-cases (validate_v0_tx padded_big_bytes v0tx)) [
        | inr (e, p) ↦ absurd (ground (arith, p))
        | inl (u, p) ↦ elim (Result-cases (mapped_txs c v0tx)) [
          | inr (e, q) ↦ absurd (ground (arith, p, q, new))
          | inl ((stored, t), q) ↦
              let r = persist_tx_mappings texts padded_big_bytes redis columns stored t s in
              let done : on_persisted c t r ≡ (ok v1tx, s') = ground (arith, p, q, new) in
              let (same, kept) = on_persisted-eq-ok t v1tx r s' done in
              record {
                stored = stored;
                maps = subst (Maps v0tx stored) same (mapped_txs-Maps v0tx stored t q);
                persisted =
                    subst
                      (λ x.
                        persist_tx_mappings texts padded_big_bytes redis columns stored x s
                        ≡ (none, s'))
                      same kept;
              }
        ]
      ]

  -- Where a transaction of version 0 was new and its submission was answered by a transaction of
  -- version 1, which was then stored without an error, any valid transaction that spends the same
  -- is answered by the stored one, and changes no mapping.
  pub v1_tx_params_from_tx_again :
      (fault insert_fault : Option String) (now : ℕ) (v0tx w : V0Tx padded_big_bytes) (v1tx : Tx)
      (i : LockInput) (input : Typed) (db next : Database) (s s' : redis.State)
      → get_v1_tx_from_tx texts padded_big_bytes redis columns darknode fault v0tx db s
        ≡ err not_found
      → v1_tx_params_from_tx c fault v0tx db s ≡ (ok v1tx, s')
      → length v1tx.hash ≡ 32
      → HasSizes i
      → tx_fields v1tx.input ≡ ok i
      → darknode.encode i ≡ ok input
      → insert_tx columns insert_fault now v1tx db ≡ (none, next)
      → validate_v0_tx padded_big_bytes w ≡ ok tt
      → lookup_string texts padded_big_bytes w ≡ lookup_string texts padded_big_bytes v0tx
      → v1_tx_params_from_tx c none w next s' ≡ (ok (record v1tx { input = input }), s')
  unfolding v1_tx_params_from_tx
  v1_tx_params_from_tx_again fault insert_fault now v0tx w v1tx i input db next s s' new first size
        sizes fields encoded inserted valid same =
      let m = submitted fault v0tx v1tx db s s' new first in
      let back =
        get_v1_tx_from_tx-persist_tx_mappings texts padded_big_bytes redis columns darknode m.stored
          w v1tx none next s s' size m.persisted (same ∙ sym m.maps.same_spent) in
      let read =
        tx-insert_tx columns darknode insert_fault now v1tx i db next size sizes fields inserted in
      rw (valid, back, read, encoded, m.maps.in_version0, ==_refl darknode.version0) refl
