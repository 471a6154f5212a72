-- ===== src/Resolver/BlockState/Legacy.antt =====
-- What ren_queryFees answers, by the entries of the block state.
use lightnode.Common.{String, ◌≡◌, ◌↔◌, refl, sym, ap, [], arith, inl, inr, All, Option-cases}
use lightnode.Common.Dict.{Dict, lookup}
use lightnode.Common.Eq.{string_eq}
use lightnode.Common.Result.{ok, Result-cases}
use lightnode.Compat.V1.State.{XState, Reader, bitcoin, zcash, bitcoin_cash}
use lightnode.Compat.V0.Fees.{ResponseQueryFees, fees_of, query_fees_response_from_state}
use lightnode.Resolver.BlockState.{collect_states, legacy_assets, fees_of_block_state}
use lightnode.Resolver.BlockState.Collected.{
  Has, Possible, States, lookup-Has, there_of, collect_states-ok,
}

module _ (reader : Reader) (state : Dict String reader.Value) where
  open reader use {Value}

  -- The block state has the three legacy assets, and the fees are theirs.
  pub record Answered (r : ResponseQueryFees) : Type 0 where
    pub btc : XState Value
    pub zec : XState Value
    pub bch : XState Value
    pub has_btc : Has reader state "BTC" btc
    pub has_zec : Has reader state "ZEC" zec
    pub has_bch : Has reader state "BCH" bch
    pub fees : r ≡ record { btc = fees_of btc; zec = fees_of zec; bch = fees_of bch }

  module _ (btc_name : reader.native_asset bitcoin ≡ "BTC")
      (zec_name : reader.native_asset zcash ≡ "ZEC")
      (bch_name : reader.native_asset bitcoin_cash ≡ "BCH") where
    answered :
        (out : States reader state) (r : ResponseQueryFees)
        → collect_states reader legacy_assets state [] ≡ ok out
        → query_fees_response_from_state reader.native_asset out ≡ ok r
        → Answered r
    unfolding query_fees_response_from_state
    answered out r h g = elim (Option-cases (lookup "BTC" out)) [
      | inl p ↦ absurd (ground (arith, p, btc_name))
      | inr (x, p) ↦ elim (Option-cases (lookup "ZEC" out)) [
        | inl q ↦ absurd (ground (arith, p, q, btc_name, zec_name))
        | inr (y, q) ↦ elim (Option-cases (lookup "BCH" out)) [
          | inl s ↦ absurd (ground (arith, p, q, s, btc_name, zec_name, bch_name))
          | inr (z, s) ↦ record {
            btc = x;
            zec = y;
            bch = z;
            has_btc = lookup-Has reader state legacy_assets out "BTC" x (inl refl) h p;
            has_zec = lookup-Has reader state legacy_assets out "ZEC" y (inr (inl refl)) h q;
            has_bch = lookup-Has reader state legacy_assets out "BCH" z (inr (inr (inl refl))) h s;
            fees = ground (arith, p, q, s, btc_name, zec_name, bch_name);
          }
        ]
      ]
    ]

    forward : (r : ResponseQueryFees) → fees_of_block_state reader state ≡ ok r → Answered r
    unfolding fees_of_block_state
    forward r h = elim (Result-cases (collect_states reader legacy_assets state [])) [
      | inr (e, p) ↦ absurd (ground (arith, p))
      | inl (out, p) ↦
          elim (Result-cases (query_fees_response_from_state reader.native_asset out)) [
            | inr (e, q) ↦ absurd (ground (arith, p, q))
            | inl (fees, q) ↦ answered out r p (ground (arith, p, q))
          ]
    ]

    backward : (r : ResponseQueryFees) → Answered r → fees_of_block_state reader state ≡ ok r
    unfolding fees_of_block_state query_fees_response_from_state
    backward r a =
        let all : All (Possible reader state) legacy_assets =
          (inr (a.btc, a.has_btc), (inr (a.zec, a.has_zec), (inr (a.bch, a.has_bch), tt))) in
        let (out, h) = collect_states-ok reader state legacy_assets [] all in
        let p = there_of reader state legacy_assets out "BTC" a.btc (inl refl) h a.has_btc in
        let q = there_of reader state legacy_assets out "ZEC" a.zec (inr (inl refl)) h a.has_zec in
        let s =
          there_of reader state legacy_assets out "BCH" a.bch (inr (inr (inl refl))) h a.has_bch in
        rw (h, btc_name, p, zec_name, q, bch_name, s) (ap ok (sym a.fees))

    -- ren_queryFees finds fees in a block state exactly where it has the three legacy assets and
    -- they decode, and then they are the fees of those.
    pub fees_of_block_state_iff :
        (r : ResponseQueryFees) → (fees_of_block_state reader state ≡ ok r) ↔ Answered r
    fees_of_block_state_iff r = (forward r, backward r)
