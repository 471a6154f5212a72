-- ===== src/Resolver/BlockState/Collected.antt =====
-- What the handlers collect of a block state: for each of their assets what it has, decoded.
use lightnode.Common.{
  String, ◌≡◌, refl, sym, ap, ◌∙◌, subst, none, some, List, [], ◌∷◌, arith, inl, inr, All, ◌⊎◌,
  Option-cases,
}
use lightnode.Common.Dict.{Dict, lookup, insert, lookup-insert}
use lightnode.Common.Eq.{string_eq, ==_iff, ==_refl}
use lightnode.Common.Result.{ok, Result-cases}
use lightnode.Compat.V1.State.{XState, Reader}
use lightnode.Resolver.BlockState.{collect_states}

module _ (reader : Reader) (state : Dict String reader.Value) where
  open reader use {Value, decode_xstate}

  -- The block state has an entry for the asset, which decodes.
  pub record Has (asset : String) (x : XState Value) : Type 0 where
    pub val : Value
    pub found : lookup asset state ≡ some val
    pub decoded : decode_xstate val ≡ ok x

  abbrev pub States : Type 0
  States = Dict String (XState Value)

  -- What was collected for an asset stays, and one that the block state does not have is not
  -- collected.
  kept :
      (assets : List String) (collected out : States) (a : String) (x : XState Value)
      → Has a x
      → lookup a collected ≡ some x
      → collect_states reader assets state collected ≡ ok out
      → lookup a out ≡ some x
  unfolding collect_states
  kept [] collected out a x has now h = ground arith
  kept (b ∷ assets) collected out a x has now h = elim (Option-cases (lookup b state)) [
    | inl p ↦ kept assets collected out a x has now (ground (arith, p))
    | inr (v, p) ↦ elim (Result-cases (decode_xstate v)) [
      | inr (e, q) ↦ absurd (ground (arith, p, q))
      | inl (y, q) ↦
          kept assets (insert b y collected) out a x has
            (ground
              (arith, p, q, has.found, has.decoded, lookup-insert b a y collected, ==_iff a b))
            (ground (arith, p, q))
    ]
  ]

  absent :
      (assets : List String) (collected out : States) (a : String)
      → lookup a state ≡ none
      → collect_states reader assets state collected ≡ ok out
      → lookup a out ≡ lookup a collected
  unfolding collect_states
  absent [] collected out a none_there h = ground arith
  absent (b ∷ assets) collected out a none_there h = elim (Option-cases (lookup b state)) [
    | inl p ↦ absent assets collected out a none_there (ground (arith, p))
    | inr (v, p) ↦ elim (Result-cases (decode_xstate v)) [
      | inr (e, q) ↦ absurd (ground (arith, p, q))
      | inl (y, q) ↦
          absent assets (insert b y collected) out a none_there (ground (arith, p, q))
          ∙ ground (arith, p, none_there, lookup-insert b a y collected, ==_iff a b)
    ]
  ]

  abbrev pub In : String → List String → Type 0
  In a [] = ⊥
  In a (b ∷ assets) = (a ≡ b) ⊎ In a assets

  -- What the block state has for an asset of the loop decodes, and is collected.
  record Collected (a : String) (out : States) : Type 0 where
    x : XState Value
    has : Has a x
    there : lookup a out ≡ some x

  head-Collected :
      (a : String) (assets : List String) (collected out : States) (v : Value)
      → lookup a state ≡ some v
      → collect_states reader (a ∷ assets) state collected ≡ ok out
      → Collected a out
  unfolding collect_states
  head-Collected a assets collected out v p h = elim (Result-cases (decode_xstate v)) [
    | inr (e, q) ↦ absurd (ground (arith, p, q))
    | inl (y, q) ↦
        let has : Has a y = record { val = v; found = p; decoded = q } in
        record {
          x = y;
          has = has;
          there =
              kept assets (insert a y collected) out a y has
                (ground (arith, lookup-insert a a y collected, ==_refl a)) (ground (arith, p, q));
        }
  ]

  rest_collected :
      (b : String) (assets : List String) (collected out : States)
      → collect_states reader (b ∷ assets) state collected ≡ ok out
      → (c : States) × (collect_states reader assets state c ≡ ok out)
  unfolding collect_states
  rest_collected b assets collected out h = elim (Option-cases (lookup b state)) [
    | inl p ↦ (collected, ground (arith, p))
    | inr (v, p) ↦ elim (Result-cases (decode_xstate v)) [
      | inr (e, q) ↦ absurd (ground (arith, p, q))
      | inl (y, q) ↦ (insert b y collected, ground (arith, p, q))
    ]
  ]

  rest-Collected :
      (assets : List String) (collected out : States) (a : String) (v : Value)
      → In a assets
      → lookup a state ≡ some v
      → collect_states reader assets state collected ≡ ok out
      → Collected a out
  rest-Collected [] collected out a v i p h = absurd i
  rest-Collected (b ∷ assets) collected out a v (inl same) p h =
      head-Collected a assets collected out v p
        (subst (λ c. collect_states reader (c ∷ assets) state collected ≡ ok out) (sym same) h)
  rest-Collected (b ∷ assets) collected out a v (inr i) p h =
      let (c, more) = rest_collected b assets collected out h in
      rest-Collected assets c out a v i p more

  -- The block state lacks the asset, or has it.
  abbrev pub Possible : String → Type 0
  Possible a = (lookup a state ≡ none) ⊎ ((x : XState Value) × Has a x)

  pub collect_states-ok :
      (assets : List String) (collected : States)
      → All Possible assets
      → (out : States) × (collect_states reader assets state collected ≡ ok out)
  unfolding collect_states
  collect_states-ok [] collected all = (collected, refl)
  collect_states-ok (b ∷ assets) collected (inl gone, all) =
      let (out, h) = collect_states-ok assets collected all in (out, ground (arith, gone, h))
  collect_states-ok (b ∷ assets) collected (inr (x, has), all) =
      let (out, h) = collect_states-ok assets (insert b x collected) all in
      (out, ground (arith, has.found, has.decoded, h))

  Has-unique : (a : String) (x y : XState Value) → Has a x → Has a y → x ≡ y
  Has-unique a x y h g = ground (arith, h.found, g.found, h.decoded, g.decoded)

  -- What was collected for an asset of the loop is what the block state has.
  pub lookup-Has :
      (assets : List String) (out : States) (a : String) (x : XState Value)
      → In a assets
      → collect_states reader assets state [] ≡ ok out
      → lookup a out ≡ some x
      → Has a x
  unfolding lookup
  lookup-Has assets out a x i h there = elim (Option-cases (lookup a state)) [
    | inl p ↦ absurd (ground (arith, absent assets [] out a p h))
    | inr (v, p) ↦
        let c = rest-Collected assets [] out a v i p h in
        subst (Has a) (ground (arith, c.there, there)) c.has
  ]

  pub there_of :
      (assets : List String) (out : States) (a : String) (x : XState Value)
      → In a assets
      → collect_states reader assets state [] ≡ ok out
      → Has a x
      → lookup a out ≡ some x
  there_of assets out a x i h has =
      let c = rest-Collected assets [] out a has.val i has.found h in
      c.there ∙ ap some (Has-unique a c.x x c.has has)

  pub lookup-none :
      (assets : List String) (out : States) (a : String)
      → lookup a state ≡ none
      → collect_states reader assets state [] ≡ ok out
      → lookup a out ≡ none
  unfolding lookup
  lookup-none assets out a gone h = absent assets [] out a gone h

  -- A block state that lacks an asset of the loop, or has it.
  pub collected_cases :
      (assets : List String) (out : States) (a : String)
      → In a assets
      → collect_states reader assets state [] ≡ ok out
      → ((lookup a state ≡ none) × (lookup a out ≡ none))
        ⊎ ((x : XState Value) × (Has a x) × (lookup a out ≡ some x))
  collected_cases assets out a i h = elim (Option-cases (lookup a state)) [
    | inl p ↦ inl (p, lookup-none assets out a p h)
    | inr (v, p) ↦ let c = rest-Collected assets [] out a v i p h in inr (c.x, c.has, c.there)
  ]
