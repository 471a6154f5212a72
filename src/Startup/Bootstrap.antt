-- ===== src/Startup/Bootstrap.antt =====
-- cmd/lightnode/lightnode.go: the configuration that the first bootstrap node gives which answers,
-- and the distributed public key of a block state.
use lightnode.Common.{String, ◌≡◌, ◌↔◌, inl, inr, refl, Option, none, some, List, [], ◌∷◌, arith}
use lightnode.Common.Dict.{Dict, lookup}
use lightnode.Common.Eq.{string_eq}
use lightnode.Common.Result.{Result, ok, err, Result-cases}
use lightnode.Darknode.{Bytes}
use lightnode.Dispatcher.Requests.{http_url}

-- The fetch of a configuration from a URL; an address without a URL is asked under the empty one.
unfoldable pub addr_to_url : Bytes → Bytes
unfolding http_url
addr_to_url address = elim (http_url address) [ none ↦ [] | some url ↦ url ]

module _ {Config : Type 0} (fetch_config : Bytes → Result String Config) where
  abbrev could_not_load : String
  could_not_load = "could not load config from darknodes"

  abbrev or_next : List Bytes → Result String Config → Result String Config → Result String Config
  or_next rest (ok conf) next = ok conf
  or_next [] (err e) next = err e
  or_next (a ∷ rest) (err e) next = next

  unfoldable pub get_config_from_bootstrap : List Bytes → Result String Config
  get_config_from_bootstrap [] = err could_not_load
  get_config_from_bootstrap (address ∷ rest) =
      or_next rest (fetch_config (addr_to_url address)) (get_config_from_bootstrap rest)

  -- The first of the addresses that answers.
  pub data Answers : List Bytes → Config → Type 0 where
    here :
        (address : Bytes) (rest : List Bytes) (conf : Config)
        → fetch_config (addr_to_url address) ≡ ok conf
        → Answers (address ∷ rest) conf
    later :
        (address next : Bytes) (rest : List Bytes) (conf : Config) (e : String)
        → fetch_config (addr_to_url address) ≡ err e
        → Answers (next ∷ rest) conf
        → Answers (address ∷ next ∷ rest) conf

  answered_by :
      (addresses : List Bytes) (conf : Config)
      → Answers addresses conf
      → get_config_from_bootstrap addresses ≡ ok conf
  unfolding get_config_from_bootstrap
  answered_by _ _ (here address rest conf p) = rw p refl
  answered_by _ _ (later address next rest conf e p answers) =
      rw p (answered_by (next ∷ rest) conf answers)

  answers_of :
      (addresses : List Bytes) (conf : Config)
      → get_config_from_bootstrap addresses ≡ ok conf
      → Answers addresses conf
  unfolding get_config_from_bootstrap
  answers_of [] conf h = absurd (ground arith)
  answers_of (address ∷ []) conf h = elim (Result-cases (fetch_config (addr_to_url address))) [
    | inl (found, p) ↦ here address [] conf (ground (arith, p))
    | inr (e, p) ↦ absurd (ground (arith, p))
  ]
  answers_of (address ∷ next ∷ rest) conf h =
      let more = answers_of (next ∷ rest) conf in
      elim (Result-cases (fetch_config (addr_to_url address))) [
        | inl (found, p) ↦ here address (next ∷ rest) conf (ground (arith, p))
        | inr (e, p) ↦ later address next rest conf e p (more (ground (arith, p)))
      ]

  -- A configuration is found exactly where a node answers with it and those before it fail.
  pub get_config_from_bootstrap_iff :
      (addresses : List Bytes) (conf : Config)
      → (get_config_from_bootstrap addresses ≡ ok conf) ↔ Answers addresses conf
  get_config_from_bootstrap_iff addresses conf =
      (answers_of addresses conf, answered_by addresses conf)

-- What parsePubkey calls: pack.Decode to the public keys of the primary shards, and surge.FromBinary.
module _ {Value PubKey : Type 0} (decode_system : Value → Result String (List Bytes))
    (from_binary : Bytes → Result String PubKey) where
  abbrev first_key : Result String (List Bytes) → Result String PubKey
  first_key (err e) = err e
  first_key (ok []) = err "nil primary shard"
  first_key (ok (key ∷ keys)) = from_binary key

  abbrev on_system_contract : Option Value → Result String PubKey
  on_system_contract none = err "system contract is nil"
  on_system_contract (some contract) = first_key (decode_system contract)

  unfoldable pub parse_pubkey : Dict String Value → Result String PubKey
  parse_pubkey state = on_system_contract (lookup "System" state)
