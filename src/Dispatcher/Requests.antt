-- ===== src/Dispatcher/Requests.antt =====
-- dispatcher/dispatcher.go: which Darknodes are asked, under which URL, and how their responses
-- become one. A goroutine per address is a call of the client; the order in which the responses
-- arrive is an argument, and a panic is the answer `none`.
pub mod Majority
use lightnode.Common.{
  ℕ, zero, suc, ◌+◌, ◌-◌, ◌^◌, ◌<◌, String, Bool, Option, none, some, List, [], ◌∷◌, ◌++◌, ltb,
  length, if◌then◌else◌,
}
use lightnode.Common.Ascii.{codes, split}
use lightnode.Common.Eq.{string_eq, number_eq, ◌==◌}
use lightnode.Common.Int.{ℤ, pos, negsuc}
use lightnode.Common.Result.{Result, ok, err}
use lightnode.Darknode.{Bytes}
use lightnode.JsonRpc.{JsonRpc, internal}
use lightnode.Abi.Decimal.{decimal, set_string}
use lightnode.MultiAddrStore.{
  Table, MultiAddrStore, get_address, random_bootstrap_addrs, random_addrs,
}
use lightnode.Dispatcher.Iterator.{collect_first, collect_majority}

-- strconv.Atoi: a decimal integer of 64 bits.
abbrev pub in_int64 : Option ℤ → Option ℤ
in_int64 none = none
in_int64 (some (pos n)) = if ltb n (2 ^ 63) then some (pos n) else none
in_int64 (some (negsuc n)) = if ltb n (2 ^ 63) then some (negsuc n) else none

-- port + 1, which wraps.
unfoldable pub next_port : ℤ → ℤ
next_port (pos n) = if n == 2 ^ 63 - 1 then negsuc (2 ^ 63 - 1) else pos (n + 1)
next_port (negsuc zero) = pos 0
next_port (negsuc (suc n)) = negsuc n

abbrev pub with_port : Bytes → Option ℤ → Option Bytes
with_port host none = none
with_port host (some port) = some (codes "http://" ++ (host ++ (58 ∷ decimal (next_port port))))

abbrev pub of_parts : List Bytes → Option Bytes
of_parts (host ∷ (port ∷ [])) = with_port host (in_int64 (set_string port))
of_parts _ = none

-- The URL of the JSON-RPC server at an address.
unfoldable pub http_url : Bytes → Option Bytes
http_url address = of_parts (split 58 address)

module _ (rpc : JsonRpc) (table : Table) (value_of : table.Address → Bytes) where
  -- The client: the response of the server at a URL, none where the request fails.
  abbrev pub response_at : (Bytes → Option rpc.Response) → Option Bytes → Option rpc.Response
  response_at send none = none
  response_at send (some url) = send url

  abbrev pub deliver : Option rpc.Response → List rpc.Response → List rpc.Response
  deliver none rest = rest
  deliver (some response) rest = response ∷ rest

  unfoldable pub responses_of :
      (Bytes → Option rpc.Response) → List table.Address → List rpc.Response
  responses_of send [] = []
  responses_of send (address ∷ addresses) =
      deliver (response_at send (http_url (value_of address))) (responses_of send addresses)

  -- What the store draws, and the order of arrival.
  pub record Chance : Type 0 where
    pub perm : ℕ → List ℕ
    pub shuffle : List table.Address → List table.Address
    pub arrive : List rpc.Response → List rpc.Response

  abbrev pub drawn {ℓ} : {A : Type ℓ} → Option A → Option (Result String A)
  drawn none = none
  drawn (some a) = some (ok a)

  abbrev pub one_address : Result String table.Address → Result String (List table.Address)
  one_address (err e) = err e
  one_address (ok address) = ok (address ∷ [])

  unfoldable pub multi_addr : String → MultiAddrStore table → Result String (List table.Address)
  multi_addr darknode_id m = one_address (get_address table darknode_id m)

  unfoldable pub multi_addrs :
      Chance → String → MultiAddrStore table → Option (Result String (List table.Address))
  multi_addrs chance method m =
      if method == "ren_submitTx"
      then drawn (random_bootstrap_addrs table chance.perm 3 m)
      else if method == "ren_queryTx"
      then some (ok m.bootstrap_addrs)
      else if method == "ren_queryStat"
      then some (random_addrs table chance.shuffle 3 m)
      else drawn (random_bootstrap_addrs table chance.perm 5 m)

  -- newResponseIter and Collect, with the capacity of the channel.
  unfoldable pub collect : String → ℕ → rpc.RequestId → List rpc.Response → rpc.Response
  collect method total id responses =
      if method == "ren_queryTx"
      then collect_majority rpc total id responses
      else collect_first rpc total id responses

  abbrev pub on_addresses :
      (Bytes → Option rpc.Response)
      → Chance
      → rpc.RequestId
      → String
      → Option (Result String (List table.Address))
      → Option rpc.Response
  on_addresses send chance id method none = none
  on_addresses send chance id method (some (err e)) =
      some (rpc.new_response id none (some record { code = internal; message = e }))
  on_addresses send chance id method (some (ok addresses)) =
      some (collect method (length addresses) id (chance.arrive (responses_of send addresses)))

  -- A request whose parameters have a JSON form.
  unfoldable pub handle_request :
      (Bytes → Option rpc.Response)
      → Chance
      → rpc.RequestId
      → String
      → String
      → MultiAddrStore table
      → Option rpc.Response
  handle_request send chance id method darknode_id m =
      on_addresses send chance id method
        (if darknode_id == "" then multi_addrs chance method m else some (multi_addr darknode_id m))
