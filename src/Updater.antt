-- ===== src/Updater.antt =====
-- updater/updater.go: the peers of the bootstrap nodes are inserted into the store of addresses. The
-- goroutines, one for each bootstrap node, are taken one after another; the store makes each
-- insertion one step.
pub mod Peers
use lightnode.Common.{String, Option, none, some, List, [], ◌∷◌}
use lightnode.Common.Result.{Result, ok, err}
use lightnode.Darknode.{Bytes}
use lightnode.MultiAddrStore.{Table, MultiAddrStore, insert_address}
use lightnode.Dispatcher.Requests.{http_url}

module _ (table : Table) (value_of : table.Address → Bytes) where
  abbrev pub on_inserted :
      MultiAddrStore table
      → (MultiAddrStore table → MultiAddrStore table)
      → Result String (MultiAddrStore table)
      → MultiAddrStore table
  on_inserted m next (err e) = m
  on_inserted m next (ok inserted) = next inserted

  abbrev pub on_decoded :
      MultiAddrStore table
      → (MultiAddrStore table → MultiAddrStore table)
      → Result String table.Address
      → MultiAddrStore table
  on_decoded m next (err e) = next m
  on_decoded m next (ok addr) = on_inserted m next (insert_address table addr m)

  -- The loop over the peers of a response: a peer that is no address is skipped, and an error of
  -- the store ends the loop.
  unfoldable pub insert_peers : List String → MultiAddrStore table → MultiAddrStore table
  insert_peers [] m = m
  insert_peers (peer ∷ peers) m = on_decoded m (insert_peers peers) (table.parse peer)

  abbrev pub on_peers : Option (List String) → MultiAddrStore table → MultiAddrStore table
  on_peers none m = m
  on_peers (some peers) m = insert_peers peers m

  abbrev pub peers_at : (Bytes → Option (List String)) → Option Bytes → Option (List String)
  peers_at query none = none
  peers_at query (some url) = query url

  -- With the client: the peers that the server at a URL answers, none where the request fails or
  -- the response is not read.
  unfoldable pub update_from :
      (Bytes → Option (List String))
      → List table.Address
      → MultiAddrStore table
      → MultiAddrStore table
  update_from query [] m = m
  update_from query (addr ∷ addrs) m =
      update_from query addrs (on_peers (peers_at query (http_url (value_of addr))) m)

  unfoldable pub update_multi_address :
      (Bytes → Option (List String)) → MultiAddrStore table → MultiAddrStore table
  update_multi_address query m = update_from query m.bootstrap_addrs m
