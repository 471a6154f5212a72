-- ===== src/Tests/Updater.antt =====
-- The updater on a store in memory whose bootstrap nodes answer one peer.
use lightnode.Common.{◌≡◌, refl, String, some, [], ◌∷◌}
use lightnode.Common.Ascii.{codes}
use lightnode.Common.Dict.{lookup, insert}
use lightnode.Common.Eq.{string_eq}
use lightnode.Common.Result.{ok}
use lightnode.Darknode.{Bytes}
use lightnode.MultiAddrStore.{MultiAddrStore, get_address, insert_address}
use lightnode.Updater.{insert_peers, update_multi_address}
use lightnode.Updater.Peers.{IsKnown, update_multi_address-IsKnown}
use lightnode.Tests.MultiAddrStore.{simple_table}

abbrev one_known : MultiAddrStore simple_table
one_known = record { state = ("n", "n") ∷ []; bootstrap_addrs = "a" ∷ [] }

abbrev any_value : String → Bytes
any_value a = codes "a:1"

n_known : IsKnown simple_table any_value "n" one_known
unfolding get_address lookup
n_known = ("n", refl)

update_multi_address-IsKnown_example :
    IsKnown simple_table any_value "n"
      (update_multi_address simple_table any_value (λ u. some ("p" ∷ [])) one_known)
update_multi_address-IsKnown_example =
    update_multi_address-IsKnown simple_table any_value "n" (λ u. some ("p" ∷ [])) one_known n_known

peer_inserted :
    get_address simple_table "p" (insert_peers simple_table any_value ("p" ∷ []) one_known) ≡ ok "p"
unfolding get_address insert_peers insert_address lookup insert
peer_inserted = refl
