-- ===== src/Tests/Dispatcher.antt =====
-- The dispatcher's strategies on a few responses.
use lightnode.Common.{ℕ, ◌≡◌, refl, none, some, [], ◌∷◌}
use lightnode.Common.Eq.{Eq}
use lightnode.JsonRpc.{internal}
use lightnode.Dispatcher.InterfaceMap.{store, increment, most, new_interface_map, threshold_of}
use lightnode.Dispatcher.Iterator.{collect_majority, unable_to_query}
use lightnode.Dispatcher.Iterator.Quorum.{Agreed, collect_majority-Agreed}
use lightnode.Tests.Samples.{simple_rpc, Reply}

instance abbrev reply_eq : Eq Reply
reply_eq = simple_rpc.response_eq

abbrev good : ℕ → Reply
good n = record { id = 7; value = some n; problem = none }

abbrev bad : Reply
bad = record { id = 7; value = none; problem = some (record { code = internal; message = "busy" }) }

collect_majority_run :
    collect_majority simple_rpc 4 7 (good 1 ∷ good 2 ∷ good 2 ∷ good 2 ∷ []) ≡ good 2
unfolding collect_majority new_interface_map threshold_of store increment most
collect_majority_run = refl

collect_none_run : collect_majority simple_rpc 4 7 [] ≡ unable_to_query simple_rpc 7
unfolding collect_majority new_interface_map most
collect_none_run = refl

collect_majority-Agreed_example :
    Agreed simple_rpc
      (threshold_of 4)
      (good 1 ∷ bad ∷ [])
      (collect_majority simple_rpc 4 7 (good 1 ∷ bad ∷ []))
collect_majority-Agreed_example = collect_majority-Agreed simple_rpc 4 7 (good 1) (bad ∷ [])
