-- ===== src/Tests/Requests.antt =====
-- The dispatcher with four bootstrap nodes, one of which does not answer.
use lightnode.Common.{◌+◌, ◌*◌, ◌≤◌, ◌≡◌, refl, String, none, some, [], ◌∷◌, arith, if◌then◌else◌}
use lightnode.Common.Ascii.{codes, split}
use lightnode.Common.Eq.{string_eq, ◌==◌}
use lightnode.Darknode.{Bytes}
use lightnode.Abi.Decimal.{decimal, set_string, natural, scan_digits, digits}
use lightnode.MultiAddrStore.{MultiAddrStore}
use lightnode.Dispatcher.InterfaceMap.Tally.{count}
use lightnode.Dispatcher.Requests.{next_port, http_url, responses_of, Chance, handle_request}
use lightnode.Dispatcher.Requests.Majority.{handle_request_quorum}
use lightnode.Tests.Samples.{Reply, simple_rpc}
use lightnode.Tests.MultiAddrStore.{simple_table}

url_of_address : http_url (codes "1.2.3.4:18514") ≡ some (codes "http://1.2.3.4:18515")
unfolding http_url split set_string natural scan_digits next_port decimal digits
url_of_address = refl

no_port : http_url (codes "1.2.3.4") ≡ none
unfolding http_url split
no_port = refl

abbrev four_nodes : MultiAddrStore simple_table
four_nodes = record { state = []; bootstrap_addrs = "a" ∷ "b" ∷ "c" ∷ "d" ∷ [] }

-- The value of an address is its text with a port.
abbrev value_with_port : String → Bytes
value_with_port a = if a == "d" then codes "d" else codes "a:1"

abbrev reply : Reply
reply = record { id = 1; value = some 5; problem = none }

abbrev simple_chance : Chance simple_rpc simple_table value_with_port
simple_chance = record { perm = λ n. []; shuffle = λ a. a; arrive = λ r. r }

three_answer :
    2 * 1 + 1
    ≤ count ⦃e = simple_rpc.response_eq⦄ reply (
        responses_of simple_rpc simple_table value_with_port
          (λ u. some reply)
          four_nodes.bootstrap_addrs)
unfolding count responses_of http_url split set_string natural scan_digits
three_answer = omega arith

handle_request_quorum_example :
    handle_request simple_rpc simple_table value_with_port
      (λ u. some reply)
      simple_chance
      1
      "ren_queryTx"
      ""
      four_nodes
    ≡ some reply
handle_request_quorum_example =
    handle_request_quorum simple_rpc simple_table value_with_port 1 (λ u. some reply) simple_chance
      1 four_nodes reply record { same_length = λ rs. refl; same_count = λ b rs. refl } refl
      three_answer
