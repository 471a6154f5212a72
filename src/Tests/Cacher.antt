-- ===== src/Tests/Cacher.antt =====
-- The cacher over a table in memory, all of whose entries expire at once.
use lightnode.Common.{ℕ, String, ◌≡◌, ◌≢◌, refl, ◌⊎◌, true, false, none, some, List, [], ◌∷◌, arith}
use lightnode.Common.Ascii.{codes}
use lightnode.Common.Eq.{string_eq, number_eq, ◌==◌, ==_iff}
use lightnode.Common.Dict.{Dict, lookup, insert, lookup-insert}
use lightnode.Common.Result.{ok}
use lightnode.Tests.Samples.{Reply, simple_rpc}
use lightnode.Cacher.{
  TtlTable, Requests, method_submit_tx, Request, request_id, cache_key, skip_cache, insert_response,
  cached_response, handle, on_response, answered,
}
use lightnode.Cacher.Specification.{
  Event, Allowed, run_events, record_events, handle-Allowed_after, replied,
}

read_back : (k : String) (v : Reply) (s : Dict String Reply) → lookup k (insert k v s) ≡ some v
read_back k v s = ground (arith, lookup-insert k k v s, ==_iff k k)

only_written :
    (k j : String) (v w : Reply) (s : Dict String Reply)
    → lookup j (insert k v s) ≡ some w
    → ((k ≡ j) × (v ≡ w)) ⊎ (lookup j s ≡ some w)
only_written k j v w s h = ground (arith, h, lookup-insert k j v s, ==_iff j k)

nothing_left :
    (j : String) (w : Reply) (s : Dict String Reply)
    → lookup {V = Reply} j [] ≡ some w
    → lookup j s ≡ some w
unfolding lookup
nothing_left j w s h = absurd (ground (arith, h))

abbrev mem_table : TtlTable Reply
mem_table = record {
  State = Dict String Reply;
  get_value = λ k s. lookup k s;
  put_value = λ k v s. (none, insert k v s);
  expire = λ s. [];
  get-put = λ k v s _. read_back k v s;
  put_sound = only_written;
  expire_sound = nothing_left;
}

abbrev text_of : List ℕ → String
text_of [] = ""
text_of (b ∷ bs) = "h"

abbrev one_text : String → String → String
one_text a b = a

abbrev simple_requests : Requests simple_rpc
simple_requests = record {
  Params = List ℕ;
  QueryTx = ℕ;
  Output = ℕ;
  marshal_params = λ p. ok p;
  codes_of = codes;
  sha3 = λ b. b;
  hex = text_of;
  append = one_text;
  read_query_tx = λ v. v;
  is_cross_chain = λ q. true;
  has_no_output = λ q. q == 0;
  decode_output = λ q. none;
  no_revert = λ o. true;
  with_v1_output = λ q o. q;
  result_of = λ q. q;
}

abbrev block_request : ℕ → Request simple_rpc simple_requests
block_request i = record { id = i; method = "ren_queryBlock"; params = 1 ∷ []; darknode_id = "" }

abbrev block_reply : Reply
block_reply = record { id = 1; value = some 5; problem = none }

abbrev block_id : List ℕ
block_id = request_id simple_rpc simple_requests (1 ∷ []) "ren_queryBlock"

abbrev block_event : Event simple_rpc simple_requests mem_table
block_event = replied block_id (block_request 1) block_reply

nothing_stored : (key : String) → lookup {V = Reply} key [] ≡ none
unfolding lookup
nothing_stored key = refl

block_not_submit : ◌≢◌ {A = String} "ren_queryBlock" method_submit_tx
block_not_submit = ground (arith, ==_iff {T = String} "ren_queryBlock" "ren_submitTx")

block_kept : (skip_cache simple_rpc simple_requests (block_request 1) block_reply).0 ≡ false
unfolding skip_cache
block_kept = refl

handle-Allowed_after_example :
    Allowed simple_rpc simple_requests mem_table
      (record_events simple_rpc simple_requests mem_table (block_event ∷ []) [])
      (block_request 2)
      (handle simple_rpc simple_requests mem_table
        (block_request 2)
        (run_events simple_rpc simple_requests mem_table (block_event ∷ []) []))
handle-Allowed_after_example =
    handle-Allowed_after simple_rpc simple_requests mem_table (block_event ∷ []) []
      (block_request 2) nothing_stored

-- The second client is given the id of the first.
first_id_given :
    handle simple_rpc simple_requests mem_table
      (block_request 2)
      (on_response simple_rpc simple_requests mem_table block_id (block_request 1) block_reply []).1
    ≡ answered block_reply
unfolding handle on_response insert_response cached_response skip_cache lookup insert request_id
    cache_key
first_id_given = refl
