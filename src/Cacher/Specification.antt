-- ===== src/Cacher/Specification.antt =====
-- The cacher of cacher/cacher.go against what a cache promises: it gives only answers that were
-- given under the same key.
use lightnode.Common.{
  String, Bool, true, false, Option, none, some, List, [], ◌∷◌, ◌≡◌, ◌≢◌, ◌⊎◌, inl, inr, refl, sym,
  arith, if◌then◌else◌, Bool-cases,
}
use lightnode.Common.Eq.{string_eq, ◌==◌, ==_iff}
use lightnode.Common.Result.{Result, ok, err}
use lightnode.Darknode.{Bytes}
use lightnode.JsonRpc.{JsonRpc, invalid_params}
use lightnode.Cacher.{
  or_dispatch, on_marshalled, TtlTable, Requests, method_submit_tx, Request, request_id, cache_key,
  skip_cache, insert_response, cached_response, Outcome, handle, on_response, answered, dispatched,
}

module _ (rpc : JsonRpc) (requests : Requests rpc) (table : TtlTable rpc.Response) where
  -- What has been sent to clients from the dispatcher, under the keys of their requests.
  abbrev pub History : Type 0
  History = List (String × rpc.Response)

  abbrev pub Given : String → rpc.Response → History → Type 0
  Given key response [] = ⊥
  Given key response (h ∷ history) = ((h.0 ≡ key) × (h.1 ≡ response)) ⊎ Given key response history

  -- The events of the cacher: a request, the response of the dispatcher to a request, and the
  -- expiry of entries.
  pub data Event : Type 0 where
    asked : Request rpc requests → Event
    replied : Bytes → Request rpc requests → rpc.Response → Event
    expired : Event

  unfoldable pub run_event : Event → table.State → table.State
  run_event (asked msg) s = s
  run_event (replied req_id msg response) s =
      (on_response rpc requests table req_id msg response s).1
  run_event expired s = table.expire s

  -- The abstract cache only records what was given.
  unfoldable pub record_event : Event → History → History
  record_event (asked msg) history = history
  record_event (replied req_id msg response) history =
      (cache_key rpc requests req_id msg.darknode_id, (skip_cache rpc requests msg response).1)
      ∷ history
  record_event expired history = history

  -- What a request may be answered, by what was given: an error where its parameters have no JSON,
  -- an answer that was given under its key, unless it submits a transaction, or to go on.
  pub data Allowed (history : History) (msg : Request rpc requests)
      : Outcome rpc requests table → Type 0 where
    unmarshalled :
        (e : String)
        → requests.marshal_params msg.params ≡ err e
        → Allowed history msg (
            answered
              (rpc.new_response msg.id none (some record { code = invalid_params; message = e })))
    from_cache :
        (params_bytes : Bytes) (response : rpc.Response)
        → requests.marshal_params msg.params ≡ ok params_bytes
        → msg.method ≢ method_submit_tx
        → Given
            (cache_key rpc requests
              (request_id rpc requests params_bytes msg.method)
              msg.darknode_id)
            response
            history
        → Allowed history msg (answered response)
    passed_on :
        (params_bytes : Bytes)
        → requests.marshal_params msg.params ≡ ok params_bytes
        → Allowed history msg (dispatched (request_id rpc requests params_bytes msg.method))

  -- The table holds only what was given.
  abbrev pub Refines : table.State → History → Type 0
  Refines s history =
      (key : String) (response : rpc.Response)
      → table.get_value key s ≡ some response
      → Given key response history

  stored_either :
      (kept : Bool) (key : String) (response : rpc.Response) (s t : table.State)
      → table.get_value key (if kept then s else t) ≡ some response
      → (table.get_value key s ≡ some response) ⊎ (table.get_value key t ≡ some response)
  stored_either true key response s t h = inl h
  stored_either false key response s t h = inr h

  run_event-Refines :
      (e : Event) (s : table.State) (history : History)
      → Refines s history
      → Refines (run_event e s) (record_event e history)
  unfolding run_event record_event on_response insert_response
  run_event-Refines (asked msg) s history r = r
  run_event-Refines expired s history r =
      λ key response h. r key response (table.expire_sound key response s h)
  run_event-Refines (replied req_id msg response) s history r = λ key given h.
      let skipped = skip_cache rpc requests msg response in
      let own = cache_key rpc requests req_id msg.darknode_id in
      elim (stored_either skipped.0 key given s (table.put_value own skipped.1 s).1 h) [
        | inl old ↦ inr (r key given old)
        | inr new ↦ elim (table.put_sound own key skipped.1 given s new) [
          | inl same ↦ inl same
          | inr old ↦ inr (r key given old)
        ]
      ]

  cached-Allowed :
      (params_bytes : Bytes) (msg : Request rpc requests) (s : table.State) (history : History)
      (found : Option rpc.Response)
      → Refines s history
      → requests.marshal_params msg.params ≡ ok params_bytes
      → msg.method ≢ method_submit_tx
      → table.get_value
          (cache_key rpc requests (request_id rpc requests params_bytes msg.method) msg.darknode_id)
          s
        ≡ found
      → Allowed history msg
          (or_dispatch rpc requests table (request_id rpc requests params_bytes msg.method) found)
  cached-Allowed params_bytes msg s history none r m other e = passed_on params_bytes m
  cached-Allowed params_bytes msg s history (some response) r m other e =
      from_cache params_bytes response m other (r _ response e)

  submits :
      (msg : Request rpc requests)
      → ((msg.method ≡ method_submit_tx) × ((msg.method == method_submit_tx) ≡ true))
        ⊎ ((msg.method ≢ method_submit_tx) × ((msg.method == method_submit_tx) ≡ false))
  submits msg =
      ground
        (arith, ==_iff msg.method method_submit_tx, Bool-cases (msg.method == method_submit_tx))

  marshalled-Allowed :
      (msg : Request rpc requests) (s : table.State) (history : History)
      (marshalled : Result String Bytes)
      → Refines s history
      → requests.marshal_params msg.params ≡ marshalled
      → Allowed history msg (on_marshalled rpc requests table msg s marshalled)
  unfolding cached_response
  marshalled-Allowed msg s history (err e) r m = unmarshalled e m
  marshalled-Allowed msg s history (ok params_bytes) r m = elim (submits msg) [
    | inl (_, is) ↦ rw is (passed_on params_bytes m)
    | inr (other, not_is) ↦ rw not_is (cached-Allowed params_bytes msg s history _ r m other refl)
  ]

  handle-Allowed :
      (msg : Request rpc requests) (s : table.State) (history : History)
      → Refines s history
      → Allowed history msg (handle rpc requests table msg s)
  unfolding handle
  handle-Allowed msg s history r =
      marshalled-Allowed msg s history (requests.marshal_params msg.params) r refl

  unfoldable pub run_events : List Event → table.State → table.State
  run_events [] s = s
  run_events (e ∷ events) s = run_events events (run_event e s)

  unfoldable pub record_events : List Event → History → History
  record_events [] history = history
  record_events (e ∷ events) history = record_events events (record_event e history)

  run_events-Refines :
      (events : List Event) (s : table.State) (history : History)
      → Refines s history
      → Refines (run_events events s) (record_events events history)
  unfolding run_events record_events
  run_events-Refines [] s history r = r
  run_events-Refines (e ∷ events) s history r =
      run_events-Refines events (run_event e s) (record_event e history)
        (run_event-Refines e s history r)

  -- Whatever the cacher has done since its table was empty, its outcome for a request is one that
  -- the abstract cache allows by what was given since.
  pub handle-Allowed_after :
      (events : List Event) (empty : table.State) (msg : Request rpc requests)
      → ((key : String) → table.get_value key empty ≡ none)
      → Allowed
          (record_events events [])
          msg
          (handle rpc requests table msg (run_events events empty))
  handle-Allowed_after events empty msg nothing =
      handle-Allowed msg (run_events events empty) (record_events events []) (
        run_events-Refines events empty []
          (λ key response h. absurd (ground (arith, h, nothing key))))

  -- An answer of the dispatcher that is stored is the answer to the next request with the same
  -- parameters, method and Darknode, with the id of the first.
  pub handle-on_response :
      (first second : Request rpc requests) (params_bytes : Bytes) (response : rpc.Response)
      (s : table.State)
      → requests.marshal_params second.params ≡ ok params_bytes
      → first.method ≡ second.method
      → first.darknode_id ≡ second.darknode_id
      → second.method ≢ method_submit_tx
      → (skip_cache rpc requests first response).0 ≡ false
      → (table.put_value
          (cache_key rpc requests
            (request_id rpc requests params_bytes first.method)
            first.darknode_id)
          (skip_cache rpc requests first response).1
          s).0
        ≡ none
      → handle rpc requests table second
          (on_response rpc requests table
            (request_id rpc requests params_bytes first.method)
            first
            response
            s).1
        ≡ answered (skip_cache rpc requests first response).1
  unfolding handle on_response insert_response cached_response
  handle-on_response first second params_bytes response s m method darknode other kept stored =
      elim (submits second) [
        | inl (is, _) ↦ absurd (other is)
        | inr (_, not_is) ↦
            rw
              (
                m,
                not_is,
                kept,
                sym method,
                sym darknode,
                table.get-put
                    (cache_key rpc requests (request_id rpc requests params_bytes first.method)
                      first.darknode_id)
                    (skip_cache rpc requests first response).1 s stored,
              )
              refl
      ]
