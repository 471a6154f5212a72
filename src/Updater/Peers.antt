-- ===== src/Updater/Peers.antt =====
-- What a round of updater/updater.go leaves in the store of addresses.
use lightnode.Common.{
  ◌≡◌, ◌≢◌, ◌⊎◌, inl, inr, refl, subst, String, Option, none, some, List, [], ◌∷◌, arith,
  Bool-cases,
}
use lightnode.Common.Eq.{string_eq, ◌==◌, ==_iff}
use lightnode.Common.Result.{Result, ok, err, ◌>>=◌}
use lightnode.Darknode.{Bytes}
use lightnode.MultiAddrStore.{Table, MultiAddrStore, insert_address, get_address}
use lightnode.Dispatcher.Requests.{http_url}
use lightnode.Updater.{
  on_peers, on_inserted, on_decoded, insert_peers, peers_at, update_from, update_multi_address,
}

same_or_other : (a b : String) → (a ≡ b) ⊎ (a ≢ b)
same_or_other a b = ground (arith, ==_iff a b, Bool-cases (a == b))

ok_injective : {A : Type 0} {a b : A} → ◌≡◌ {A = Result String A} (ok a) (ok b) → a ≡ b
ok_injective h = ground (arith, h)

module _ (table : Table) (value_of : table.Address → Bytes) where
  -- A Darknode whose address the store has.
  abbrev pub IsKnown : String → MultiAddrStore table → Type 0
  IsKnown key m = (addr : table.Address) × (get_address table key m ≡ ok addr)

  known_after_put :
      (own key : String) (addr : table.Address) (m : MultiAddrStore table) (state : table.State)
      → IsKnown key m
      → table.put own (table.text addr) m.state ≡ ok state
      → IsKnown key (record m { state = state })
  unfolding get_address
  known_after_put own key addr m state known put = elim (same_or_other own key) [
    | inl same ↦ (
      addr,
      rw
          (subst (λ k. table.get_text k state ≡ ok (table.text addr)) same
            (table.get-put_self own (table.text addr) m.state state put))
          (table.parse-text addr),
    )
    | inr other ↦ (
      known.0,
      rw (table.get-put_other own key (table.text addr) m.state state put other) known.1,
    )
  ]

  put_stored :
      (key : String) (addr : table.Address) (own : String) (m next : MultiAddrStore table)
      (put : Result String table.State)
      → IsKnown key m
      → table.put own (table.text addr) m.state ≡ put
      → (put >>= λ s. ok (record m { state = s })) ≡ ok next
      → IsKnown key next
  put_stored key addr own m next (err e) known p h = absurd (ground (arith, h))
  put_stored key addr own m next (ok state) known p h =
      subst (IsKnown key) (ok_injective h) (known_after_put own key addr m state known p)

  stored :
      (key : String) (addr : table.Address) (own : Result String String)
      (m next : MultiAddrStore table)
      → IsKnown key m
      → (own >>= λ k. table.put k (table.text addr) m.state >>= λ s. ok (record m { state = s }))
        ≡ ok next
      → IsKnown key next
  stored key addr (err e) m next known h = absurd (ground (arith, h))
  stored key addr (ok own) m next known h =
      put_stored key addr own m next (table.put own (table.text addr) m.state) known refl h

  insert_address-IsKnown :
      (key : String) (addr : table.Address) (m next : MultiAddrStore table)
      → IsKnown key m
      → insert_address table addr m ≡ ok next
      → IsKnown key next
  unfolding insert_address
  insert_address-IsKnown key addr m next known h =
      stored key addr (table.signatory addr) m next known h

  on_inserted-IsKnown :
      (key : String) (addr : table.Address) (m : MultiAddrStore table)
      (next : MultiAddrStore table → MultiAddrStore table)
      (inserted : Result String (MultiAddrStore table))
      → insert_address table addr m ≡ inserted
      → IsKnown key m
      → ((n : MultiAddrStore table) → IsKnown key n → IsKnown key (next n))
      → IsKnown key (on_inserted table value_of m next inserted)
  on_inserted-IsKnown key addr m next (err e) h known rest = known
  on_inserted-IsKnown key addr m next (ok n) h known rest =
      rest n (insert_address-IsKnown key addr m n known h)

  on_decoded-IsKnown :
      (key : String) (m : MultiAddrStore table) (next : MultiAddrStore table → MultiAddrStore table)
      (decoded : Result String table.Address)
      → IsKnown key m
      → ((n : MultiAddrStore table) → IsKnown key n → IsKnown key (next n))
      → IsKnown key (on_decoded table value_of m next decoded)
  on_decoded-IsKnown key m next (err e) known rest = rest m known
  on_decoded-IsKnown key m next (ok addr) known rest =
      on_inserted-IsKnown key addr m next (insert_address table addr m) refl known rest

  insert_peers-IsKnown :
      (key : String) (peers : List String) (m : MultiAddrStore table)
      → IsKnown key m
      → IsKnown key (insert_peers table value_of peers m)
  unfolding insert_peers
  insert_peers-IsKnown key [] m known = known
  insert_peers-IsKnown key (peer ∷ peers) m known =
      on_decoded-IsKnown key m (insert_peers table value_of peers) (table.parse peer) known
        (insert_peers-IsKnown key peers)

  on_peers-IsKnown :
      (key : String) (peers : Option (List String)) (m : MultiAddrStore table)
      → IsKnown key m
      → IsKnown key (on_peers table value_of peers m)
  on_peers-IsKnown key none m known = known
  on_peers-IsKnown key (some peers) m known = insert_peers-IsKnown key peers m known

  update_from-IsKnown :
      (key : String) (query : Bytes → Option (List String)) (addrs : List table.Address)
      (m : MultiAddrStore table)
      → IsKnown key m
      → IsKnown key (update_from table value_of query addrs m)
  unfolding update_from
  update_from-IsKnown key query [] m known = known
  update_from-IsKnown key query (addr ∷ addrs) m known =
      update_from-IsKnown key query addrs
        (on_peers table value_of (peers_at table value_of query (http_url (value_of addr))) m)
        (on_peers-IsKnown key (peers_at table value_of query (http_url (value_of addr))) m known)

  -- A Darknode whose address the store has stays known in a round of the updater, whatever the
  -- bootstrap nodes answer and wherever the store fails.
  pub update_multi_address-IsKnown :
      (key : String) (query : Bytes → Option (List String)) (m : MultiAddrStore table)
      → IsKnown key m
      → IsKnown key (update_multi_address table value_of query m)
  unfolding update_multi_address
  update_multi_address-IsKnown key query m known =
      update_from-IsKnown key query m.bootstrap_addrs m known
