-- ===== src/MultiAddrStore.antt =====
-- store/store.go: the addresses of Darknodes in a key-value table, and the bootstrap addresses.
pub mod Bootstrap
use lightnode.Common.{
  ℕ, ◌<◌, String, Bool, ◌≡◌, ◌≢◌, Option, none, some, List, [], ◌∷◌, ltb, length, get_elem?, take,
  if◌then◌else◌,
}
use lightnode.Common.Result.{Result, ok, err, ◌>>=◌}

-- The table (github.com/renproject/kv/db) and the addresses (github.com/renproject/aw/wire). A
-- write that reports no error is read back, and leaves every other key.
pub record Table : Type 1 where
  pub State : Type 0
  pub Address : Type 0
  pub get_text : String → State → Result String String
  pub put : String → String → State → Result String State
  pub erase : String → State → Result String State
  pub keys : State → List (Result String String)
  pub signatory : Address → Result String String
  pub text : Address → String
  pub parse : String → Result String Address
  pub parse-text : (a : Address) → parse (text a) ≡ ok a
  pub get-put_self : (k v : String) (s t : State) → put k v s ≡ ok t → get_text k t ≡ ok v
  pub get-put_other :
      (k j v : String) (s t : State) → put k v s ≡ ok t → k ≢ j → get_text j t ≡ get_text j s

module _ (table : Table) where
  pub record MultiAddrStore : Type 0 where
    pub state : table.State
    pub bootstrap_addrs : List table.Address

  unfoldable pub get_address : String → MultiAddrStore → Result String table.Address
  get_address key m = table.get_text key m.state >>= λ t. table.parse t

  unfoldable pub insert_address : table.Address → MultiAddrStore → Result String MultiAddrStore
  insert_address addr m = table.signatory addr >>= λ key.
      table.put key (table.text addr) m.state >>= λ s. ok (record m { state = s })

  unfoldable pub delete_address : table.Address → MultiAddrStore → Result String MultiAddrStore
  delete_address addr m =
      table.signatory addr >>= λ key. table.erase key m.state >>= λ s. ok (record m { state = s })

  -- The loop over the iterator.
  unfoldable pub read_addrs :
      MultiAddrStore → List (Result String String) → Result String (List table.Address)
  read_addrs m [] = ok []
  read_addrs m (key ∷ rest) =
      key >>= λ k. get_address k m >>= λ a. read_addrs m rest >>= λ addrs. ok (a ∷ addrs)

  unfoldable pub addrs_all : MultiAddrStore → Result String (List table.Address)
  addrs_all m = read_addrs m (table.keys m.state)

  -- The loop of New: an error panics, which is none.
  unfoldable pub insert_all : List table.Address → MultiAddrStore → Option MultiAddrStore
  insert_all [] m = some m
  insert_all (a ∷ addrs) m = elim (insert_address a m) [
    | err e ↦ none
    | ok next ↦ insert_all addrs next
  ]

  unfoldable pub new_store : table.State → List table.Address → Option MultiAddrStore
  new_store s addrs = insert_all addrs (record { state = s; bootstrap_addrs = addrs })

  abbrev prepend : Option table.Address → Option (List table.Address) → Option (List table.Address)
  prepend none rest = none
  prepend (some a) none = none
  prepend (some a) (some rest) = some (a ∷ rest)

  -- The addresses at the given indexes; an index out of range panics, which is none.
  unfoldable pub at_indexes : List ℕ → List table.Address → Option (List table.Address)
  at_indexes [] addrs = some []
  at_indexes (i ∷ is) addrs = prepend (get_elem? addrs i) (at_indexes is addrs)

  -- With rand.Perm as a function of its argument.
  unfoldable pub random_bootstrap_addrs :
      (ℕ → List ℕ) → ℕ → MultiAddrStore → Option (List table.Address)
  random_bootstrap_addrs perm n m =
      let most = length m.bootstrap_addrs in
      at_indexes (perm (if ltb most n then most else n)) m.bootstrap_addrs

  -- With rand.Shuffle as a function.
  unfoldable pub random_addrs :
      (List table.Address → List table.Address)
      → ℕ
      → MultiAddrStore
      → Result String (List table.Address)
  random_addrs shuffle n m = addrs_all m >>= λ addrs.
      let mixed = shuffle addrs in ok (if ltb (length mixed) n then mixed else take n mixed)
