-- ===== src/Database/Status.antt =====
-- The status of a stored transaction: when an update is accepted, that no call lowers it, and when
-- a transaction is pending.
use lightnode.Common.{
  ℕ, ◌≤◌, ◌<◌, String, ◌≡◌, refl, ◌∙◌, ap, sym, ◌↔◌, false, Option, none, some, List, [], ◌∷◌,
  arith, ltb, filter, Bool-cases, Option-cases, inl, inr, ◌⊎◌, ◌++◌, if◌then◌else◌,
}
use lightnode.Common.Eq.{string_eq, ◌==◌, ==_iff}
use lightnode.Common.Result.{Result-cases}
use lightnode.Darknode.{Tx, Darknode}
use lightnode.Database.{Columns, TxStatus, TxRow, Database}
use lightnode.Database.Rows.{tx_fields, tx_row}
use lightnode.Database.Txs.{
  find_tx, exec_insert, is_updated, rows_affected, update_status, is_pending, is_expired, kept,
  prune, insert_tx, query_txs, pending_txs,
}
use lightnode.Database.Invariant.{
  IsUnique, raised?, or_row, live?, Step, inserted, updated, pruned, find_tx-append,
  find_tx-exec_update, find_tx-kept,
}

-- The number of rows that an update may change.
abbrev pub updatable : String → TxStatus → Option TxRow → ℕ
updatable hash status none = 0
updatable hash status (some row) = if ltb row.status status then 1 else 0

rows_affected-absent :
    (hash : String) (status : TxStatus) (rows : List TxRow)
    → find_tx hash rows ≡ none
    → rows_affected hash status rows ≡ 0
unfolding find_tx rows_affected is_updated
rows_affected-absent hash status [] h = refl
rows_affected-absent hash status (row ∷ rows) h =
    ground (arith, rows_affected-absent hash status rows, h)

rows_affected-find :
    (hash : String) (status : TxStatus) (rows : List TxRow)
    → IsUnique rows
    → rows_affected hash status rows ≡ updatable hash status (find_tx hash rows)
unfolding find_tx rows_affected is_updated
rows_affected-find hash status [] u = refl
rows_affected-find hash status (row ∷ rows) u = ground (
  arith,
  rows_affected-find hash status rows u.1,
  rows_affected-absent hash status rows,
  ==_iff row.hash hash,
  u.0,
)

pub find_tx-hash :
    (hash : String) (rows : List TxRow) (row : TxRow)
    → find_tx hash rows ≡ some row
    → row.hash ≡ hash
unfolding find_tx
find_tx-hash hash [] row h = absurd (ground (arith, h))
find_tx-hash hash (r ∷ rows) row h =
    ground (arith, find_tx-hash hash rows row, ==_iff r.hash hash, h)

-- An update is accepted exactly where the transaction is stored with a lower status.
pub update_status_accepts :
    (hash : String) (status : TxStatus) (db : Database)
    → IsUnique db.txs
    → ((update_status none hash status db).0 ≡ none)
      ↔ ((row : TxRow) × (find_tx hash db.txs ≡ some row) × (row.status < status))
unfolding update_status
update_status_accepts hash status db u =
    let counted = rows_affected-find hash status db.txs u in
    elim (Option-cases (find_tx hash db.txs)) [
      | inl p ↦ ground (arith, counted, p)
      | inr (row, p) ↦ (
        λ h. (row, p, ground (arith, counted, p, h)),
        λ (r, q, lower). ground (arith, counted, p, q, lower),
      )
    ]

not_raised :
    (hash other : String) (status : TxStatus) (o : Option TxRow)
    → ((row : TxRow) → o ≡ some row → row.hash ≡ other)
    → (hash == other) ≡ false
    → raised? hash status o ≡ o
unfolding is_updated
not_raised hash other status none named apart = refl
not_raised hash other status (some row) named apart =
    ground (arith, apart, named row refl, ==_iff row.hash hash, ==_iff hash other)

-- An update raises the row of its hash and no other.
raised-other :
    (hash other : String) (status : TxStatus) (rows : List TxRow)
    → raised? hash status (find_tx other rows)
      ≡ (if hash == other then raised? hash status (find_tx hash rows) else find_tx other rows)
raised-other hash other status rows = elim (Bool-cases (hash == other)) [
  | inl p ↦ rw p (ap (λ k. raised? hash status (find_tx k rows)) (sym ((==_iff hash other).0 p)))
  | inr p ↦ rw p (not_raised hash other status (find_tx other rows) (find_tx-hash other rows) p)
]

-- After an accepted update the transaction has the new status, and a refused one changes no row.
pub update_status_lem :
    (hash other : String) (status : TxStatus) (db next : Database)
    → IsUnique db.txs
    → update_status none hash status db ≡ (none, next)
    → find_tx other next.txs
      ≡ (if hash == other then raised? hash status (find_tx hash db.txs) else find_tx other db.txs)
unfolding update_status
update_status_lem hash other status db next u h =
    ap (find_tx other) (ground (arith, h))
    ∙ (find_tx-exec_update other hash status db.txs ∙ raised-other hash other status db.txs)

-- The second row, where both are there, has no lower status.
abbrev pub NotLower : Option TxRow → Option TxRow → Type 0
NotLower (some r) (some q) = r.status ≤ q.status
NotLower _ _ = Unit {0}

NotLower-refl : (o : Option TxRow) → NotLower o o
NotLower-refl none = tt
NotLower-refl (some r) = omega arith

NotLower-raised :
    (hash : String) (status : TxStatus) (o : Option TxRow) → NotLower o (raised? hash status o)
unfolding is_updated
NotLower-raised hash status none = tt
NotLower-raised hash status (some r) = ground arith

NotLower-or : (o q : Option TxRow) → NotLower o (or_row o q)
NotLower-or none q = tt
NotLower-or (some r) q = omega arith

NotLower-live : (now expiry : ℕ) (o : Option TxRow) → NotLower o (live? now expiry o)
NotLower-live now expiry none = tt
NotLower-live now expiry (some r) = ground arith

module _ (columns : Columns) where
  exec_insert-fresh :
      (row : TxRow) (db : Database)
      → find_tx row.hash db.txs ≡ none
      → (exec_insert none row db).1.txs ≡ db.txs ++ row ∷ []
  unfolding exec_insert
  exec_insert-fresh row db h = ground (arith, h)

  exec_insert-taken :
      (row r : TxRow) (db : Database)
      → find_tx row.hash db.txs ≡ some r
      → (exec_insert none row db).1.txs ≡ db.txs
  unfolding exec_insert
  exec_insert-taken row r db h = ground (arith, h)

  exec_insert-failed :
      (e : String) (row : TxRow) (db : Database) → (exec_insert (some e) row db).1.txs ≡ db.txs
  unfolding exec_insert
  exec_insert-failed e row db = refl

  exec_insert-NotLower :
      (fault : Option String) (row : TxRow) (hash : String) (db : Database)
      → NotLower (find_tx hash db.txs) (find_tx hash (exec_insert fault row db).1.txs)
  exec_insert-NotLower (some e) row hash db =
      rw (exec_insert-failed e row db) (NotLower-refl (find_tx hash db.txs))
  exec_insert-NotLower none row hash db = elim (Option-cases (find_tx row.hash db.txs)) [
    | inl p ↦
        rw (exec_insert-fresh row db p, find_tx-append hash db.txs row)
          (NotLower-or (find_tx hash db.txs) _)
    | inr (r, p) ↦ rw (exec_insert-taken row r db p) (NotLower-refl (find_tx hash db.txs))
  ]

  insert_tx-cases :
      (fault : Option String) (now : ℕ) (t : Tx) (db : Database)
      → ((row : TxRow) × (insert_tx columns fault now t db ≡ exec_insert fault row db))
        ⊎ ((insert_tx columns fault now t db).1 ≡ db)
  unfolding insert_tx
  insert_tx-cases fault now t db = elim (Result-cases (tx_fields t.input)) [
    | inl (i, p) ↦ inl (tx_row columns now t i, ground (arith, p))
    | inr (e, p) ↦ inr (ground (arith, p))
  ]

  -- No call lowers the status of a transaction that stays stored.
  pub Step-NotLower :
      (db next : Database) (hash : String)
      → IsUnique db.txs
      → Step columns db next
      → NotLower (find_tx hash db.txs) (find_tx hash next.txs)
  unfolding update_status prune
  Step-NotLower db _ hash u (inserted fault now tx) = elim (insert_tx-cases fault now tx db) [
    | inl (row, p) ↦ rw p (exec_insert-NotLower fault row hash db)
    | inr p ↦ rw p (NotLower-refl (find_tx hash db.txs))
  ]
  Step-NotLower db _ hash u (updated (some e) h status) = NotLower-refl (find_tx hash db.txs)
  Step-NotLower db _ hash u (updated none h status) =
      rw (find_tx-exec_update hash h status db.txs) (NotLower-raised h status (find_tx hash db.txs))
  Step-NotLower db _ hash u (pruned (some e) now expiry) = NotLower-refl (find_tx hash db.txs)
  Step-NotLower db _ hash u (pruned none now expiry) =
      rw (find_tx-kept hash now expiry db.txs u) (NotLower-live now expiry (find_tx hash db.txs))

  filter-kept :
      (now wait expiry : ℕ) (rows : List TxRow)
      → wait ≤ expiry
      → filter (is_pending now wait) (kept now expiry rows) ≡ filter (is_pending now wait) rows
  unfolding kept is_pending is_expired
  filter-kept now wait expiry [] h = refl
  filter-kept now wait expiry (row ∷ rows) h = ground (arith, filter-kept now wait expiry rows h, h)

  -- Prune removes no transaction that is still pending, where the confirmer waits no longer than
  -- the expiry.
  pub pending_txs-prune :
      (darknode : Darknode) (now wait expiry : ℕ) (db : Database)
      → wait ≤ expiry
      → pending_txs columns darknode none now wait (prune none now expiry db).1
        ≡ pending_txs columns darknode none now wait db
  unfolding pending_txs prune
  pending_txs-prune darknode now wait expiry db h =
      ap (query_txs columns darknode none) (filter-kept now wait expiry db.txs h)
