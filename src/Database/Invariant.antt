-- ===== src/Database/Invariant.antt =====
-- The primary key of the table of transactions: what the statements do to the row of a hash, and
-- that no hash is ever stored twice.
use lightnode.Common.{
  ℕ, String, ◌≡◌, refl, Option, none, some, List, [], ◌∷◌, ◌++◌, arith, Option-cases, inl, inr,
  if◌then◌else◌,
}
use lightnode.Common.Eq.{string_eq, ◌==◌, ==_iff}
use lightnode.Common.Result.{Result-cases}
use lightnode.Darknode.{Tx}
use lightnode.Database.{Columns, TxStatus, TxRow, Database}
use lightnode.Database.Rows.{tx_fields, tx_row}
use lightnode.Database.Txs.{
  find_tx, exec_insert, is_updated, exec_update, update_status, is_expired, kept, prune, insert_tx,
}

abbrev pub IsUnique : List TxRow → Type 0
IsUnique [] = Unit {0}
IsUnique (row ∷ rows) = (find_tx row.hash rows ≡ none) × IsUnique rows

-- The row that an update leaves of a row.
abbrev pub raised : String → TxStatus → TxRow → TxRow
raised hash status row = if is_updated hash status row then record row { status = status } else row

abbrev pub raised? : String → TxStatus → Option TxRow → Option TxRow
raised? hash status none = none
raised? hash status (some row) = some (raised hash status row)

-- The first of two answers.
abbrev pub or_row : Option TxRow → Option TxRow → Option TxRow
or_row none q = q
or_row (some row) q = some row

pub find_tx-append :
    (h : String) (rows : List TxRow) (row : TxRow)
    → find_tx h (rows ++ row ∷ [])
      ≡ or_row (find_tx h rows) (if row.hash == h then some row else none)
unfolding find_tx
find_tx-append h [] row = refl
find_tx-append h (r ∷ rows) row = ground (arith, find_tx-append h rows row)

append-IsUnique :
    (rows : List TxRow) (row : TxRow)
    → IsUnique rows
    → find_tx row.hash rows ≡ none
    → IsUnique (rows ++ row ∷ [])
unfolding find_tx
append-IsUnique [] row u h = (refl, tt)
append-IsUnique (r ∷ rows) row u h = ground (
  arith,
  find_tx-append r.hash rows row,
  append-IsUnique rows row u.1,
  ==_iff r.hash row.hash,
  ==_iff row.hash r.hash,
  u,
  h,
)

pub find_tx-exec_update :
    (h hash : String) (status : TxStatus) (rows : List TxRow)
    → find_tx h (exec_update hash status rows) ≡ raised? hash status (find_tx h rows)
unfolding find_tx exec_update
find_tx-exec_update h hash status [] = refl
find_tx-exec_update h hash status (row ∷ rows) =
    ground (arith, find_tx-exec_update h hash status rows)

exec_update-IsUnique :
    (hash : String) (status : TxStatus) (rows : List TxRow)
    → IsUnique rows
    → IsUnique (exec_update hash status rows)
unfolding exec_update
exec_update-IsUnique hash status [] u = tt
exec_update-IsUnique hash status (row ∷ rows) u = ground (
  arith,
  find_tx-exec_update row.hash hash status rows,
  exec_update-IsUnique hash status rows u.1,
  u,
)

-- The row of a hash, where it has not expired.
abbrev pub live? : ℕ → ℕ → Option TxRow → Option TxRow
live? now expiry none = none
live? now expiry (some row) = if is_expired now expiry row then none else some row

find_tx-kept-none :
    (h : String) (now expiry : ℕ) (rows : List TxRow)
    → find_tx h rows ≡ none
    → find_tx h (kept now expiry rows) ≡ none
unfolding find_tx kept
find_tx-kept-none h now expiry [] p = refl
find_tx-kept-none h now expiry (row ∷ rows) p =
    ground (arith, find_tx-kept-none h now expiry rows, p)

pub find_tx-kept :
    (h : String) (now expiry : ℕ) (rows : List TxRow)
    → IsUnique rows
    → find_tx h (kept now expiry rows) ≡ live? now expiry (find_tx h rows)
unfolding find_tx kept
find_tx-kept h now expiry [] u = refl
find_tx-kept h now expiry (row ∷ rows) u = ground (
  arith,
  find_tx-kept h now expiry rows u.1,
  find_tx-kept-none h now expiry rows,
  ==_iff row.hash h,
  u.0,
)

kept-IsUnique :
    (now expiry : ℕ) (rows : List TxRow) → IsUnique rows → IsUnique (kept now expiry rows)
unfolding kept
kept-IsUnique now expiry [] u = tt
kept-IsUnique now expiry (row ∷ rows) u =
    ground
      (arith, find_tx-kept-none row.hash now expiry rows u.0, kept-IsUnique now expiry rows u.1)

module _ (columns : Columns) where
  -- One call that changes the table of transactions, at any time and with any fault.
  pub data Step (db : Database) : Database → Type 0 where
    inserted :
        (fault : Option String) (now : ℕ) (tx : Tx) → Step db (insert_tx columns fault now tx db).1
    updated :
        (fault : Option String) (hash : String) (status : TxStatus)
        → Step db (update_status fault hash status db).1
    pruned : (fault : Option String) (now expiry : ℕ) → Step db (prune fault now expiry db).1

  exec_insert-IsUnique :
      (fault : Option String) (row : TxRow) (db : Database)
      → IsUnique db.txs
      → IsUnique (exec_insert fault row db).1.txs
  unfolding exec_insert
  exec_insert-IsUnique (some e) row db u = u
  exec_insert-IsUnique none row db u = elim (Option-cases (find_tx row.hash db.txs)) [
    | inl p ↦ rw (p, IsUnique) (append-IsUnique db.txs row u p)
    | inr (r, p) ↦ rw (p, IsUnique) u
  ]

  -- No call stores a hash twice.
  pub Step-IsUnique : (db next : Database) → Step db next → IsUnique db.txs → IsUnique next.txs
  unfolding insert_tx update_status prune
  Step-IsUnique db _ (inserted fault now tx) u = elim (Result-cases (tx_fields tx.input)) [
    | inl (i, p) ↦ rw (p, IsUnique) (exec_insert-IsUnique fault (tx_row columns now tx i) db u)
    | inr (e, p) ↦ rw (p, IsUnique) u
  ]
  Step-IsUnique db _ (updated (some e) hash status) u = u
  Step-IsUnique db _ (updated none hash status) u = exec_update-IsUnique hash status db.txs u
  Step-IsUnique db _ (pruned (some e) now expiry) u = u
  Step-IsUnique db _ (pruned none now expiry) u = kept-IsUnique now expiry db.txs u
