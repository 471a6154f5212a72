-- ===== src/Database/Pages.antt =====
-- The pages of transactions: their order, and that consecutive pages make up a larger one.
use lightnode.Common.{
  ℕ, zero, suc, ◌+◌, ◌≡◌, refl, ◌∙◌, ap, sym, Bool, true, false, none, List, [], ◌∷◌, ◌++◌, arith,
  take, drop, All, Bool-cases, inl, inr,
}
use lightnode.Common.Result.{Result, ok, err, ◌>>=◌, Result-cases}
use lightnode.Darknode.{Tx, Darknode}
use lightnode.Database.{DbError, Columns, TxRow, Database}
use lightnode.Database.Rows.{row_to_tx}
use lightnode.Database.Txs.{is_before, order_row, order_by, read_rows, query_txs, txs}

-- No later row of the list comes before an earlier one.
abbrev pub IsOrdered : Bool → List TxRow → Type 0
IsOrdered latest [] = Unit {0}
IsOrdered latest (row ∷ rows) =
    All (λ r. is_before latest r row ≡ false) rows × IsOrdered latest rows

All-order_row :
    (latest : Bool) (bound row : TxRow) (rows : List TxRow)
    → is_before latest row bound ≡ false
    → All (λ r. is_before latest r bound ≡ false) rows
    → All (λ r. is_before latest r bound ≡ false) (order_row latest row rows)
unfolding order_row
All-order_row latest bound row [] h a = (h, tt)
All-order_row latest bound row (r ∷ rows) h a = elim (Bool-cases (is_before latest r row)) [
  | inl p ↦ rw (p, All) (a.0, All-order_row latest bound row rows h a.1)
  | inr p ↦ rw (p, All) (h, a)
]

is_before-asym :
    (latest : Bool) (r q : TxRow) → is_before latest r q ≡ true → is_before latest q r ≡ false
unfolding is_before
is_before-asym latest r q h = ground (arith, h)

All-before :
    (latest : Bool) (low bound : TxRow) (rows : List TxRow)
    → is_before latest bound low ≡ false
    → All (λ r. is_before latest r bound ≡ false) rows
    → All (λ r. is_before latest r low ≡ false) rows
unfolding is_before
All-before latest low bound [] h a = tt
All-before latest low bound (r ∷ rows) h a =
    (ground (arith, h, a.0), All-before latest low bound rows h a.1)

order_row-IsOrdered :
    (latest : Bool) (row : TxRow) (rows : List TxRow)
    → IsOrdered latest rows
    → IsOrdered latest (order_row latest row rows)
unfolding order_row
order_row-IsOrdered latest row [] o = (tt, tt)
order_row-IsOrdered latest row (r ∷ rows) o = elim (Bool-cases (is_before latest r row)) [
  | inl p ↦
      rw (p, IsOrdered)
        (
          All-order_row latest r row rows (is_before-asym latest r row p) o.0,
          order_row-IsOrdered latest row rows o.1,
        )
  | inr p ↦ rw (p, IsOrdered) ((p, All-before latest row r rows p o.0), o)
]

-- The ordering of a query: newest first or oldest first, as asked.
pub order_by-IsOrdered :
    (latest : Bool) (rows : List TxRow) → IsOrdered latest (order_by latest rows)
unfolding order_by
order_by-IsOrdered latest [] = tt
order_by-IsOrdered latest (row ∷ rows) =
    order_row-IsOrdered latest row (order_by latest rows) (order_by-IsOrdered latest rows)

zero_plus : (n : ℕ) → zero + n ≡ n
zero_plus n = omega arith

suc_plus : (m n : ℕ) → suc m + n ≡ suc (m + n)
suc_plus m n = omega arith

take_none : (k : ℕ) → take {A = TxRow} k [] ≡ []
take_none zero = refl
take_none (suc k) = refl

drop_none : (k : ℕ) → drop {A = TxRow} k [] ≡ []
drop_none zero = refl
drop_none (suc k) = refl

take_add : (m n : ℕ) (rows : List TxRow) → take (m + n) rows ≡ take m rows ++ take n (drop m rows)
take_add zero n rows = ap (λ k. take k rows) (zero_plus n)
take_add (suc m) n [] = take_none (suc m + n) ∙ sym (take_none n)
take_add (suc m) n (r ∷ rows) =
    ap (λ k. take k (r ∷ rows)) (suc_plus m n) ∙ ap (λ t. r ∷ t) (take_add m n rows)

drop_add : (m n : ℕ) (rows : List TxRow) → drop (m + n) rows ≡ drop n (drop m rows)
drop_add zero n rows = ap (λ k. drop k rows) (zero_plus n)
drop_add (suc m) n [] = drop_none (suc m + n) ∙ sym (drop_none n)
drop_add (suc m) n (r ∷ rows) = ap (λ k. drop k (r ∷ rows)) (suc_plus m n) ∙ drop_add m n rows

read_rows-cons :
    (t : Tx) (a b : Result DbError (List Tx))
    → ((a >>= λ ts. b >>= λ us. ok (ts ++ us)) >>= λ vs. ok (t ∷ vs))
      ≡ ((a >>= λ ts. ok (t ∷ ts)) >>= λ vs. b >>= λ us. ok (vs ++ us))
read_rows-cons t (err e) b = refl
read_rows-cons t (ok ts) (err e) = refl
read_rows-cons t (ok ts) (ok us) = refl

read_rows-append :
    (read : TxRow → Result DbError Tx) (xs ys : List TxRow)
    → read_rows read (xs ++ ys)
      ≡ (read_rows read xs >>= λ a. read_rows read ys >>= λ b. ok (a ++ b))
unfolding read_rows
read_rows-append read [] ys = elim (Result-cases (read_rows read ys)) [
  | inl (b, p) ↦ rw p refl
  | inr (e, p) ↦ rw p refl
]
read_rows-append read (x ∷ xs) ys = elim (Result-cases (read x)) [
  | inl (t, p) ↦
      rw (p, read_rows-append read xs ys) (read_rows-cons t (read_rows read xs) (read_rows read ys))
  | inr (e, p) ↦ rw p refl
]

module _ (columns : Columns) (darknode : Darknode) where
  -- A page is the part of the ordered rows that the next page continues: two consecutive pages
  -- together are the page of their joint length.
  pub pages_join :
      (offset m n : ℕ) (latest : Bool) (db : Database)
      → txs columns darknode none offset (m + n) latest db ≡ (
          txs columns darknode none offset m latest db >>= λ a.
          txs columns darknode none (offset + m) n latest db >>= λ b. ok (a ++ b))
  unfolding txs query_txs
  pages_join offset m n latest db =
      ap (read_rows (row_to_tx columns darknode))
        (take_add m n (drop offset (order_by latest db.txs)))
      ∙ (read_rows-append (row_to_tx columns darknode)
            (take m (drop offset (order_by latest db.txs)))
            (take n (drop m (drop offset (order_by latest db.txs))))
          ∙ rw (drop_add offset m (order_by latest db.txs)) refl)
