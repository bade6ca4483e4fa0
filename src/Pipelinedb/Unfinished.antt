-- ===== src/Pipelinedb/Unfinished.antt =====
-- pkg/pipelinedb/db.go: the nonce groups with which a run begins.
use crypto_batch_payment.Base.{
  ◌≤◌, ◌≡◌, inl, inr, List, [], ◌∷◌, filter, str_eq, Result-cases, ok, arith,
}
use crypto_batch_payment.Host.{Host}
use crypto_batch_payment.Txstatus.{tx_state_string}
use crypto_batch_payment.Payoutdb.{TransactionRow, Conn}
use crypto_batch_payment.Payoutdb.Rows.{insert_by_nonce, order_by_nonce}
use crypto_batch_payment.Payoutdb.Reads.{all_transaction_by_state_ordered}
use crypto_batch_payment.Pipelinedb.{Transaction, NonceGroup}
use crypto_batch_payment.Pipelinedb.Convert.{transaction_from_row, transactions_from_rows}
use crypto_batch_payment.Pipelinedb.Created.{transaction_from_row_fields}
use crypto_batch_payment.Pipelinedb.Operations.{fetch_unfinished_nonce_groups}
use crypto_batch_payment.Pipelinedb.Sorted.{
  all_txs, WellGrouped, Sorted, UptoFirst, sort_into_groups-Grouped,
}

abbrev SortedRows : List TransactionRow → Type 0
SortedRows [] = Unit
SortedRows (x ∷ []) = Unit
SortedRows (x ∷ y ∷ ys) = (x.nonce ≤ y.nonce) × SortedRows (y ∷ ys)

insert_by_nonce-SortedRows :
    (x : TransactionRow) (ys : List TransactionRow)
    → SortedRows ys
    → SortedRows (insert_by_nonce x ys)
unfolding insert_by_nonce
insert_by_nonce-SortedRows x [] s = tt
insert_by_nonce-SortedRows x (y ∷ []) s = ground arith
insert_by_nonce-SortedRows x (y ∷ z ∷ ys) s =
    ground (arith, insert_by_nonce-SortedRows x (z ∷ ys) s.1)

order_by_nonce-SortedRows : (xs : List TransactionRow) → SortedRows (order_by_nonce xs)
unfolding order_by_nonce
order_by_nonce-SortedRows [] = tt
order_by_nonce-SortedRows (x ∷ xs) =
    insert_by_nonce-SortedRows x (order_by_nonce xs) (order_by_nonce-SortedRows xs)

module _ {H : Host} where
  pub cons_read :
      (x : TransactionRow) (rows : List TransactionRow) (t : Transaction H)
      (ts : List (Transaction H))
      → transactions_from_rows H (x ∷ rows) ≡ ok (t ∷ ts)
      → (transaction_from_row H x ≡ ok t) × (transactions_from_rows H rows ≡ ok ts)
  cons_read x rows t ts e = ground arith

  tail_of_one :
      (x : TransactionRow) (t u : Transaction H) (ts : List (Transaction H))
      → transactions_from_rows H (x ∷ []) ≡ ok (t ∷ u ∷ ts)
      → Sorted (t ∷ u ∷ ts)
  tail_of_one x t u ts e = let (p, q) = cons_read x [] t (u ∷ ts) e in cc

  rows-Sorted :
      (rows : List TransactionRow) (txs : List (Transaction H))
      → SortedRows rows
      → transactions_from_rows H rows ≡ ok txs
      → Sorted txs
  rows-Sorted [] [] s e = tt
  rows-Sorted [] (t ∷ ts) s e = cc
  rows-Sorted (x ∷ rows) [] s e = tt
  rows-Sorted (x ∷ rows) (t ∷ []) s e = tt
  rows-Sorted (x ∷ []) (t ∷ u ∷ ts) s e = tail_of_one x t u ts e
  rows-Sorted (x ∷ y ∷ rows) (t ∷ u ∷ ts) s e =
      let (p, q) = cons_read x (y ∷ rows) t (u ∷ ts) e in
      let (p', q') = cons_read y rows u ts q in
      let le : t.nonce ≤ u.nonce =
        rw ((transaction_from_row_fields x p).1, (transaction_from_row_fields y p').1) s.0 in
      (le, rows-Sorted (y ∷ rows) (u ∷ ts) s.1 q)

  -- The groups that are fetched hold the pending transactions, in the order of their nonces. Each
  -- group has a nonce of its own, later groups later ones, and its transactions have the nonce and
  -- the payout group of their group.
  pub fetch_unfinished_nonce_groups_lem :
      (c : Conn H) (gs : List (NonceGroup H))
      → (fetch_unfinished_nonce_groups H c).0 ≡ ok gs
      → (transactions_from_rows H
            (order_by_nonce (filter (λ x. str_eq x.state "pending") c.tables.tx))
          ≡ ok (all_txs gs))
        × WellGrouped gs
  unfolding fetch_unfinished_nonce_groups all_transaction_by_state_ordered tx_state_string
  fetch_unfinished_nonce_groups_lem c gs h = elim (Result-cases (transactions_from_rows H rows)) [
    | inr (e, failed) ↦ ground arith
    | inl (txs, read) ↦ ground (
      arith,
      sort_into_groups-Grouped [] txs tt (first txs)
          (rows-Sorted rows txs (order_by_nonce-SortedRows _) read),
    )
  ]
    where
      rows : List TransactionRow
      rows = order_by_nonce (filter (λ x. str_eq x.state "pending") c.tables.tx)

      first : (txs : List (Transaction H)) → UptoFirst [] txs
      first [] = tt
      first (x ∷ xs) = tt
