-- ===== src/Pipelinedb/Created.antt =====
-- pkg/pipelinedb/db.go: what CreateTransaction returns.
use crypto_batch_payment.Base.{◌≡◌, refl, map, eq_iff, ok, arith}
use crypto_batch_payment.Host.{Host}
use crypto_batch_payment.Txstatus.{tx_state_from_string, tx_state_string}
use crypto_batch_payment.Payoutdb.{TransactionRow, Conn, next_pk, hooks_now}
use crypto_batch_payment.Payoutdb.Fresh.{find-next_pk}
use crypto_batch_payment.Payoutdb.Rows.{insert_transaction}
use crypto_batch_payment.Payoutdb.Writes.{create_transaction_row}
use crypto_batch_payment.Pipelinedb.{Transaction}
use crypto_batch_payment.Pipelinedb.Convert.{transaction_from_row}
use crypto_batch_payment.Pipelinedb.Operations.{create_transaction}
use crypto_batch_payment.Pipelinedb.Frame.{pending_row, time_of}

module _ {H : Host} where
  -- A row that can be read gives its own columns.
  pub transaction_from_row_fields :
      (row : TransactionRow) {tx : Transaction H}
      → transaction_from_row H row ≡ ok tx
      → (tx.hash ≡ row.hash)
        × (tx.nonce ≡ row.nonce)
        × (tx.payout_group_id ≡ row.payout_group_id)
        × (tx.created_at ≡ row.created_at)
        × (tx_state_string tx.state ≡ row.state)
  unfolding transaction_from_row tx_state_from_string tx_state_string
  transaction_from_row_fields row h = ground (
    arith,
    eq_iff row.state "pending",
    eq_iff row.state "dropped",
    eq_iff row.state "failed",
    eq_iff row.state "confirmed",
  )

  -- What CreateTransaction returns is the row that it has inserted, read back.
  pub create_transaction_returns :
      (tx : Transaction H) (c : Conn H) {tx' : Transaction H}
      → (create_transaction H tx c).0 ≡ ok tx'
      → (transaction_from_row H
            (record (pending_row tx (time_of c)) { pk = next_pk (map (λ y. y.pk) c.tables.tx) })
          ≡ ok tx')
  unfolding create_transaction create_transaction_row tx_state_string hooks_now insert_transaction
  create_transaction_returns tx c h = ground (
    arith,
    find-next_pk c.tables.tx
        (record (pending_row tx (time_of c)) { pk = next_pk (map (λ y. y.pk) c.tables.tx) }) refl,
  )
