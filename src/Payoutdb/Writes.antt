-- ===== src/Payoutdb/Writes.antt =====
-- pkg/payoutdb/payoutdb.dbx.go: the methods that create and update rows.
use crypto_batch_payment.Base.{
  ℕ, String, Option, none, some, ◌==◌, find, Result, ok, err, no_rows, Action, ◌>>=◌,
}
use crypto_batch_payment.Host.{Host}
use crypto_batch_payment.Payoutdb.{TransactionRow, Tables, Conn, statement, hooks_now}
use crypto_batch_payment.Payoutdb.Rows.{
  insert_payout_group, insert_payout, insert_transaction, update_payout_group, update_transaction,
  update_metadata,
}

abbrev pub transaction_by_pk : ℕ → Tables → Result (TransactionRow × Tables)
transaction_by_pk pk t = elim (find (λ y. y.pk == pk) t.tx) [
  | none ↦ err no_rows
  | some y ↦ ok (y, t)
]

module _ {H : Host} where
  unfoldable pub create_no_return_payout_group : ℕ → Action (Conn H) (Unit {0})
  create_no_return_payout_group id = do now ← hooks_now; statement (insert_payout_group now id)

  unfoldable pub create_no_return_payout : ℕ → String → String → ℕ → Action (Conn H) (Unit {0})
  create_no_return_payout csv_line payee usd group_id = do
    now ← hooks_now
    statement (insert_payout now csv_line payee usd group_id)

  -- The row is read back by its id in a second statement, `getLastTransaction`.
  unfoldable pub create_transaction_row :
      (hash owner spender : String) (nonce : ℕ) (gas_price price tokens : String) (group_id : ℕ)
      (raw state : String)
      → Action (Conn H) TransactionRow
  create_transaction_row hash owner spender nonce gas_price price tokens group_id raw state = do
    now ← hooks_now
    pk ← statement (
        insert_transaction (record {
          pk = 0;
          created_at = now;
          updated_at = now;
          hash = hash;
          owner = owner;
          spender = spender;
          nonce = nonce;
          estimated_gas_price = gas_price;
          storj_price = price;
          storj_tokens = tokens;
          payout_group_id = group_id;
          raw = raw;
          state = state;
          receipt = none;
        }))
    statement (transaction_by_pk pk)

  unfoldable pub update_no_return_payout_group : ℕ → String → Action (Conn H) (Unit {0})
  update_no_return_payout_group id hash = do
    now ← hooks_now
    statement (λ t. ok (tt, update_payout_group now id hash t))

  unfoldable pub update_no_return_transaction :
      String → String → Option String → Action (Conn H) (Unit {0})
  update_no_return_transaction hash state receipt = do
    now ← hooks_now
    statement (λ t. ok (tt, update_transaction now hash state receipt t))

  unfoldable pub update_no_return_metadata :
      (pk attempts : ℕ) (spender owner : Option String) → Action (Conn H) (Unit {0})
  update_no_return_metadata pk attempts spender owner = do
    now ← hooks_now
    statement (λ t. ok (tt, update_metadata now pk attempts spender owner t))
