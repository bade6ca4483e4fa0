-- ===== src/Pipelinedb/Convert.antt =====
-- pkg/pipelinedb/db.go: PayoutFromRow, PayoutGroupFromRow, TransactionFromRow and their lists.
use crypto_batch_payment.Base.{
  String, Option, none, some, List, [], ◌∷◌, Result, ok, or_error, bad_usd, bad_gas_price,
  bad_storj_price, bad_tokens, bad_receipt, bad_state,
}
use crypto_batch_payment.Base.Bind.{◌>>=◌}
use crypto_batch_payment.Host.{Host}
use crypto_batch_payment.Helpers.{address_from_string, hash_from_string}
use crypto_batch_payment.Txstatus.{tx_state_from_string}
use crypto_batch_payment.Payoutdb.{PayoutGroupRow, PayoutRow, TransactionRow}
use crypto_batch_payment.Pipelinedb.{Payout, PayoutGroup, Transaction}

-- The rows in turn, up to the first that cannot be read.
abbrev pub all_from_rows : {R A : Type 0} → (R → Result A) → List R → Result (List A)
all_from_rows f [] = ok []
all_from_rows f (r ∷ rs) = do a ← f r; rest ← all_from_rows f rs; ok (a ∷ rest)

module _ (H : Host) where
  unfoldable pub payout_from_row : PayoutRow → Result (Payout H)
  payout_from_row row = do
    payee ← address_from_string H row.payee
    usd ← or_error (H.decimal_from_string row.usd) bad_usd
    ok (record {
      csv_line = row.csv_line;
      payee = payee;
      usd = usd;
      payout_group_id = row.payout_group_id;
    })

  unfoldable pub payout_group_from_row : PayoutGroupRow → Result PayoutGroup
  payout_group_from_row row = elim row.final_tx_hash [
    | none ↦ ok (record { id = row.id; final_tx_hash = none })
    | some text ↦ do
      hash ← hash_from_string H text
      ok (record { id = row.id; final_tx_hash = some hash })
  ]

  -- The receipt column is optional, and must be JSON where it is set.
  abbrev pub receipt_from_column : Option String → Result (Option H.Receipt)
  receipt_from_column none = ok none
  receipt_from_column (some text) = do
    receipt ← or_error (H.receipt_from_json text) bad_receipt
    ok (some receipt)

  unfoldable pub transaction_from_row : TransactionRow → Result (Transaction H)
  transaction_from_row row = do
    owner ← address_from_string H row.owner
    spender ← address_from_string H row.spender
    gas_price ← or_error (H.int_from_string row.estimated_gas_price) bad_gas_price
    price ← or_error (H.decimal_from_string row.storj_price) bad_storj_price
    tokens ← or_error (H.int_from_string row.storj_tokens) bad_tokens
    receipt ← receipt_from_column row.receipt
    state ← or_error (tx_state_from_string row.state) bad_state
    ok (record {
      created_at = row.created_at;
      hash = row.hash;
      owner = owner;
      spender = spender;
      nonce = row.nonce;
      estimated_gas_price = gas_price;
      storj_price = price;
      storj_tokens = tokens;
      payout_group_id = row.payout_group_id;
      raw = row.raw;
      state = state;
      receipt = receipt;
    })

  abbrev pub payouts_from_rows : List PayoutRow → Result (List (Payout H))
  payouts_from_rows = all_from_rows payout_from_row

  abbrev pub transactions_from_rows : List TransactionRow → Result (List (Transaction H))
  transactions_from_rows = all_from_rows transaction_from_row
