-- ===== src/Pipelinedb/Frame.antt =====
-- pkg/pipelinedb/db.go: which methods of DB leave the tables alone, and what CreateTransaction
-- may do to them.
use crypto_batch_payment.Base.{ℕ, ◌-◌, ◌%◌, true, ◌≡◌, ◌⊎◌, none, map, is_err, ok, arith}
use crypto_batch_payment.Host.{Host}
use crypto_batch_payment.Txstatus.{tx_state_string}
use crypto_batch_payment.Payoutdb.{TransactionRow, Conn, next_pk, hooks_now}
use crypto_batch_payment.Payoutdb.Rows.{insert_transaction}
use crypto_batch_payment.Payoutdb.Writes.{create_transaction_row}
use crypto_batch_payment.Payoutdb.Reads.{
  all_payout_by_group, count_payout_group, count_payout_group_unfinished,
  all_transaction_by_state_ordered, first_unfinished_unattached, count_unfinished_unattached,
}
use crypto_batch_payment.Pipelinedb.{Transaction}
use crypto_batch_payment.Pipelinedb.Operations.{
  fetch_unfinished_nonce_groups, fetch_first_open_payout_group, fetch_payout_progress,
  count_open_payout_groups, fetch_payout_group_payouts, create_transaction,
}

module _ {H : Host} where
  pub fetch_payout_group_payouts_frame :
      (id : ℕ) (c : Conn H) → (fetch_payout_group_payouts H id c).1.tables ≡ c.tables
  unfolding fetch_payout_group_payouts all_payout_by_group
  fetch_payout_group_payouts_frame id c = ground arith

  pub fetch_first_open_frame :
      (c : Conn H) → (fetch_first_open_payout_group H c).1.tables ≡ c.tables
  unfolding fetch_first_open_payout_group first_unfinished_unattached
  fetch_first_open_frame c = ground arith

  pub fetch_payout_progress_frame : (c : Conn H) → (fetch_payout_progress H c).1.tables ≡ c.tables
  unfolding fetch_payout_progress count_payout_group count_payout_group_unfinished
  fetch_payout_progress_frame c = ground arith

  pub count_open_frame : (c : Conn H) → (count_open_payout_groups H c).1.tables ≡ c.tables
  unfolding count_open_payout_groups count_unfinished_unattached
  count_open_frame c = ground arith

  pub fetch_unfinished_frame :
      (c : Conn H) → (fetch_unfinished_nonce_groups H c).1.tables ≡ c.tables
  unfolding fetch_unfinished_nonce_groups all_transaction_by_state_ordered
  fetch_unfinished_frame c = ground arith

  -- The row that is inserted for a transaction at a time, before it has its id.
  abbrev pub pending_row : Transaction H → ℕ → TransactionRow
  pending_row tx now = record {
    pk = 0;
    created_at = now;
    updated_at = now;
    hash = tx.hash;
    owner = H.address_string tx.owner;
    spender = H.address_string tx.spender;
    nonce = tx.nonce;
    estimated_gas_price = "0";
    storj_price = H.decimal_string tx.storj_price;
    storj_tokens = H.int_string tx.storj_tokens;
    payout_group_id = tx.payout_group_id;
    raw = tx.raw;
    state = "pending";
    receipt = none;
  }

  -- The time that `Hooks.Now` gives.
  abbrev pub time_of : Conn H → ℕ
  time_of c = let t = (H.now c.world).0 in t - t % 1000000

  -- CreateTransaction fails and inserts nothing, or inserts the pending row, even where it then
  -- fails to read the row back.
  pub create_transaction_cases :
      (tx : Transaction H) (c : Conn H)
      → let (r, c') = create_transaction H tx c in
        ((c'.tables ≡ c.tables) × (is_err r ≡ true))
        ⊎ (insert_transaction (pending_row tx (time_of c)) c.tables
            ≡ ok (next_pk (map (λ y. y.pk) c.tables.tx), c'.tables))
  unfolding create_transaction create_transaction_row tx_state_string hooks_now insert_transaction
  create_transaction_cases tx c = ground arith
