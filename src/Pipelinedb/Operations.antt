-- ===== src/Pipelinedb/Operations.antt =====
-- pkg/pipelinedb/db.go: the methods of DB, over an open database.
use crypto_batch_payment.Base.{
  ℕ, zero, suc, ◌+◌, String, str_eq, if◌then◌else◌, Option, none, some, List, [], ◌∷◌, Result, ok,
  err, nil_dereference, spender_changed, owner_changed, Action, ◌>>=◌, ◌>>◌, pure, of_result, when,
}
use crypto_batch_payment.Host.{Host}
use crypto_batch_payment.Txstatus.{TxState, TxStatus, pending, tx_state_string, is_confirmed}
use crypto_batch_payment.Payoutdb.{MetadataRow, PayoutGroupRow, Conn, with_tx}
use crypto_batch_payment.Payoutdb.Writes.{
  create_no_return_payout_group, create_no_return_payout, create_transaction_row,
  update_no_return_payout_group, update_no_return_transaction, update_no_return_metadata,
}
use crypto_batch_payment.Payoutdb.Reads.{
  all_payout, all_payout_by_group, count_payout_by_group, count_payout_group,
  count_payout_group_unfinished, find_payout_group_by_id, all_transaction, all_transaction_by_group,
  all_transaction_by_state_ordered, find_transaction_by_hash, first_unfinished_unattached,
  count_unfinished_unattached,
}
use crypto_batch_payment.Pipelinedb.{Payout, PayoutGroup, Transaction, NonceGroup}
use crypto_batch_payment.Pipelinedb.Convert.{
  payouts_from_rows, payout_group_from_row, transaction_from_row, transactions_from_rows,
}
use crypto_batch_payment.Pipelinedb.Groups.{sort_into_groups}

-- The two `switch`es of `RecordStart`: what to set, from the metadata read when the database was
-- opened. A spender that is missing after the first attempt is a nil dereference.
abbrev pub start_spender : (attempts : ℕ) (known : Option String) → String → Result (Option String)
start_spender zero known spender = ok (some spender)
start_spender (suc n) none spender = err nil_dereference
start_spender (suc n) (some old) spender =
    if str_eq old spender then ok none else err spender_changed

abbrev pub start_owner : (attempts : ℕ) (known owner : Option String) → Result (Option String)
start_owner zero known owner = ok owner
start_owner (suc n) none none = ok none
start_owner (suc n) none (some owner) = err owner_changed
start_owner (suc n) (some old) none = err owner_changed
start_owner (suc n) (some old) (some owner) =
    if str_eq old owner then ok none else err owner_changed

module _ (H : Host) where
  abbrev pub address_text : Option ℕ → Option String
  address_text none = none
  address_text (some a) = some (H.address_string a)

  -- `metadata` is the copy in the handle; it is not refreshed.
  unfoldable pub record_start :
      (metadata : MetadataRow) (spender : ℕ) (owner : Option ℕ) → Action (Conn H) (Unit {0})
  record_start metadata spender owner = do
    new_spender ←
        of_result (start_spender metadata.attempts metadata.spender (H.address_string spender))
    new_owner ← of_result (start_owner metadata.attempts metadata.owner (address_text owner))
    update_no_return_metadata metadata.pk (metadata.attempts + 1) new_spender new_owner

  unfoldable pub create_payouts : ℕ → List (Payout H) → Action (Conn H) (Unit {0})
  create_payouts id [] = pure tt
  create_payouts id (p ∷ ps) = do
    create_no_return_payout p.csv_line (H.address_string p.payee) (H.decimal_string p.usd) id
    create_payouts id ps

  unfoldable pub create_payout_group : ℕ → List (Payout H) → Action (Conn H) (Unit {0})
  create_payout_group id payouts =
      with_tx (do create_no_return_payout_group id; create_payouts id payouts)

  unfoldable pub fetch_payouts : Action (Conn H) (List (Payout H))
  fetch_payouts = do rows ← all_payout; of_result (payouts_from_rows H rows)

  unfoldable pub fetch_unfinished_nonce_groups : Action (Conn H) (List (NonceGroup H))
  fetch_unfinished_nonce_groups = do
    rows ← all_transaction_by_state_ordered (tx_state_string pending)
    txs ← of_result (transactions_from_rows H rows)
    of_result (sort_into_groups [] txs)

  unfoldable pub count_open_payout_groups : Action (Conn H) ℕ
  count_open_payout_groups = count_unfinished_unattached

  abbrev pub group_of_row : Option PayoutGroupRow → Result (Option PayoutGroup)
  group_of_row none = ok none
  group_of_row (some row) = elim (payout_group_from_row H row) [
    | ok g ↦ ok (some g)
    | err e ↦ err e
  ]

  unfoldable pub fetch_first_open_payout_group : Action (Conn H) (Option PayoutGroup)
  fetch_first_open_payout_group = do row ← first_unfinished_unattached; of_result (group_of_row row)

  unfoldable pub fetch_payout_group_payouts : ℕ → Action (Conn H) (List (Payout H))
  fetch_payout_group_payouts id = do
    rows ← all_payout_by_group id
    of_result (payouts_from_rows H rows)

  unfoldable pub fetch_payout_group_payout_count : ℕ → Action (Conn H) ℕ
  fetch_payout_group_payout_count id = count_payout_by_group id

  unfoldable pub fetch_payout_group_transactions : ℕ → Action (Conn H) (List (Transaction H))
  fetch_payout_group_transactions id = do
    rows ← all_transaction_by_group id
    of_result (transactions_from_rows H rows)

  unfoldable pub fetch_transactions : Action (Conn H) (List (Transaction H))
  fetch_transactions = do rows ← all_transaction; of_result (transactions_from_rows H rows)

  -- A row that is not there is a nil row, which `PayoutGroupFromRow` dereferences.
  unfoldable pub fetch_payout_group : ℕ → Action (Conn H) PayoutGroup
  fetch_payout_group id = do
    row ← find_payout_group_by_id id
    of_result (elim row [ none ↦ err nil_dereference | some r ↦ payout_group_from_row H r ])

  unfoldable pub fetch_transaction : ℕ → Action (Conn H) (Transaction H)
  fetch_transaction hash = do
    row ← find_transaction_by_hash (H.hash_hex hash)
    of_result (elim row [ none ↦ err nil_dereference | some r ↦ transaction_from_row H r ])

  unfoldable pub fetch_payout_progress : Action (Conn H) (ℕ × ℕ)
  fetch_payout_progress = do
    total ← count_payout_group
    unfinished ← count_payout_group_unfinished
    pure (unfinished, total)

  -- The receipt's JSON, if there is a receipt.
  abbrev pub receipt_column : Option H.Receipt → Result (Option String)
  receipt_column none = ok none
  receipt_column (some r) = elim (H.receipt_json r) [ ok text ↦ ok (some text) | err e ↦ err e ]

  unfoldable pub set_transaction_status : TxStatus H → Action (Conn H) (Unit {0})
  set_transaction_status status = do
    receipt ← of_result (receipt_column status.receipt)
    update_no_return_transaction status.hash (tx_state_string status.state) receipt

  abbrev pub finish_if_confirmed : ℕ → TxStatus H → Action (Conn H) (Unit {0})
  finish_if_confirmed id status =
      when (is_confirmed status.state) (update_no_return_payout_group id status.hash)

  unfoldable pub finalize_statuses : ℕ → List (TxStatus H) → Action (Conn H) (Unit {0})
  finalize_statuses id [] = pure tt
  finalize_statuses id (status ∷ statuses) = do
    set_transaction_status status
    finish_if_confirmed id status
    finalize_statuses id statuses

  unfoldable pub finalize_nonce_group :
      NonceGroup H → List (TxStatus H) → Action (Conn H) (Unit {0})
  finalize_nonce_group group statuses = with_tx (finalize_statuses group.payout_group_id statuses)

  -- The new row is pending and has no receipt; its gas price is "0".
  unfoldable pub create_transaction : Transaction H → Action (Conn H) (Transaction H)
  create_transaction tx = do
    row ←
        create_transaction_row tx.hash (H.address_string tx.owner) (H.address_string tx.spender)
          tx.nonce "0" (H.decimal_string tx.storj_price) (H.int_string tx.storj_tokens)
          tx.payout_group_id tx.raw (tx_state_string pending)
    of_result (transaction_from_row H row)

  unfoldable pub update_transaction_state : String → TxState → Action (Conn H) (Unit {0})
  update_transaction_state hash state =
      update_no_return_transaction hash (tx_state_string state) none
