-- ===== src/Zksyncera.antt =====
-- pkg/zksyncera: the payer and the auditor on zkSync Era, over a client that the module takes as a
-- parameter.
pub mod Sound
use crypto_batch_payment.Base.{
  ℕ, String, Bool, true, false, ◌==◌, str_eq, if◌then◌else◌, Option, none, some, List, [], ◌∷◌,
  Result, ok, err, Error, not_found, multitransfer, index_out_of_range, not_one_transaction,
  hash_mismatch, unknown_status, Action, ◌>>=◌, ◌>>◌, pure, raise, raise_if, of_result, not, ◌||◌,
}
use crypto_batch_payment.Base.Int.{ℤ}
use crypto_batch_payment.Host.{Host}
use crypto_batch_payment.Storjtoken.{from_usd}
use crypto_batch_payment.Txstatus.{TxState, TxStatus, pending, dropped, failed_tx, confirmed}
use crypto_batch_payment.Pipelinedb.{Payout, Transaction, NonceGroup}
use crypto_batch_payment.Payer.{Payer, RawTransaction}

-- The wallet, the node and the signer. `sign_transfer` stands for what the SDK does with a payee,
-- an amount and a nonce: it packs the call, asks for the gas and the chain, and signs. A receipt
-- that is not there yet is `none`; `receipt_batch` is the number of the batch of a receipt.
pub record Client (H : Host) : Type 0 where
  pub nonce : Action H.World ℕ
  pub balance : Action H.World ℤ
  pub decimals : Action H.World ℕ
  pub sign_transfer : (payee : ℕ) → ℤ → (nonce : ℕ) → Action H.World (ℕ × H.RawTx)
  pub send_raw_transaction : H.RawTx → Action H.World ℕ
  pub transaction_receipt : ℕ → Action H.World (Option H.Receipt)
  pub transaction_status : ℕ → Action H.World String
  pub receipt_batch : ℕ → Action H.World ℕ
  pub batch_status : ℕ → Action H.World String
  pub to_lower : String → String

-- `stateFromStatus`, of a status in lower case.
unfoldable pub state_from_status : String → Result TxState
state_from_status s =
    if str_eq s "pending" || str_eq s "included"
    then ok pending
    else if str_eq s "verified"
    then ok confirmed
    else if str_eq s "failed"
    then ok failed_tx
    else err unknown_status

-- The state by a receipt.
abbrev pub receipt_state : (H : Host) → Option H.Receipt → TxState
receipt_state H none = pending
receipt_state H (some r) = if H.receipt_status r == 1 then confirmed else failed_tx

-- What an error of the node is taken for, where the transaction is not found.
abbrev pub if_missing : TxState → Error → Result TxState
if_missing state not_found = ok state
if_missing state e = err e

module _ {H : Host} (C : Client H) where
  unfoldable pub check_one : List (Transaction H) → Action H.World (TxState × List (TxStatus H))
  check_one [] = raise not_one_transaction
  check_one (x ∷ y ∷ xs) = raise not_one_transaction
  check_one (x ∷ []) = do
    receipt ← C.transaction_receipt (H.hex_to_hash x.hash)
    let state : TxState = receipt_state H receipt
    pure (state, record { hash = x.hash; state = state; receipt = receipt } ∷ [])

  unfoldable pub create_transfer :
      ℕ → ℕ → List (Payout H) → ℕ → H.Decimal → Action H.World (RawTransaction H × ℕ)
  create_transfer decimals from [] nonce price = raise index_out_of_range
  create_transfer decimals from (p ∷ q ∷ ps) nonce price = raise multitransfer
  create_transfer decimals from (p ∷ []) nonce price = do
    tokens ← of_result (from_usd H p.usd price decimals)
    (hash, raw) ← C.sign_transfer p.payee tokens nonce
    pure (record { hash = H.hash_hex hash; nonce = nonce; raw = raw }, from)

  -- The hash that the chain returns must be the one that has been recorded.
  unfoldable pub send_transfer : RawTransaction H → Action H.World (Unit {0})
  send_transfer tx = do
    hash ← C.send_raw_transaction tx.raw
    raise_if (not (str_eq (H.hash_hex hash) tx.hash)) hash_mismatch

  -- `decimals` was read when the payer was made, `from` is the signer's address.
  unfoldable pub zksyncera_payer : (decimals from : ℕ) → Payer H
  unfolding check_one create_transfer send_transfer
  zksyncera_payer decimals from = record {
    next_nonce = C.nonce;
    check_preconditions = pure [];
    get_token_balance = C.balance;
    get_token_decimals = C.decimals;
    create_raw_transaction = create_transfer decimals from;
    send_transaction = send_transfer;
    check_nonce_group = λ g check_only. check_one g.txs;
  }

  abbrev pub by_status : TxState → Action H.World String → Action H.World TxState
  by_status missing ask w =
      let (r, w') = ask w in
      elim r [
        | ok status ↦ (state_from_status (C.to_lower status), w')
        | err e ↦ (if_missing missing e, w')
      ]

  abbrev pub status_of_batch : ℕ → Action H.World TxState
  status_of_batch batch = do
    status ← C.batch_status batch
    of_result (state_from_status (C.to_lower status))

  abbrev pub batch_state : Result ℕ → Action H.World TxState
  batch_state (ok batch) = status_of_batch batch
  batch_state (err e) = of_result (if_missing pending e)

  -- The auditor's two questions. The state of a confirmed transaction is that of its batch.
  unfoldable pub audit_confirmed_state : String → Action H.World TxState
  audit_confirmed_state text w =
      let (r, w') = C.receipt_batch (H.hex_to_hash text) w in batch_state r w'

  unfoldable pub audit_transaction_state : String → Action H.World TxState
  audit_transaction_state text = by_status dropped (C.transaction_status (H.hex_to_hash text))
