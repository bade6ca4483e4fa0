-- ===== src/Eth.antt =====
-- pkg/eth: the payer on Ethereum, over a client that the module takes as a parameter.
pub mod Sound
use crypto_batch_payment.Base.{
  ℕ, zero, suc, ◌+◌, String, Bool, true, false, not, ◌==◌, if◌then◌else◌, Option, none, some, List,
  [], ◌∷◌, Result, ok, err, Error, not_found, multitransfer, index_out_of_range,
  not_enough_allowance, resend_aborted, unexpected_state, Action, ◌>>=◌, ◌>>◌, pure, raise,
  of_result, raise_if, choose,
}
use crypto_batch_payment.Base.Int.{ℤ, ◌+ℤ◌, ltb_ℤ}
use crypto_batch_payment.Host.{Host}
use crypto_batch_payment.Helpers.{hash_from_string}
use crypto_batch_payment.Storjtoken.{from_usd}
use crypto_batch_payment.Txstatus.{
  TxState, TxStatus, pending, dropped, failed_tx, confirmed, is_dropped,
}
use crypto_batch_payment.Pipelinedb.{Payout, Transaction, NonceGroup}
use crypto_batch_payment.Payer.{Payer, RawTransaction}

-- `Client` and the token contract: calls of the node, which fail with `not_found` where
-- go-ethereum returns its NotFound. `transfer` and `transfer_from` sign, and give the hash.
pub record Client (H : Host) : Type 0 where
  pub nonce_at : ℕ → Action H.World ℕ
  pub base_fee : Action H.World ℤ
  pub balance_of : ℕ → Action H.World ℤ
  pub allowance : ℕ → ℕ → Action H.World ℤ
  pub transfer : (nonce payee : ℕ) → ℤ → Action H.World (ℕ × H.RawTx)
  pub transfer_from : (nonce owner payee : ℕ) → ℤ → Action H.World (ℕ × H.RawTx)
  pub pending_balance_at : ℕ → Action H.World ℤ
  pub send_transaction : H.RawTx → Action H.World (Unit {0})
  -- whether the transaction is pending
  pub transaction_by_hash : ℕ → Action H.World Bool
  pub transaction_receipt : ℕ → Action H.World H.Receipt

-- The fields of `Payer` that are not the client.
pub record Account : Type 0 where
  pub owner : ℕ
  pub from : ℕ
  pub gas_tip_cap : ℤ
  pub max_gas : ℤ
  pub token_decimals : ℕ

unfoldable pub tx_state_from_receipt : (H : Host) → H.Receipt → TxState
tx_state_from_receipt H r = if H.receipt_status r == 1 then confirmed else failed_tx

-- What a failed call of the node says: the state, if the transaction is not found.
abbrev pub if_not_found : (H : Host) → TxState → Error → Result (TxState × Option H.Receipt)
if_not_found H state not_found = ok (state, none)
if_not_found H state e = err e

-- `nonceGroupTransactions`
pub record GroupStatuses (H : Host) : Type 0 where
  pub all : List (TxStatus H)
  pub dropped_ones : List (TxStatus H)
  pub other : List (TxStatus H)

-- One status, with those of the transactions that follow.
abbrev pub add_status : {H : Host} → TxStatus H → GroupStatuses H → GroupStatuses H
add_status st rest = record {
  all = st ∷ rest.all;
  dropped_ones = if is_dropped st.state then st ∷ rest.dropped_ones else rest.dropped_ones;
  other = if is_dropped st.state then rest.other else st ∷ rest.other;
}

abbrev pub state_verdict : TxState → Result TxState
state_verdict pending = ok pending
state_verdict failed_tx = ok failed_tx
state_verdict confirmed = ok confirmed
state_verdict dropped = err unexpected_state

-- The answer for a group, from the transactions that are not dropped.
unfoldable pub verdict : {H : Host} → Bool → List (TxStatus H) → Result TxState
verdict check_only [] = if check_only then err resend_aborted else ok dropped
verdict check_only (st ∷ []) = state_verdict st.state
verdict check_only (st ∷ st' ∷ sts) = ok pending

module _ {H : Host} (C : Client H) where
  abbrev pub receipt_info : ℕ → Action H.World (TxState × Option H.Receipt)
  receipt_info hash w =
      let (r, w') = C.transaction_receipt hash w in
      elim r [
        | ok receipt ↦ (ok (tx_state_from_receipt H receipt, some receipt), w')
        | err e ↦ (if_not_found H pending e, w')
      ]

  -- `GetTransactionInfo`, less the transaction itself, which nothing reads.
  unfoldable pub get_transaction_info : ℕ → Action H.World (TxState × Option H.Receipt)
  get_transaction_info hash w =
      let (r, w') = C.transaction_by_hash hash w in
      elim r [
        | ok true ↦ (ok (pending, none), w')
        | ok false ↦ receipt_info hash w'
        | err e ↦ (if_not_found H dropped e, w')
      ]

  unfoldable pub get_transaction_status : String → Action H.World (TxStatus H)
  get_transaction_status text = do
    hash ← of_result (hash_from_string H text)
    (state, receipt) ← get_transaction_info hash
    pure (record { hash = H.hash_hex hash; state = state; receipt = receipt })

  unfoldable pub get_nonce_group_tx_status : List (Transaction H) → Action H.World (GroupStatuses H)
  get_nonce_group_tx_status [] = pure (record { all = []; dropped_ones = []; other = [] })
  get_nonce_group_tx_status (x ∷ xs) = do
    st ← get_transaction_status x.hash
    rest ← get_nonce_group_tx_status xs
    pure (add_status st rest)

  unfoldable pub check_nonce_group :
      NonceGroup H → Bool → Action H.World (TxState × List (TxStatus H))
  check_nonce_group g check_only = do
    txs ← get_nonce_group_tx_status g.txs
    state ← of_result (verdict check_only txs.other)
    pure (state, txs.all)

  -- The auditor's two questions.
  unfoldable pub check_transaction_state : String → Action H.World TxState
  check_transaction_state text = do
    hash ← of_result (hash_from_string H text)
    (state, receipt) ← get_transaction_info hash
    pure state

  unfoldable pub check_confirmed_transaction_state : String → Action H.World TxState
  check_confirmed_transaction_state text = do
    hash ← of_result (hash_from_string H text)
    receipt ← C.transaction_receipt hash
    pure (tx_state_from_receipt H receipt)

module _ {H : Host} (C : Client H) (A : Account) where
  -- One payout; the spender's allowance is checked where the owner is another.
  abbrev pub delegated : ℕ → ℕ → ℤ → Action H.World (ℕ × H.RawTx)
  delegated nonce payee tokens = do
    allowance ← C.allowance A.owner A.from
    raise_if (ltb_ℤ allowance tokens) not_enough_allowance
    C.transfer_from nonce A.owner payee tokens

  abbrev pub transfer_one : ℕ → Payout H → H.Decimal → Action H.World (ℕ × H.RawTx)
  transfer_one nonce payout price = do
    tokens ← of_result (from_usd H payout.usd price A.token_decimals)
    choose (A.owner == A.from) (C.transfer nonce payout.payee tokens)
        (delegated nonce payout.payee tokens)

  unfoldable pub create_raw_transaction :
      List (Payout H) → ℕ → H.Decimal → Action H.World (RawTransaction H × ℕ)
  create_raw_transaction [] nonce price = raise index_out_of_range
  create_raw_transaction (p ∷ q ∷ ps) nonce price = raise multitransfer
  create_raw_transaction (p ∷ []) nonce price = do
    (hash, raw) ← transfer_one nonce p price
    balance ← C.pending_balance_at A.from
    pure (record { hash = H.hash_hex hash; nonce = nonce; raw = raw }, A.from)

  -- The price of gas must allow for the base fee and the tip.
  unfoldable pub check_preconditions : Action H.World (List String)
  check_preconditions = do
    fee ← C.base_fee
    pure (if ltb_ℤ A.max_gas (fee +ℤ A.gas_tip_cap) then "base fee" ∷ [] else [])

  unfoldable pub eth_payer : Payer H
  unfolding check_nonce_group create_raw_transaction
  eth_payer = record {
    next_nonce = C.nonce_at A.from;
    check_preconditions = check_preconditions;
    get_token_balance = C.balance_of A.owner;
    get_token_decimals = pure A.token_decimals;
    create_raw_transaction = create_raw_transaction;
    send_transaction = λ tx. C.send_transaction tx.raw;
    check_nonce_group = check_nonce_group C;
  }
