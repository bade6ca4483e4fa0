-- ===== src/Pipeline/Send.antt =====
-- pkg/pipeline/pipeline.go: sendTransaction.
use crypto_batch_payment.Base.{
  ℕ, zero, suc, Bool, true, false, List, [], ◌∷◌, none, no_payouts, tokens_not_positive,
  not_enough_balance, still_waiting, Action, ◌>>=◌, ◌>>◌, pure, raise, raise_if, of_result,
}
use crypto_batch_payment.Base.Int.{ℤ, pos, leb_ℤ, ltb_ℤ}
use crypto_batch_payment.Host.{Host}
use crypto_batch_payment.Storjtoken.{from_usd}
use crypto_batch_payment.Txstatus.{pending}
use crypto_batch_payment.Pipelinedb.{Payout, Transaction}
use crypto_batch_payment.Pipelinedb.Operations.{fetch_payout_group_payouts, create_transaction}
use crypto_batch_payment.Payer.{Payer, RawTransaction}
use crypto_batch_payment.Pipeline.{Config, Run, on_db, on_world, pause}

abbrev pub is_empty {ℓ} : {A : Type ℓ} → List A → Bool
is_empty [] = true
is_empty (x ∷ xs) = false

-- `decimal.Sum` over the payouts, from the left.
unfoldable pub sum_usd : (H : Host) → H.Decimal → List (Payout H) → H.Decimal
sum_usd H acc [] = acc
sum_usd H acc (p ∷ ps) = sum_usd H (H.decimal_add acc p.usd) ps

module _ {H : Host} (P : Payer H) where
  -- `SendTransaction`
  abbrev pub submit : RawTransaction H → Action (Run H) (Unit {0})
  submit raw s =
      let s' : Run H = record s { sent = raw ∷ s.sent } in on_world H (P.send_transaction raw) s'

  -- The row is created before the transaction is sent.
  unfoldable pub record_and_submit :
      Transaction H × RawTransaction H → Action (Run H) (Transaction H)
  record_and_submit (tx, raw) = do row ← on_db (create_transaction H tx); submit raw; pure row

module _ {H : Host} (P : Payer H) (quoter : Action H.World H.Decimal) (fuel : ℕ)
    (cfg : Config) where
  -- The wait for the payer's preconditions, five seconds at a time.
  unfoldable pub wait_preconditions : ℕ → Action H.World (Unit {0})
  wait_preconditions zero = raise still_waiting
  wait_preconditions (suc n) = do
    unmet ← P.check_preconditions
    elim unmet [ [] ↦ pure tt | x ∷ xs ↦ pause H 5000000000 >>= λ _. wait_preconditions n ]

  -- The amount for a number of dollars, which must be positive and covered: with the price.
  unfoldable pub quote_tokens : H.Decimal → Action H.World (ℤ × H.Decimal)
  quote_tokens usd = do
    decimals ← P.get_token_decimals
    price ← quoter
    tokens ← of_result (from_usd H usd price decimals)
    raise_if (leb_ℤ tokens (pos 0)) tokens_not_positive
    balance ← P.get_token_balance
    raise_if (ltb_ℤ balance tokens) not_enough_balance
    pure (tokens, price)

  -- The transaction to be recorded, with the signed one. The fields that `CreateTransaction` does
  -- not read have Go's zero values.
  unfoldable pub sign :
      ℕ → ℕ → List (Payout H) → ℤ × H.Decimal → Action H.World (Transaction H × RawTransaction H)
  sign id nonce payouts (tokens, price) = do
    (raw, from) ← P.create_raw_transaction payouts nonce price
    json ← of_result (H.raw_json raw.raw)
    pure (
      record {
        created_at = 0;
        hash = raw.hash;
        owner = cfg.owner;
        spender = from;
        nonce = raw.nonce;
        estimated_gas_price = pos 0;
        storj_price = price;
        storj_tokens = tokens;
        payout_group_id = id;
        raw = json;
        state = pending;
        receipt = none;
      },
      raw,
    )

  unfoldable pub prepare :
      ℕ → ℕ → List (Payout H) → Action H.World (Transaction H × RawTransaction H)
  prepare id nonce payouts = do
    wait_preconditions fuel
    quoted ← quote_tokens (sum_usd H H.decimal_zero payouts)
    sign id nonce payouts quoted

  unfoldable pub send_payouts : ℕ → ℕ → List (Payout H) → Action (Run H) (Transaction H)
  send_payouts id nonce payouts = do
    raise_if (is_empty payouts) no_payouts
    prepared ← on_world H (prepare id nonce payouts)
    record_and_submit P prepared

  unfoldable pub send_transaction : ℕ → ℕ → Action (Run H) (Transaction H)
  send_transaction id nonce = do
    payouts ← on_db (fetch_payout_group_payouts H id)
    send_payouts id nonce payouts
