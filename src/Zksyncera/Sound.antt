-- ===== src/Zksyncera/Sound.antt =====
-- pkg/zksyncera/payer.go: the payer answers about a nonce group as the pipeline relies on.
use crypto_batch_payment.Base.{
  ℕ, ◌≡◌, ◌≢◌, refl, Option, List, [], ◌∷◌, Result, ok, err, pure, arith,
}
use crypto_batch_payment.Base.Rules.{bind_rule}
use crypto_batch_payment.Host.{Host}
use crypto_batch_payment.Txstatus.{TxState, TxStatus, pending, dropped, failed_tx, confirmed}
use crypto_batch_payment.Pipelinedb.{Payout, Transaction, NonceGroup}
use crypto_batch_payment.Payer.{RawTransaction, Sound, IsSound}
use crypto_batch_payment.Zksyncera.{
  Client, receipt_state, check_one, create_transfer, zksyncera_payer,
}

module _ {H : Host} (C : Client H) where
  one-Sound :
      (g : NonceGroup H) (x : Transaction H) (state : TxState) (receipt : Option H.Receipt)
      → g.txs ≡ x ∷ []
      → receipt_state H receipt ≡ state
      → Sound g (ok (state, record { hash = x.hash; state = state; receipt = receipt } ∷ []))
  one-Sound g x pending receipt e s = tt
  one-Sound g x dropped receipt e s = tt
  one-Sound g x failed_tx receipt e s = ground (arith, e)
  one-Sound g x confirmed receipt e s = ground (arith, e)

  check_one-Sound :
      (g : NonceGroup H) (xs : List (Transaction H)) (w : H.World)
      → g.txs ≡ xs
      → Sound g (check_one C xs w).0
  unfolding check_one
  check_one-Sound g [] w e = tt
  check_one-Sound g (x ∷ []) w e =
      bind_rule (λ (r, w'). Sound g r) (C.transaction_receipt (H.hex_to_hash x.hash))
        (λ receipt. pure (
          receipt_state H receipt,
          record { hash = x.hash; state = receipt_state H receipt; receipt = receipt } ∷ [],
        ))
        w (λ x' h. tt) λ receipt h. one-Sound g x (receipt_state H receipt) receipt e refl
  check_one-Sound g (x ∷ y ∷ xs) w e = tt

  -- An answer is of one transaction, which is not dropped.
  abbrev pub OfOne : Result (TxState × List (TxStatus H)) → Type 0
  OfOne (err e) = Unit
  OfOne (ok (state, all)) =
      (st : TxStatus H) × (all ≡ st ∷ []) × (st.state ≡ state) × (state ≢ dropped)

  created_nonce :
      (decimals from : ℕ) (payouts : List (Payout H)) (nonce : ℕ) (price : H.Decimal) (w : H.World)
      (raw : RawTransaction H) (by : ℕ)
      → (create_transfer C decimals from payouts nonce price w).0 ≡ ok (raw, by)
      → raw.nonce ≡ nonce
  unfolding create_transfer
  created_nonce decimals from [] nonce price w raw by h = cc
  created_nonce decimals from (p ∷ []) nonce price w raw by h = ground arith
  created_nonce decimals from (p ∷ q ∷ ps) nonce price w raw by h = cc

  pub zksyncera_payer-IsSound : (decimals from : ℕ) → IsSound (zksyncera_payer C decimals from)
  unfolding zksyncera_payer
  zksyncera_payer-IsSound decimals from = record {
    sound = λ g check_only w. check_one-Sound g g.txs w refl;
    nonce_kept = λ payouts nonce price w {raw} {from = by} h.
        created_nonce decimals from payouts nonce price w raw by h;
  }
