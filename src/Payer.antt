-- ===== src/Payer.antt =====
-- pkg/payer/payer.go: the interface between the pipeline and a chain, with what the pipeline
-- relies on of an answer about a nonce group.
pub mod Sim
pub mod Types
use crypto_batch_payment.Base.{
  ℕ, ◌<◌, String, Bool, true, false, not, ◌⊎◌, List, [], ◌∷◌, map, filter, any, length, All, ◌≡◌,
  Result, ok, err, Action,
}
use crypto_batch_payment.Base.Int.{ℤ}
use crypto_batch_payment.Host.{Host}
use crypto_batch_payment.Txstatus.{
  TxState, TxStatus, pending, dropped, failed_tx, confirmed, is_confirmed, is_dropped,
}
use crypto_batch_payment.Pipelinedb.{Payout, NonceGroup}

-- `payer.Transaction`
pub record RawTransaction (H : Host) : Type 0 where
  pub hash : String
  pub nonce : ℕ
  pub raw : H.RawTx

pub record Payer (H : Host) : Type 0 where
  pub next_nonce : Action H.World ℕ
  -- the preconditions that are not met
  pub check_preconditions : Action H.World (List String)
  pub get_token_balance : Action H.World ℤ
  pub get_token_decimals : Action H.World ℕ
  -- with the address of the sender
  pub create_raw_transaction :
      List (Payout H) → ℕ → H.Decimal → Action H.World (RawTransaction H × ℕ)
  pub send_transaction : RawTransaction H → Action H.World (Unit {0})
  pub check_nonce_group : NonceGroup H → Bool → Action H.World (TxState × List (TxStatus H))

abbrev pub is_settled : TxState → Bool
is_settled pending = false
is_settled _ = true

module _ {H : Host} where
  -- An answer that ends a nonce group: it has a status for each transaction of the group, in
  -- order, none of them pending; one of the transactions is confirmed just if the group is.
  abbrev pub Settles : NonceGroup H → TxState × List (TxStatus H) → Type 0
  Settles g (state, all) =
      (map (λ st. st.hash) all ≡ map (λ x. x.hash) g.txs)
      × All (λ st. is_settled st.state ≡ true) all
      × (any (λ st. is_confirmed st.state) all ≡ is_confirmed state)

  abbrev pub Sound : NonceGroup H → Result (TxState × List (TxStatus H)) → Type 0
  Sound g (err e) = Unit
  Sound g (ok (pending, all)) = Unit
  Sound g (ok (dropped, all)) = Unit
  Sound g (ok (failed_tx, all)) = Settles g (failed_tx, all)
  Sound g (ok (confirmed, all)) = Settles g (confirmed, all)

  pub record IsSound (P : Payer H) : Type 0 where
    pub sound :
        (g : NonceGroup H) (check_only : Bool) (w : H.World)
        → Sound g (P.check_nonce_group g check_only w).0
    -- The transaction has the nonce that was asked for.
    pub nonce_kept :
        (payouts : List (Payout H)) (nonce : ℕ) (price : H.Decimal) (w : H.World)
        {raw : RawTransaction H} {from : ℕ}
        → (P.create_raw_transaction payouts nonce price w).0 ≡ ok (raw, from)
        → raw.nonce ≡ nonce

module _ {H : Host} where
  abbrev pub left_over : List (TxStatus H) → List (TxStatus H)
  left_over all = filter (λ st. not (is_dropped st.state)) all

  -- What an answer rests on: the statuses of the group's transactions, in order, and that
  -- transaction which is not dropped, if there is one such. Only a group that may be sent again is
  -- said to be dropped.
  abbrev pub Exact : NonceGroup H → Bool → Result (TxState × List (TxStatus H)) → Type 0
  Exact g check_only (err e) = Unit
  Exact g check_only (ok (pending, all)) =
      (map (λ st. st.hash) all ≡ map (λ x. x.hash) g.txs)
      × (((st : TxStatus H) × (left_over all ≡ st ∷ []) × (st.state ≡ pending))
          ⊎ (1 < length (left_over all)))
  Exact g check_only (ok (dropped, all)) =
      (map (λ st. st.hash) all ≡ map (λ x. x.hash) g.txs)
      × All (λ st. is_dropped st.state ≡ true) all
      × (check_only ≡ false)
  Exact g check_only (ok (failed_tx, all)) =
      (map (λ st. st.hash) all ≡ map (λ x. x.hash) g.txs)
      × ((st : TxStatus H) × (left_over all ≡ st ∷ []) × (st.state ≡ failed_tx))
  Exact g check_only (ok (confirmed, all)) =
      (map (λ st. st.hash) all ≡ map (λ x. x.hash) g.txs)
      × ((st : TxStatus H) × (left_over all ≡ st ∷ []) × (st.state ≡ confirmed))

  pub record IsExact (P : Payer H) : Type 0 where
    pub is_sound : IsSound P
    pub exact :
        (g : NonceGroup H) (check_only : Bool) (w : H.World)
        → Exact g check_only (P.check_nonce_group g check_only w).0
