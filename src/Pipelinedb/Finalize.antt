-- ===== src/Pipelinedb/Finalize.antt =====
-- pkg/pipelinedb/db.go: FinalizeNonceGroup changes the states of the transactions that it is given
-- statuses for, and of no other.
use crypto_batch_payment.Base.{
  ℕ, String, Bool, Option, true, false, when, ◌≡◌, refl, List, [], ◌∷◌, All, Result, ◌>>◌,
  of_result, arith,
}
use crypto_batch_payment.Base.Rules.{bind_rule}
use crypto_batch_payment.Host.{Host}
use crypto_batch_payment.Txstatus.{TxStatus, tx_state_string, is_confirmed}
use crypto_batch_payment.Payoutdb.{Conn, hooks_now, with_tx}
use crypto_batch_payment.Payoutdb.Rows.{update_payout_group, update_transaction}
use crypto_batch_payment.Payoutdb.Writes.{
  update_no_return_payout_group, update_no_return_transaction,
}
use crypto_batch_payment.Payoutdb.Same.{
  contains, SameBut, SameBut-refl, SameBut-trans, SameBut-settle,
}
use crypto_batch_payment.Pipelinedb.{NonceGroup}
use crypto_batch_payment.Pipelinedb.Frame.{time_of}
use crypto_batch_payment.Pipelinedb.Operations.{
  receipt_column, set_transaction_status, finish_if_confirmed, finalize_statuses,
  finalize_nonce_group,
}

module _ {H : Host} (hs : List String) where
  update-SameBut :
      (h state : String) (receipt : Option String) (c : Conn H)
      → contains hs h ≡ true
      → SameBut hs c.tables.tx (update_no_return_transaction h state receipt c).1.tables.tx
  unfolding update_no_return_transaction update_transaction hooks_now
  update-SameBut h state receipt c e = ground (
    arith,
    SameBut-refl hs c.tables.tx,
    SameBut-settle hs (time_of c) h state receipt c.tables.tx e,
  )

  set_transaction_status-SameBut :
      (st : TxStatus H) (c : Conn H)
      → contains hs st.hash ≡ true
      → SameBut hs c.tables.tx (set_transaction_status H st c).1.tables.tx
  unfolding set_transaction_status
  set_transaction_status-SameBut st c e =
      bind_rule (λ (r, c'). SameBut hs c.tables.tx c'.tables.tx)
        (of_result (receipt_column H st.receipt))
        (update_no_return_transaction st.hash (tx_state_string st.state)) c
        (λ _ _. SameBut-refl hs c.tables.tx)
        λ receipt _. update-SameBut st.hash (tx_state_string st.state) receipt c e

  finish_frame :
      (b : Bool) (id : ℕ) (h : String) (c : Conn H)
      → (when b (update_no_return_payout_group id h) c).1.tables.tx ≡ c.tables.tx
  unfolding update_no_return_payout_group update_payout_group hooks_now
  finish_frame true id h c = ground arith
  finish_frame false id h c = refl

  finish_if_confirmed_frame :
      (id : ℕ) (st : TxStatus H) (c : Conn H)
      → (finish_if_confirmed H id st c).1.tables.tx ≡ c.tables.tx
  finish_if_confirmed_frame id st c = finish_frame (is_confirmed st.state) id st.hash c

  finalize_statuses-SameBut :
      (id : ℕ) (statuses : List (TxStatus H)) (c : Conn H)
      → All (λ st. contains hs st.hash ≡ true) statuses
      → SameBut hs c.tables.tx (finalize_statuses H id statuses c).1.tables.tx
  unfolding finalize_statuses
  finalize_statuses-SameBut id [] c h = SameBut-refl hs c.tables.tx
  finalize_statuses-SameBut id (st ∷ statuses) c h =
      bind_rule Kept (set_transaction_status H st)
        (λ _. finish_if_confirmed H id st >> finalize_statuses H id statuses) c (λ e _. one)
        λ _ _.
          bind_rule Kept (finish_if_confirmed H id st) (λ _. finalize_statuses H id statuses) c1
            (λ e _. rw (finish_if_confirmed_frame id st c1) one)
            λ _ _. SameBut-trans hs c.tables.tx c1.tables.tx _ one (
              rw (← finish_if_confirmed_frame id st c1)
                (finalize_statuses-SameBut id statuses c2 h.1))
    where
      Kept : Result (Unit {0}) × Conn H → Type 0
      Kept (r, c') = SameBut hs c.tables.tx c'.tables.tx

      c1 : Conn H
      c1 = (set_transaction_status H st c).1

      c2 : Conn H
      c2 = (finish_if_confirmed H id st c1).1

      one : SameBut hs c.tables.tx c1.tables.tx
      one = set_transaction_status-SameBut st c h.0

  -- The transaction is committed or rolled back; either way, a row whose hash no status has stays
  -- as it was, and every row keeps its hash and its payout group.
  pub finalize_nonce_group-SameBut :
      (g : NonceGroup H) (statuses : List (TxStatus H)) (c : Conn H)
      → All (λ st. contains hs st.hash ≡ true) statuses
      → SameBut hs c.tables.tx (finalize_nonce_group H g statuses c).1.tables.tx
  unfolding finalize_nonce_group with_tx
  finalize_nonce_group-SameBut g statuses c h = ground (
    arith,
    SameBut-refl hs c.tables.tx,
    finalize_statuses-SameBut g.payout_group_id statuses
        (record c { world = (H.statement_fault c.world).1 }) h,
  )
