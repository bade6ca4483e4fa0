-- ===== src/Pipelinedb/Keyed.antt =====
-- pkg/pipelinedb/db.go: FinalizeNonceGroup keeps the ids of the rows of payout_group.
use crypto_batch_payment.Base.{
  ℕ, String, Bool, true, false, when, ◌≡◌, List, [], ◌∷◌, Result, ◌>>◌, arith,
}
use crypto_batch_payment.Base.Rules.{bind_rule}
use crypto_batch_payment.Host.{Host}
use crypto_batch_payment.Txstatus.{TxStatus, is_confirmed}
use crypto_batch_payment.Payoutdb.{Conn, hooks_now, with_tx}
use crypto_batch_payment.Payoutdb.Rows.{update_payout_group, update_transaction}
use crypto_batch_payment.Payoutdb.Writes.{
  update_no_return_payout_group, update_no_return_transaction,
}
use crypto_batch_payment.Payoutdb.Keys.{UniquePks, finish_group-UniquePks}
use crypto_batch_payment.Pipelinedb.{NonceGroup}
use crypto_batch_payment.Pipelinedb.Frame.{time_of}
use crypto_batch_payment.Pipelinedb.Operations.{
  set_transaction_status, finish_if_confirmed, finalize_statuses, finalize_nonce_group,
}

module _ {H : Host} where
  set_transaction_status_groups :
      (st : TxStatus H) (c : Conn H)
      → (set_transaction_status H st c).1.tables.payout_group ≡ c.tables.payout_group
  unfolding set_transaction_status update_no_return_transaction update_transaction hooks_now
  set_transaction_status_groups st c = ground arith

  finish-UniquePks :
      (b : Bool) (id : ℕ) (h : String) (c : Conn H)
      → UniquePks c.tables.payout_group
      → UniquePks (when b (update_no_return_payout_group id h) c).1.tables.payout_group
  unfolding update_no_return_payout_group update_payout_group hooks_now
  finish-UniquePks true id h c u =
      ground (arith, finish_group-UniquePks (time_of c) id h c.tables.payout_group u)
  finish-UniquePks false id h c u = u

  finalize_statuses-UniquePks :
      (id : ℕ) (statuses : List (TxStatus H)) (c : Conn H)
      → UniquePks c.tables.payout_group
      → UniquePks (finalize_statuses H id statuses c).1.tables.payout_group
  unfolding finalize_statuses
  finalize_statuses-UniquePks id [] c u = u
  finalize_statuses-UniquePks id (st ∷ statuses) c u =
      bind_rule Keyed (set_transaction_status H st)
        (λ _. finish_if_confirmed H id st >> finalize_statuses H id statuses) c (λ e _. one)
        λ _ _.
          bind_rule Keyed (finish_if_confirmed H id st) (λ _. finalize_statuses H id statuses) c1
            (λ e _. two) λ _ _. finalize_statuses-UniquePks id statuses c2 two
    where
      Keyed : Result (Unit {0}) × Conn H → Type 0
      Keyed (r, c') = UniquePks c'.tables.payout_group

      c1 : Conn H
      c1 = (set_transaction_status H st c).1

      c2 : Conn H
      c2 = (finish_if_confirmed H id st c1).1

      one : UniquePks c1.tables.payout_group
      one = rw (set_transaction_status_groups st c) u

      two : UniquePks c2.tables.payout_group
      two = finish-UniquePks (is_confirmed st.state) id st.hash c1 one

  pub finalize_nonce_group-UniquePks :
      (g : NonceGroup H) (statuses : List (TxStatus H)) (c : Conn H)
      → UniquePks c.tables.payout_group
      → UniquePks (finalize_nonce_group H g statuses c).1.tables.payout_group
  unfolding finalize_nonce_group with_tx
  finalize_nonce_group-UniquePks g statuses c u = ground (
    arith,
    finalize_statuses-UniquePks g.payout_group_id statuses
        (record c { world = (H.statement_fault c.world).1 }) u,
  )
