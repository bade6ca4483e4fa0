-- ===== src/Pipelinedb/Open.antt =====
-- pkg/pipelinedb/db.go: the payout group that FetchFirstOpenPayoutGroup gives.
use crypto_batch_payment.Base.{
  Option-cases, Result-cases, false, ◌≡◌, inl, inr, none, some, find, ok, arith,
}
use crypto_batch_payment.Host.{Host}
use crypto_batch_payment.Payoutdb.{PayoutGroupRow, Conn}
use crypto_batch_payment.Payoutdb.Rows.{has_pending, is_unfinished_unattached}
use crypto_batch_payment.Payoutdb.Reads.{first_unfinished_unattached}
use crypto_batch_payment.Payoutdb.Keys.{UniquePks, find-by_pk}
use crypto_batch_payment.Pipelinedb.{PayoutGroup}
use crypto_batch_payment.Pipelinedb.Convert.{payout_group_from_row}
use crypto_batch_payment.Pipelinedb.Operations.{fetch_first_open_payout_group}

module _ {H : Host} where
  first_unfinished_unattached-found :
      (c : Conn H) (g : PayoutGroupRow)
      → UniquePks c.tables.payout_group
      → (first_unfinished_unattached c).0 ≡ ok (some g)
      → find (is_unfinished_unattached c.tables) c.tables.payout_group ≡ some g
  unfolding first_unfinished_unattached
  first_unfinished_unattached-found c g u h =
      elim (Option-cases (find (is_unfinished_unattached c.tables) c.tables.payout_group)) [
        | inl none_found ↦ ground arith
        | inr (x, found) ↦
            ground (
              arith,
              find-by_pk (is_unfinished_unattached c.tables) c.tables.payout_group x u found,
            )
      ]

  -- A payout group that is given has no final transaction and no pending one, if the ids of the rows
  -- are of one row each.
  pub fetch_first_open_payout_group-open :
      (c : Conn H) (g : PayoutGroup)
      → UniquePks c.tables.payout_group
      → (fetch_first_open_payout_group H c).0 ≡ ok (some g)
      → (has_pending c.tables.tx g.id ≡ false) × (g.final_tx_hash ≡ none)
  unfolding fetch_first_open_payout_group payout_group_from_row
  fetch_first_open_payout_group-open c g u h =
      elim (Result-cases (first_unfinished_unattached c).0) [
        | inr (e, failed) ↦ ground arith
        | inl (none, nothing) ↦ ground arith
        | inl (some x, found) ↦
            let at_pk = first_unfinished_unattached-found c x u found in
            ground (
              arith,
              find-by_pk (is_unfinished_unattached c.tables) c.tables.payout_group x u at_pk,
            )
      ]
