-- ===== src/Pipelinedb/Stats.antt =====
-- pkg/pipelinedb/db.go: Stats, and what its calls read.
pub mod Numbered
pub mod Balanced
use crypto_batch_payment.Base.{
  ℕ, String, Bool, ◌&&◌, ◌==◌, Option, none, List, [], ◌∷◌, any, length, if◌then◌else◌, Action,
  ◌>>=◌, pure, of_result,
}
use crypto_batch_payment.Host.{Host}
use crypto_batch_payment.Txstatus.{pending, failed_tx, confirmed, dropped, tx_state_string}
use crypto_batch_payment.Payoutdb.{Conn}
use crypto_batch_payment.Payoutdb.Reads.{
  all_payout_unfinished, count_payout_group, count_payout_group_unfinished, count_transaction,
  count_transaction_by_state,
}
use crypto_batch_payment.Pipelinedb.{Payout}
use crypto_batch_payment.Pipelinedb.Operations.{fetch_payouts}
use crypto_batch_payment.Pipelinedb.Convert.{payouts_from_rows}

-- `DBStats`. Nothing fills the addresses of the spender and of the owner.
pub record DbStats (H : Host) : Type 0 where
  pub spender : Option ℕ
  pub owner : Option ℕ
  pub payees : ℕ
  pub total_payouts : ℕ
  pub total_usd : H.Decimal
  pub pending_payouts : ℕ
  pub pending_usd : H.Decimal
  pub total_payout_groups : ℕ
  pub pending_payout_groups : ℕ
  pub total_transactions : ℕ
  pub pending_transactions : ℕ
  pub failed_transactions : ℕ
  pub confirmed_transactions : ℕ
  pub dropped_transactions : ℕ

-- A set of addresses.
abbrev pub add_payee : ℕ → List ℕ → List ℕ
add_payee a seen = if any (λ b. b == a) seen then seen else a ∷ seen

module _ (H : Host) where
  unfoldable pub payees_of : List (Payout H) → List ℕ → List ℕ
  payees_of [] seen = seen
  payees_of (p ∷ ps) seen = payees_of ps (add_payee p.payee seen)

  unfoldable pub add_usd : List (Payout H) → H.Decimal → H.Decimal
  add_usd [] sum = sum
  add_usd (p ∷ ps) sum = add_usd ps (H.decimal_add sum p.usd)

  -- The part of `Stats` that counts rows.
  unfoldable pub count_rows : (all left : List (Payout H)) → Action (Conn H) (DbStats H)
  count_rows all left = do
    groups ← count_payout_group
    open_groups ← count_payout_group_unfinished
    txs ← count_transaction
    waiting ← count_transaction_by_state (tx_state_string pending)
    failures ← count_transaction_by_state (tx_state_string failed_tx)
    done ← count_transaction_by_state (tx_state_string confirmed)
    lost ← count_transaction_by_state (tx_state_string dropped)
    pure (record {
      spender = none;
      owner = none;
      payees = length (payees_of all []);
      total_payouts = length all;
      total_usd = add_usd all H.decimal_zero;
      pending_payouts = length left;
      pending_usd = add_usd left H.decimal_zero;
      total_payout_groups = groups;
      pending_payout_groups = open_groups;
      total_transactions = txs;
      pending_transactions = waiting;
      failed_transactions = failures;
      confirmed_transactions = done;
      dropped_transactions = lost;
    })

  -- The payouts of the groups that are not finished.
  unfoldable pub fetch_left_payouts : Action (Conn H) (List (Payout H))
  fetch_left_payouts = do rows ← all_payout_unfinished; of_result (payouts_from_rows H rows)

  unfoldable pub db_stats : Action (Conn H) (DbStats H)
  db_stats = do all ← fetch_payouts H; left ← fetch_left_payouts; count_rows all left
