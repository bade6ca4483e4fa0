-- ===== src/Examples/Reports.antt =====
-- The numbers of a database, a prompt and an audit with receipts, and the theorems at these.
use crypto_batch_payment.Base.{
  ℕ, String, false, none, List, [], ◌∷◌, ◌≡◌, ◌↔◌, refl, ok, Action, All, str_eq, if◌then◌else◌,
  pure, raise, canceled,
}
use crypto_batch_payment.Txstatus.{tx_state_string, tx_state_from_string}
use crypto_batch_payment.Payoutdb.Reads.{
  all_payout, all_payout_unfinished, count_payout_group, count_payout_group_unfinished,
  count_transaction, count_transaction_by_state, all_transaction, count_payout_by_group,
  all_transaction_by_group,
}
use crypto_batch_payment.Helpers.{address_from_string}
use crypto_batch_payment.Pipelinedb.Convert.{payout_from_row, transaction_from_row}
use crypto_batch_payment.Pipelinedb.Operations.{
  fetch_payouts, fetch_transactions, fetch_payout_group_payout_count,
  fetch_payout_group_transactions,
}
use crypto_batch_payment.Pipelinedb.Stats.{
  DbStats, payees_of, add_usd, count_rows, fetch_left_payouts, db_stats,
}
use crypto_batch_payment.Pipelinedb.Stats.Balanced.{HasState, Balanced, db_stats-Balanced}
use crypto_batch_payment.Payer.Types.{sim, zksync_era, type_from_string}
use crypto_batch_payment.Payer.Types.Names.{Names, type_from_string-Names}
use crypto_batch_payment.Payouts.Running.{do_run}
use crypto_batch_payment.Payouts.Running.Confirmed.{OnlyConfirmed, do_run-OnlyConfirmed}
use crypto_batch_payment.Receipts.{Receipt, header, empty_buffer, finalize}
use crypto_batch_payment.Receipts.Lines.{
  Call, emit_call, finalize_call, after, emitted, lines, finalize-lines,
}
use crypto_batch_payment.Base.Int.{pos}
use crypto_batch_payment.Payoutdb.{Conn}
use crypto_batch_payment.Payouts.Audit.{
  Progress, audit, count_mismatched, reconcile, by_line, check_states, audit_payouts,
  confirmed_count,
}
use crypto_batch_payment.Payouts.Audit.Report.{write_receipts}
use crypto_batch_payment.Payouts.Audit.Paid.{Paid, write_receipts-Paid}
use crypto_batch_payment.Examples
use crypto_batch_payment.Examples.{
  host, quoter, cfg, start, busy, auditor, group_row, payout_row, tx_row, first_payout,
}

abbrev numbers : DbStats host
numbers = record {
  spender = none;
  owner = none;
  payees = 1;
  total_payouts = 2;
  total_usd = 4;
  pending_payouts = 2;
  pending_usd = 4;
  total_payout_groups = 2;
  pending_payout_groups = 2;
  total_transactions = 1;
  pending_transactions = 1;
  failed_transactions = 0;
  confirmed_transactions = 0;
  dropped_transactions = 0;
}

busy_numbers : (db_stats host busy.conn).0 ≡ ok numbers
unfolding db_stats fetch_payouts fetch_left_payouts count_rows all_payout all_payout_unfinished
    count_payout_group count_payout_group_unfinished count_transaction count_transaction_by_state
    payees_of add_usd tx_state_string payout_from_row address_from_string
busy_numbers = refl

busy_states : All HasState busy.conn.tables.tx
unfolding tx_state_from_string
busy_states = (refl, tt)

db_stats-Balanced_example : Balanced busy.conn.tables numbers
db_stats-Balanced_example = db_stats-Balanced busy.conn numbers busy_states busy_numbers

-- Only draining is confirmed.
abbrev prompt : String → Action ℕ (Unit {0})
prompt text = if str_eq text "Drain" then pure tt else raise canceled

do_run-OnlyConfirmed_example :
    OnlyConfirmed {H = host} Examples.sim quoter
      (λ n. pure tt)
      prompt
      cfg
      start
      (do_run Examples.sim quoter (λ n. pure tt) prompt 1 cfg 3 start)
do_run-OnlyConfirmed_example =
    do_run-OnlyConfirmed Examples.sim quoter (λ n. pure tt) prompt 1 cfg 3 start

type_from_string-Names_example :
    (type_from_string (λ s. s) "zksync2" ≡ ok zksync_era) ↔ Names "zksync2" zksync_era
type_from_string-Names_example = type_from_string-Names (λ s. s) "zksync2" zksync_era

abbrev first_field : List String → String
first_field [] = ""
first_field (x ∷ xs) = x

abbrev receipt : Receipt host
receipt = record { wallet = 3; amount = 2; tx_hash = "5"; mechanism = sim }

abbrev calls : List (Call host)
calls = emit_call receipt ∷ finalize_call ∷ emit_call receipt ∷ []

finalize-lines_example :
    (finalize first_field (after host first_field calls empty_buffer)).0
    ≡ first_field header ∷ lines host first_field (emitted host first_field calls)
finalize-lines_example = finalize-lines host first_field calls

-- One payout, with its confirmed transaction.
abbrev paid : Conn host
paid = record {
  tables = record {
    metadata = [];
    payout_group = group_row 1 ∷ [];
    payout = payout_row 1 ∷ [];
    tx = record tx_row { state = "confirmed" } ∷ [];
  };
  world = 1;
}

abbrev audited : Progress host
audited = record {
  stats = record {
    total = 1;
    confirmed_payouts = 1;
    false_confirmed = 0;
    overpaid = 0;
    unstarted = 0;
    pending_payouts = 0;
    failed_payouts = 0;
    dropped_payouts = 0;
    unknown_payouts = 0;
    mismatched = 0;
    double_pays = 0;
    double_pay_storj = pos 0;
  };
  group_status = (1, "3") ∷ [];
  receipts = (3, 2, "3") ∷ [];
  payouts_confirmed = 1;
}

one_confirmed : (audit auditor (first_payout ∷ []) paid).0 ≡ ok audited
unfolding audit count_mismatched reconcile by_line check_states audit_payouts confirmed_count
    fetch_payouts fetch_transactions fetch_payout_group_payout_count fetch_payout_group_transactions
    all_payout all_transaction count_payout_by_group all_transaction_by_group payout_from_row
    transaction_from_row address_from_string tx_state_from_string
one_confirmed = refl

abbrev no_disk : String → List String → Action ℕ (Unit {0})
no_disk name bytes = raise canceled

write_receipts-Paid_example :
    Paid host first_field no_disk sim "receipts.csv" false audited 1
      (write_receipts host first_field no_disk sim "receipts.csv" false audited 1)
write_receipts-Paid_example =
    write_receipts-Paid host first_field no_disk auditor (first_payout ∷ []) sim "receipts.csv"
      false paid audited 1 one_confirmed
