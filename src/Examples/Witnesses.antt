-- ===== src/Examples/Witnesses.antt =====
-- The theorems at concrete inputs, at which their hypotheses hold.
use crypto_batch_payment.Base.{
  length, ◌≤◌, true, false, ◌≡◌, refl, ◌⊎◌, ◌↔◌, none, some, is_some, ltb, [], ◌∷◌, is_err, ok, err,
  failed, Action, ◌>>◌, raise, arith,
}
use crypto_batch_payment.Base.Int.{pos, leb_ℤ}
use crypto_batch_payment.Helpers.{address_from_string}
use crypto_batch_payment.Storjtoken.{from_usd}
use crypto_batch_payment.Txstatus.{failed_tx, confirmed, tx_state_string, tx_state_from_string}
use crypto_batch_payment.Txstatus.Texts.{tx_state_from_string-tx_state_string}
use crypto_batch_payment.Payoutdb.{Conn, hooks_now, with_tx, next_pk}
use crypto_batch_payment.Payoutdb.Rows.{
  has_pending, order_by_nonce, insert_transaction, insert_payout_group,
}
use crypto_batch_payment.Payoutdb.Writes.{create_no_return_payout_group, create_transaction_row}
use crypto_batch_payment.Payoutdb.Reads.{
  first_unfinished_unattached, get_payout_group_by_pk, count_unfinished_unattached,
  all_transaction_by_state_ordered,
}
use crypto_batch_payment.Payoutdb.Atomic.{with_tx_atomic}
use crypto_batch_payment.Payoutdb.Same.{SameBut}
use crypto_batch_payment.Pipelinedb.{PayoutGroup}
use crypto_batch_payment.Pipelinedb.Convert.{
  payout_group_from_row, transaction_from_row, transactions_from_rows,
}
use crypto_batch_payment.Pipelinedb.Groups.{sort_into_groups}
use crypto_batch_payment.Pipelinedb.Operations.{
  address_text, record_start, create_payout_group, fetch_first_open_payout_group,
  count_open_payout_groups, fetch_unfinished_nonce_groups, create_transaction, finalize_nonce_group,
}
use crypto_batch_payment.Pipelinedb.Metadata.{record_start_lem}
use crypto_batch_payment.Pipelinedb.Imported.{Imported, create_payout_group-Imported}
use crypto_batch_payment.Pipelinedb.Open.{fetch_first_open_payout_group-open}
use crypto_batch_payment.Pipelinedb.Counting.{fetch_first_open-count_open}
use crypto_batch_payment.Pipelinedb.Frame.{pending_row, time_of, create_transaction_cases}
use crypto_batch_payment.Pipelinedb.Created.{create_transaction_returns}
use crypto_batch_payment.Pipelinedb.Finalize.{finalize_nonce_group-SameBut}
use crypto_batch_payment.Pipelinedb.Sorted.{WellGrouped}
use crypto_batch_payment.Pipelinedb.Unfinished.{fetch_unfinished_nonce_groups_lem}
use crypto_batch_payment.Payer.{IsExact}
use crypto_batch_payment.Payer.Sim.{sim_payer}
use crypto_batch_payment.Eth.{eth_payer}
use crypto_batch_payment.Eth.Sound.{eth_payer-IsExact}
use crypto_batch_payment.Pipeline.Send.{quote_tokens, send_transaction}
use crypto_batch_payment.Pipeline.Sending.{LeftFrom, send_transaction-LeftBy}
use crypto_batch_payment.Pipeline.Quotes.{Covers, Priced, quote_tokens_lem}
use crypto_batch_payment.Pipeline.Check.{check_nonce_groups}
use crypto_batch_payment.Pipeline.Advance.{Advanced, check_nonce_groups-Advanced}
use crypto_batch_payment.Pipeline.Step.{fill, step_loop, process_payouts}
use crypto_batch_payment.Pipeline.Nonces.{ConsecutiveBy, fill-Consecutive}
use crypto_batch_payment.Pipeline.Filling.{fill_bound, fill_enough}
use crypto_batch_payment.Pipeline.Invariant.Loop.{KeptBy}
use crypto_batch_payment.Pipeline.Invariant.Steps.{step_loop-Kept}
use crypto_batch_payment.Coinmarketcap.{get_quote}
use crypto_batch_payment.Coinmarketcap.Cache.{Served, get_quote-Served}
use crypto_batch_payment.Infura.{get_suggested_gas_fees}
use crypto_batch_payment.Infura.Cache.{Given, get_suggested_gas_fees-Given}
use crypto_batch_payment.Payouts.{create_payout_groups}
use crypto_batch_payment.Payouts.Ready.{fresh_run, process_imported-Kept}
use crypto_batch_payment.Payouts.Import.{Numbered, create_payout_groups-Numbered}
use crypto_batch_payment.Examples.{
  digit, host, sim, quoter, cfg, tables, start, start_Kept, sim_IsSound, pending_tx, tx_row,
  busy_group, busy, third_payout, started, node, account, prices, priced, gas_fees, fee_cache,
}

step_loop-Kept_example : KeptBy (step_loop sim quoter 1 cfg 3 start)
step_loop-Kept_example = step_loop-Kept sim quoter 1 cfg 3 start sim_IsSound start_Kept

send_transaction-LeftBy_example : LeftFrom 1 tables [] (send_transaction sim quoter 1 cfg 1 0 start)
send_transaction-LeftBy_example = send_transaction-LeftBy sim quoter 1 cfg 1 0 start

check_nonce_groups-Advanced_example :
    Advanced (busy_group ∷ []) (check_nonce_groups sim quoter 1 cfg busy).1.nonce_groups
check_nonce_groups-Advanced_example = check_nonce_groups-Advanced sim quoter 1 cfg busy

eth_payer-IsExact_example : IsExact (eth_payer node account)
eth_payer-IsExact_example = eth_payer-IsExact node account

create_payout_group-Imported_example :
    Imported 3
      (third_payout ∷ [])
      tables
      (create_payout_group host 3 (third_payout ∷ []) start.conn)
create_payout_group-Imported_example = create_payout_group-Imported 3 (third_payout ∷ []) start.conn

fill_bound_example :
    (length (fill sim quoter 1 cfg 3 0 false start).1.nonce_groups ≡ 0)
    ⊎ ((length (fill sim quoter 1 cfg 3 0 false start).1.nonce_groups ≤ 2) × (false ≡ false))
fill_bound_example = fill_bound sim quoter 1 cfg 3 0 false start

fill_enough_example : fill sim quoter 1 cfg 3 0 false start ≡ fill sim quoter 1 cfg 5 0 false start
fill_enough_example = fill_enough sim quoter 1 cfg 2 4 0 false start (omega arith) (omega arith)

fill-Consecutive_example : ConsecutiveBy (fill sim quoter 1 cfg 3 0 false busy)
fill-Consecutive_example = fill-Consecutive sim quoter 1 cfg 3 0 false busy sim_IsSound tt

fetched : (fetch_unfinished_nonce_groups host busy.conn).0 ≡ ok (busy_group ∷ [])
unfolding fetch_unfinished_nonce_groups all_transaction_by_state_ordered order_by_nonce
    sort_into_groups transaction_from_row address_from_string tx_state_from_string tx_state_string
fetched = refl

fetch_unfinished_nonce_groups_lem_example :
    (transactions_from_rows host (order_by_nonce (tx_row ∷ [])) ≡ ok (pending_tx ∷ []))
    × WellGrouped (busy_group ∷ [])
fetch_unfinished_nonce_groups_lem_example =
    fetch_unfinished_nonce_groups_lem busy.conn (busy_group ∷ []) fetched

quoted : (quote_tokens sim quoter 1 cfg 2 1).0 ≡ ok (pos 2, 1)
unfolding quote_tokens from_usd sim_payer
quoted = refl

quote_tokens_lem_example :
    ((quoter 1).0 ≡ ok 1)
    × Priced host 2 (ok 8) 1 (pos 2)
    × (leb_ℤ (pos 2) (pos 0) ≡ false)
    × Covers (ok (pos 1000000000000)) (pos 2)
unfolding sim_payer
quote_tokens_lem_example = quote_tokens_lem sim quoter 1 cfg 2 1 (pos 2) 1 quoted

abbrev first_open : PayoutGroup
first_open = record { id = 1; final_tx_hash = none }

open_conn : (fetch_first_open_payout_group host start.conn).0 ≡ ok (some first_open)
unfolding fetch_first_open_payout_group first_unfinished_unattached get_payout_group_by_pk
    payout_group_from_row
open_conn = refl

fetch_first_open_payout_group-open_example :
    (has_pending tables.tx 1 ≡ false) × (first_open.final_tx_hash ≡ none)
fetch_first_open_payout_group-open_example =
    fetch_first_open_payout_group-open start.conn first_open (refl, (refl, tt)) open_conn

counted : (count_open_payout_groups host start.conn).0 ≡ ok 2
unfolding count_open_payout_groups count_unfinished_unattached
counted = refl

fetch_first_open-count_open_example : is_some (some first_open) ≡ ltb 0 2
fetch_first_open-count_open_example =
    fetch_first_open-count_open start.conn start.conn (some first_open) 2 refl open_conn counted

create_transaction_cases_example :
    ((create_transaction host pending_tx start.conn).1.tables ≡ tables)
      × (is_err (create_transaction host pending_tx start.conn).0 ≡ true)
    ⊎ (insert_transaction (pending_row pending_tx (time_of start.conn)) tables
        ≡ ok (next_pk [], (create_transaction host pending_tx start.conn).1.tables))
create_transaction_cases_example = create_transaction_cases pending_tx start.conn

created :
    (create_transaction host pending_tx start.conn).0
    ≡ ok (record pending_tx { created_at = 1000000000 })
unfolding create_transaction create_transaction_row hooks_now insert_transaction
    transaction_from_row address_from_string tx_state_from_string tx_state_string next_pk
created = refl

create_transaction_returns_example :
    transaction_from_row host
      (record (pending_row pending_tx (time_of start.conn)) { pk = next_pk [] })
    ≡ ok (record pending_tx { created_at = 1000000000 })
create_transaction_returns_example = create_transaction_returns pending_tx start.conn created

finalize_nonce_group-SameBut_example :
    SameBut
      ("3" ∷ [])
      (tx_row ∷ [])
      (finalize_nonce_group host busy_group
        (record { hash = "3"; state = confirmed; receipt = none } ∷ [])
        busy.conn).1.tables.tx
finalize_nonce_group-SameBut_example =
    finalize_nonce_group-SameBut ("3" ∷ []) busy_group
      (record { hash = "3"; state = confirmed; receipt = none } ∷ []) busy.conn (refl, tt)

record_start_lem_example :
    let (r, c') = record_start host started 2 none start.conn in
    ((is_err r ≡ true) × (c'.tables ≡ tables))
    ⊎ ((is_err r ≡ false) × (some "1" ≡ some (digit 2)) × (address_text host none ≡ none))
record_start_lem_example = record_start_lem started 2 none start.conn (λ e. cc)

abbrev group_then_fail : Action (Conn host) (Unit {0})
group_then_fail = do create_no_return_payout_group 3; raise (failed 7)

rolled_back : (with_tx group_then_fail start.conn).0 ≡ err (failed 7)
unfolding with_tx create_no_return_payout_group hooks_now insert_payout_group
rolled_back = refl

with_tx_atomic_example : (with_tx group_then_fail start.conn).1.tables ≡ tables
with_tx_atomic_example = with_tx_atomic group_then_fail start.conn rolled_back

tx_state_from_string-tx_state_string_example :
    (tx_state_from_string "failed" ≡ some failed_tx) ↔ (tx_state_string failed_tx ≡ "failed")
tx_state_from_string-tx_state_string_example =
    tx_state_from_string-tx_state_string "failed" failed_tx

create_payout_groups-Numbered_example :
    Numbered 2
      (third_payout ∷ [])
      tables
      (create_payout_groups host 2 (third_payout ∷ []) start.conn)
create_payout_groups-Numbered_example =
    create_payout_groups-Numbered 2 (third_payout ∷ []) start.conn

get_quote-Served_example :
    Served host prices 60 "STORJ" "ETH" priced (get_quote host prices 60 "STORJ" priced)
get_quote-Served_example = get_quote-Served host prices 60 "STORJ" "ETH" priced refl

get_suggested_gas_fees-Given_example :
    Given host gas_fees 60 1 10 fee_cache (get_suggested_gas_fees host gas_fees 60 1 fee_cache)
get_suggested_gas_fees-Given_example =
    get_suggested_gas_fees-Given host gas_fees 60 1 10 fee_cache refl

process_imported-Kept_example : KeptBy (
    process_payouts sim quoter 1 cfg 3
      (fresh_run (create_payout_groups host 2 (third_payout ∷ []) start.conn).1))
process_imported-Kept_example =
    process_imported-Kept sim quoter 1 cfg 2 (third_payout ∷ []) start.conn 3 sim_IsSound
      ((refl, (refl, tt)), tt)
