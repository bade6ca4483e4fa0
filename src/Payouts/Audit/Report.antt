-- ===== src/Payouts/Audit/Report.antt =====
-- pkg/payouts/audit.go: Audit as a whole, from the names of the files to the file of receipts; and
-- the simulated auditor of pkg/payer/sim.go. The calls that make a node's auditor, and os.WriteFile,
-- are parameters.
use crypto_batch_payment.Base.{
  ℕ, String, Bool, true, ◌||◌, ◌==◌, str_eq, List, [], ◌∷◌, Result, Action, ◌>>=◌, ◌>>◌, pure,
  of_result, choose,
}
use crypto_batch_payment.Host.{Host}
use crypto_batch_payment.Txstatus.{confirmed}
use crypto_batch_payment.Payer.Types.{PayerType, eth, sim, zksync_era, polygon}
use crypto_batch_payment.Payoutdb.{Conn}
use crypto_batch_payment.Pipelinedb.{Payout}
use crypto_batch_payment.Receipts.{Buffer, empty_buffer, emit, finalize}
use crypto_batch_payment.Store.{Disk, outside, on_tables}
use crypto_batch_payment.Store.Opening.{open_db}
use crypto_batch_payment.Payouts.{from_csv}
use crypto_batch_payment.Payouts.Directory.{db_path_from_dir, load}
use crypto_batch_payment.Payouts.Running.{beside}
use crypto_batch_payment.Payouts.Audit.{Auditor, AuditStats, Progress, audit}

unfoldable pub sim_auditor : {H : Host} → Auditor H
sim_auditor = record {
  check_state = λ hash. pure confirmed;
  check_confirmed_state = λ hash. pure confirmed;
}

-- The `switch` on the payment method.
abbrev pub auditor_for :
    {H : Host}
    → (new_eth new_zksync_era : Action H.World (Auditor H)) → PayerType
    → Action H.World (Auditor H)
auditor_for new_eth new_zksync_era eth = new_eth
auditor_for new_eth new_zksync_era polygon = new_eth
auditor_for new_eth new_zksync_era sim = pure sim_auditor
auditor_for new_eth new_zksync_era zksync_era = new_zksync_era

module _ (H : Host) (csv_line : List String → String)
    (write_file : String → List String → Action H.World (Unit {0})) where
  -- The buffer after the receipts, of which the latest is the first of the list.
  abbrev pub buffer_of : PayerType → List (ℕ × H.Decimal × String) → Buffer
  buffer_of type [] = empty_buffer
  buffer_of type ((wallet, amount, hash) ∷ earlier) =
      emit H csv_line
        (record { wallet = wallet; amount = amount; tx_hash = hash; mechanism = type })
        (buffer_of type earlier)

  -- The last `switch`.
  unfoldable pub write_receipts : PayerType → String → Bool → Progress H → Action H.World (Unit {0})
  write_receipts type out force st = choose (str_eq out "") (pure tt) (
      choose (st.payouts_confirmed == st.stats.total || force)
        (write_file out (finalize csv_line (buffer_of type st.receipts)).0) (pure tt))

  -- From the open database on.
  unfoldable pub audit_and_write :
      Auditor H → PayerType → String → Bool → List (Payout H) → Action (Conn H) AuditStats
  audit_and_write A type out force csv = do
    st ← audit A csv
    beside (write_receipts type out force st)
    pure st.stats

module _ (H : Host) (csv_line : List String → String)
    (write_file : String → List String → Action H.World (Unit {0}))
    (read_all : String → Result (List (List String))) (read_file : String → Action H.World String)
    (mkdir_temp : String → Action H.World String)
    (new_eth new_zksync_era : Action H.World (Auditor H)) where
  -- `Audit`, given the directory that `dbDirFromCSVPath` makes of the names. The database is open
  -- for reading, and the statements are queries.
  unfoldable pub audit_csv :
      Result String → String → PayerType → String → Bool → Action (Disk H) AuditStats
  audit_csv db_dir csv_path type out force = do
    A ← outside (auditor_for new_eth new_zksync_era type)
    rows ← load H read_all read_file mkdir_temp csv_path
    dir ← of_result db_dir
    opened ← open_db (db_path_from_dir dir) true
    on_tables opened.handle (audit_and_write H csv_line write_file A type out force (from_csv rows))
