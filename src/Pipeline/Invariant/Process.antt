-- ===== src/Pipeline/Invariant/Process.antt =====
-- pkg/pipeline/pipeline.go: ProcessPayouts, from a database that a run may begin with.
use crypto_batch_payment.Base.{
  ℕ, ◌≡◌, refl, List, [], All, Result, ok, subst, Action, ◌>>=◌, ◌>>◌, of_result, filter, ◌∙◌,
}
use crypto_batch_payment.Base.Rules.{bind_rule}
use crypto_batch_payment.Host.{Host}
use crypto_batch_payment.Payoutdb.{Conn}
use crypto_batch_payment.Payoutdb.Rows.{is_pending_row, order_by_nonce}
use crypto_batch_payment.Payoutdb.Reads.{all_transaction_by_state_ordered}
use crypto_batch_payment.Txstatus.{pending, tx_state_string}
use crypto_batch_payment.Pipelinedb.Convert.{transactions_from_rows}
use crypto_batch_payment.Pipelinedb.{NonceGroup}
use crypto_batch_payment.Pipelinedb.Groups.{sort_into_groups}
use crypto_batch_payment.Pipelinedb.Operations.{
  fetch_unfinished_nonce_groups, count_open_payout_groups,
}
use crypto_batch_payment.Pipelinedb.Sorted.{all_txs}
use crypto_batch_payment.Pipelinedb.Unfinished.{fetch_unfinished_nonce_groups_lem}
use crypto_batch_payment.Pipelinedb.Frame.{fetch_unfinished_frame, count_open_frame}
use crypto_batch_payment.Payer.{Payer, IsSound}
use crypto_batch_payment.Pipeline.{Config, Run, on_db, put_groups}
use crypto_batch_payment.Pipeline.Check.{check_nonce_groups}
use crypto_batch_payment.Pipeline.Step.{init_payout, step_loop, process_payouts}
use crypto_batch_payment.Pipeline.Invariant.{InvOf, InvOf-cast}
use crypto_batch_payment.Pipeline.Invariant.Loop.{Live, Kept, KeptBy}
use crypto_batch_payment.Pipeline.Invariant.Checking.{check_nonce_groups-Kept}
use crypto_batch_payment.Pipeline.Invariant.Steps.{step_loop-Kept}
use crypto_batch_payment.Pipeline.Invariant.Starts.{DbOk, DbOk-Known, read-KnownTx}
use crypto_batch_payment.Pipeline.Invariant.Grouping.{
  LiveGroups, sort_into_groups-LiveGroups, groups_ok,
}

module _ {H : Host} where
  abbrev LiveIn : Result (List (NonceGroup H)) × Conn H → Type 0
  LiveIn (r, c) = LiveGroups r

  fetched-LiveGroups : (c : Conn H) → LiveIn (fetch_unfinished_nonce_groups H c)
  unfolding fetch_unfinished_nonce_groups
  fetched-LiveGroups c =
      bind_rule LiveIn (all_transaction_by_state_ordered (tx_state_string pending))
        (λ rows. do
          txs ← of_result (transactions_from_rows H rows)
          of_result (sort_into_groups [] txs))
        c (λ e h. tt)
        λ rows h.
          bind_rule LiveIn (of_result (transactions_from_rows H rows))
            (λ txs. of_result (sort_into_groups [] txs)) _ (λ e h'. tt)
            λ txs h'. sort_into_groups-LiveGroups [] txs tt

  -- The groups that are fetched from a database that a run may begin with.
  fetched_InvOf :
      (c : Conn H) (gs : List (NonceGroup H))
      → DbOk c.tables
      → (fetch_unfinished_nonce_groups H c).0 ≡ ok gs
      → All Live gs × InvOf c.tables [] gs
  fetched_InvOf c gs db h =
      let (read, grouped) = fetch_unfinished_nonce_groups_lem c gs h in
      let live : All Live gs = subst LiveGroups h (fetched-LiveGroups c) in
      let (_, oks, d) = groups_ok c.tables.tx gs grouped live (
        read-KnownTx c.tables.tx (order_by_nonce (filter is_pending_row c.tables.tx)) (all_txs gs)
          read (DbOk-Known c.tables db)) in
      (live, record { write_ahead = tt; groups_ok = oks; distinct = d; keyed = db.0 })

module _ {H : Host} (P : Payer H) (quoter : Action H.World H.Decimal) (fuel : ℕ)
    (cfg : Config) where
  -- A run that has done nothing.
  abbrev pub New : Run H → Type 0
  New s = DbOk s.conn.tables × (s.nonce_groups ≡ []) × (s.sent ≡ [])

  New-Kept :
      (s s' : Run H)
      → New s
      → s'.conn.tables ≡ s.conn.tables
      → s'.nonce_groups ≡ s.nonce_groups
      → s'.sent ≡ s.sent
      → Kept s'
  New-Kept s s' (db, none_yet, nothing) t g e =
      rw (e, nothing, g, none_yet, t)
        (record { write_ahead = tt; groups_ok = tt; distinct = tt; keyed = db.0 }, tt)

  init_payout-Kept : (s : Run H) → IsSound P → New s → KeptBy (init_payout P quoter fuel cfg s)
  unfolding init_payout
  init_payout-Kept s sound new =
      bind_rule KeptBy (on_db (fetch_unfinished_nonce_groups H))
        (λ groups. do
          unstarted ← on_db (count_open_payout_groups H)
          put_groups groups
          check_nonce_groups P quoter fuel cfg)
        s (λ e h. New-Kept s s1 new read refl refl)
        λ groups h.
          bind_rule KeptBy (on_db (count_open_payout_groups H))
            (λ unstarted. do put_groups groups; check_nonce_groups P quoter fuel cfg) s1
            (λ e h'. New-Kept s s2 new counted refl refl)
            λ n h'.
              let (live, inv) = fetched_InvOf s.conn groups new.0 h in
              check_nonce_groups-Kept P quoter fuel cfg (record s2 { nonce_groups = groups }) sound
                live (InvOf-cast counted new.2 refl inv)
    where
      s1 : Run H
      s1 = (on_db (fetch_unfinished_nonce_groups H) s).1

      s2 : Run H
      s2 = (on_db (count_open_payout_groups H) s1).1

      read : s1.conn.tables ≡ s.conn.tables
      read = fetch_unfinished_frame s.conn

      counted : s2.conn.tables ≡ s.conn.tables
      counted = count_open_frame s1.conn ∙ read

  pub process_payouts-KeptBy :
      (rounds : ℕ) (s : Run H)
      → IsSound P
      → New s
      → KeptBy (process_payouts P quoter fuel cfg rounds s)
  unfolding process_payouts
  process_payouts-KeptBy rounds s sound new =
      bind_rule KeptBy (init_payout P quoter fuel cfg) (λ u. step_loop P quoter fuel cfg rounds) s
        (λ e h. init_payout-Kept s sound new)
        λ u h. step_loop-Kept P quoter fuel cfg rounds _ sound (init_payout-Kept s sound new)
