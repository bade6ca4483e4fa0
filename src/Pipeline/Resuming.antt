-- ===== src/Pipeline/Resuming.antt =====
-- pkg/pipeline/pipeline.go: initPayout takes up the transactions that are pending in the database.
use crypto_batch_payment.Base.{
  ℕ, true, ◌≡◌, refl, ap, ◌⊎◌, inl, inr, List, Result, ok, err, Error, is_err, subst, Action, ◌>>=◌,
  ◌>>◌, filter,
}
use crypto_batch_payment.Base.Rules.{bind_rule}
use crypto_batch_payment.Host.{Host}
use crypto_batch_payment.Payoutdb.Rows.{is_pending_row, order_by_nonce}
use crypto_batch_payment.Pipelinedb.Convert.{transactions_from_rows}
use crypto_batch_payment.Pipelinedb.{NonceGroup}
use crypto_batch_payment.Pipelinedb.Operations.{
  fetch_unfinished_nonce_groups, count_open_payout_groups,
}
use crypto_batch_payment.Pipelinedb.Sorted.{WellGrouped, all_txs}
use crypto_batch_payment.Pipelinedb.Unfinished.{fetch_unfinished_nonce_groups_lem}
use crypto_batch_payment.Payer.{Payer}
use crypto_batch_payment.Pipeline.{Config, Run, on_db, put_groups}
use crypto_batch_payment.Pipeline.Check.{check_nonce_groups}
use crypto_batch_payment.Pipeline.Advance.{Advanced, check_nonce_groups-Advanced}
use crypto_batch_payment.Pipeline.Step.{init_payout, step_loop, process_payouts}

module _ {H : Host} where
  -- One of the two reads at the start of a run fails.
  abbrev pub ReadFails : Run H → Type 0
  ReadFails s =
      (is_err (fetch_unfinished_nonce_groups H s.conn).0 ≡ true)
      ⊎ (is_err (count_open_payout_groups H (fetch_unfinished_nonce_groups H s.conn).1).0 ≡ true)

  -- The groups hold the transactions that are pending in the database, in the order of their nonces.
  abbrev pub Pending : Run H → List (NonceGroup H) → Type 0
  Pending s gs =
      (transactions_from_rows H (order_by_nonce (filter is_pending_row s.conn.tables.tx))
        ≡ ok (all_txs gs))
      × WellGrouped gs

  -- The start of a run fails on a read, or has the pending transactions as its nonce groups, and
  -- has checked them.
  abbrev Started : Run H → Result (Unit {0}) × Run H → Type 0
  Started s r =
      ((is_err r.0 ≡ true) × (r.1.nonce_groups ≡ s.nonce_groups) × ReadFails s)
      ⊎ ((gs : List (NonceGroup H)) × Pending s gs × Advanced gs r.1.nonce_groups)

module _ {H : Host} (P : Payer H) (quoter : Action H.World H.Decimal) (fuel : ℕ)
    (cfg : Config) where
  init_payout-Started : (s : Run H) → Started s (init_payout P quoter fuel cfg s)
  unfolding init_payout
  init_payout-Started s =
      bind_rule (Started s) (on_db (fetch_unfinished_nonce_groups H))
        (λ groups. do
          unstarted ← on_db (count_open_payout_groups H)
          put_groups groups
          check_nonce_groups P quoter fuel cfg)
        s (λ e h. inl (refl, refl, inl (ap is_err h)))
        λ groups h.
          bind_rule (Started s) (on_db (count_open_payout_groups H))
            (λ unstarted. do put_groups groups; check_nonce_groups P quoter fuel cfg) s1
            (λ e h'. inl (refl, refl, inr (ap is_err h')))
            λ n h'. inr (
              groups,
              fetch_unfinished_nonce_groups_lem s.conn groups h,
              check_nonce_groups-Advanced P quoter fuel cfg
                  (record (on_db (count_open_payout_groups H) s1).1 { nonce_groups = groups }),
            )
    where
      s1 : Run H
      s1 = (on_db (fetch_unfinished_nonce_groups H) s).1

  -- What follows the check of the groups: an error, or the steps.
  abbrev pub Follows : ℕ → Run H → Result (Unit {0}) × Run H → Type 0
  Follows rounds s1 r =
      ((is_err r.0 ≡ true) × (r.1 ≡ s1)) ⊎ (r ≡ step_loop P quoter fuel cfg rounds s1)

  -- A run fails on a read; or it has the pending transactions as its nonce groups, checks them, and
  -- goes on with the steps, if that does not fail.
  abbrev pub TakenUp : ℕ → Run H → Result (Unit {0}) × Run H → Type 0
  TakenUp rounds s r =
      ((is_err r.0 ≡ true) × (r.1.nonce_groups ≡ s.nonce_groups) × ReadFails s)
      ⊎ ((gs : List (NonceGroup H)) × (s1 : Run H) × Pending s gs
          × Advanced gs s1.nonce_groups
          × Follows rounds s1 r)

  failed_start :
      (rounds : ℕ) (s s1 : Run H) {e : Error} → Started s (err e, s1) → TakenUp rounds s (err e, s1)
  failed_start rounds s s1 (inl unread) = inl unread
  failed_start rounds s s1 (inr (gs, read, advanced)) =
      inr (gs, s1, read, advanced, inl (refl, refl))

  started :
      (rounds : ℕ) (s s1 : Run H)
      → Started s (ok tt, s1)
      → TakenUp rounds s (step_loop P quoter fuel cfg rounds s1)
  started rounds s s1 (inl unread) = cc
  started rounds s s1 (inr (gs, read, advanced)) = inr (gs, s1, read, advanced, inr refl)

  pub process_payouts-TakenUp :
      (rounds : ℕ) (s : Run H) → TakenUp rounds s (process_payouts P quoter fuel cfg rounds s)
  unfolding process_payouts
  process_payouts-TakenUp rounds s =
      bind_rule (TakenUp rounds s) (init_payout P quoter fuel cfg)
        (λ u. step_loop P quoter fuel cfg rounds) s
        (λ e h. failed_start rounds s s1 (subst (λ r. Started s (r, s1)) h (init_payout-Started s)))
        λ u h. started rounds s s1 (subst (λ r. Started s (r, s1)) h (init_payout-Started s))
    where
      s1 : Run H
      s1 = (init_payout P quoter fuel cfg s).1
