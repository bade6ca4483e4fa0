-- ===== src/Pipeline/Step.antt =====
-- pkg/pipeline/pipeline.go: payoutStep, initPayout and ProcessPayouts.
use crypto_batch_payment.Base.{
  ℕ, zero, suc, ◌+◌, Bool, true, false, not, ◌&&◌, ltb, if◌then◌else◌, Option, none, some, List, [],
  ◌∷◌, ◌++◌, length, ok, used_nonce, out_of_fuel, Action, ◌>>=◌, ◌>>◌, pure, raise, raise_if, when,
  choose, gets, modify,
}
use crypto_batch_payment.Host.{Host}
use crypto_batch_payment.Pipelinedb.{PayoutGroup, Transaction, NonceGroup}
use crypto_batch_payment.Pipelinedb.Operations.{
  fetch_unfinished_nonce_groups, fetch_first_open_payout_group, fetch_payout_progress,
  count_open_payout_groups,
}
use crypto_batch_payment.Payer.{Payer}
use crypto_batch_payment.Pipeline.{Config, Run, u64, on_db, on_world, put_groups, pause}
use crypto_batch_payment.Pipeline.Send.{is_empty, send_transaction}
use crypto_batch_payment.Pipeline.Check.{check_nonce_groups}

-- The groups from the first that has transactions on.
unfoldable pub trim : {H : Host} → List (NonceGroup H) → List (NonceGroup H)
trim [] = []
trim (g ∷ gs) = if is_empty g.txs then trim gs else g ∷ gs

-- The nonce of the last group.
abbrev pub last_nonce : {H : Host} → List (NonceGroup H) → Option ℕ
last_nonce [] = none
last_nonce (g ∷ []) = some g.nonce
last_nonce (g ∷ h ∷ gs) = last_nonce (h ∷ gs)

module _ {H : Host} (P : Payer H) (quoter : Action H.World H.Decimal) (fuel : ℕ)
    (cfg : Config) where
  abbrev pub keep_nonce : ℕ → Action (Run H) ℕ
  keep_nonce nonce = do modify (λ s. record s { expected_nonce = u64 (nonce + 1) }); pure nonce

  abbrev pub checked_nonce : ℕ → Action (Run H) ℕ
  checked_nonce nonce = do
    expected ← gets (λ s. s.expected_nonce)
    raise_if (ltb 0 expected && ltb nonce expected) used_nonce
    keep_nonce nonce

  -- The nonce from the chain, which must not be one that a transaction has used.
  unfoldable pub nonce_from_chain : Action (Run H) ℕ
  nonce_from_chain = do nonce ← on_world H P.next_nonce; checked_nonce nonce

  abbrev pub next_after : Option ℕ → Action (Run H) ℕ
  next_after (some n) = pure (u64 (n + 1))
  next_after none = nonce_from_chain

  unfoldable pub next_nonce : Action (Run H) ℕ
  next_nonce = do last ← gets (λ s. last_nonce s.nonce_groups); next_after last

  unfoldable pub append_group : ℕ → Transaction H → Action (Run H) (Unit {0})
  append_group id tx s =
      let group : NonceGroup H = record { nonce = tx.nonce; payout_group_id = id; txs = tx ∷ [] } in
      (ok tt, record s { nonce_groups = s.nonce_groups ++ group ∷ [] })

  abbrev pub send_and_append : ℕ → ℕ → Action (Run H) (Unit {0})
  send_and_append id nonce = do tx ← send_transaction P quoter fuel cfg id nonce; append_group id tx

  unfoldable pub attach : ℕ → ℕ → Action (Run H) (Unit {0})
  attach i id = do
    when (ltb 0 i && ltb 0 cfg.tx_delay) (on_world H (pause H cfg.tx_delay))
    nonce ← next_nonce
    send_and_append id nonce

  abbrev pub attach_found : ℕ → Option PayoutGroup → Action (Run H) Bool
  attach_found i none = pure false
  attach_found i (some g) = do attach i g.id; pure true

  -- One round of the loop that fills the pipeline; false if there is no payout group to add.
  unfoldable pub fill_round : ℕ → Action (Run H) Bool
  fill_round i = do found ← on_db (fetch_first_open_payout_group H); attach_found i found

  abbrev pub go_on : Action (Run H) Bool → Bool → Bool → Action (Run H) Bool
  go_on rest added true = rest
  go_on rest added false = pure added

  -- The loop; `added` says whether a group was added.
  unfoldable pub fill : ℕ → ℕ → Bool → Action (Run H) Bool
  fill zero i added = raise out_of_fuel
  fill (suc n) i added = do
    groups ← gets (λ s. s.nonce_groups)
    choose (ltb (length groups) cfg.limit && not cfg.drain)
        (fill_round i >>= go_on (fill n (suc i) true) added) (pure added)

  abbrev pub report_progress : Bool → Action (Run H) (Unit {0})
  report_progress added = when added (do progress ← on_db (fetch_payout_progress H); pure tt)

  abbrev pub wait_for_groups : Bool → Action (Run H) Bool
  wait_for_groups added = do report_progress added; check_nonce_groups P quoter fuel cfg; pure false

  -- What follows once the pipeline has been filled; true if there is nothing left to wait for.
  unfoldable pub wait_or_finish : Bool → Action (Run H) Bool
  wait_or_finish added = do
    groups ← gets (λ s. s.nonce_groups)
    choose (is_empty groups) (pure true) (wait_for_groups added)

  unfoldable pub payout_step : Action (Run H) Bool
  payout_step = do
    modify (λ s. record s { nonce_groups = trim s.nonce_groups })
    added ← fill (suc cfg.limit) 0 false
    wait_or_finish added

  unfoldable pub init_payout : Action (Run H) (Unit {0})
  init_payout = do
    groups ← on_db (fetch_unfinished_nonce_groups H)
    unstarted ← on_db (count_open_payout_groups H)
    put_groups groups
    check_nonce_groups P quoter fuel cfg

  abbrev pub poll_again : Action (Run H) (Unit {0}) → Bool → Action (Run H) (Unit {0})
  poll_again rest true = pure tt
  poll_again rest false = on_world H (pause H cfg.poll_interval) >> rest

  unfoldable pub step_loop : ℕ → Action (Run H) (Unit {0})
  step_loop zero = raise out_of_fuel
  step_loop (suc n) = do done ← payout_step; poll_again (step_loop n) done

  unfoldable pub process_payouts : ℕ → Action (Run H) (Unit {0})
  process_payouts rounds = do init_payout; step_loop rounds
