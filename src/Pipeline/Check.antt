-- ===== src/Pipeline/Check.antt =====
-- pkg/pipeline/pipeline.go: checkNonceGroups.
use crypto_batch_payment.Base.{
  ℕ, suc, ◌-◌, ltb, if◌then◌else◌, List, [], ◌∷◌, ◌++◌, ok, not, gets, when, transactions_failed,
  Action, ◌>>=◌, ◌>>◌, pure, raise_if,
}
use crypto_batch_payment.Host.{Host}
use crypto_batch_payment.Txstatus.{TxState, TxStatus, pending, dropped, failed_tx, confirmed}
use crypto_batch_payment.Pipelinedb.{Transaction, NonceGroup}
use crypto_batch_payment.Pipelinedb.Operations.{finalize_nonce_group}
use crypto_batch_payment.Payer.{Payer}
use crypto_batch_payment.Pipeline.{Config, Run, on_db, on_world, put_groups}
use crypto_batch_payment.Pipeline.Send.{send_transaction}

-- The latest creation time.
unfoldable pub youngest_transaction_time : {H : Host} → ℕ → List (Transaction H) → ℕ
youngest_transaction_time youngest [] = youngest
youngest_transaction_time youngest (x ∷ xs) =
    youngest_transaction_time (if ltb youngest x.created_at then x.created_at else youngest) xs

abbrev pub not_dropped_until : ℕ
not_dropped_until = 30000000000

abbrev pub finished_group : {H : Host} → NonceGroup H → NonceGroup H
finished_group g = record g { txs = [] }

module _ {H : Host} (P : Payer H) (quoter : Action H.World H.Decimal) (fuel : ℕ)
    (cfg : Config) where
  abbrev pub send_again :
      List (NonceGroup H) → NonceGroup H → List (NonceGroup H) → Action (Run H) (Unit {0})
  send_again before g after = do
    tx ← send_transaction P quoter fuel cfg g.payout_group_id g.nonce
    put_groups (before ++ record g { txs = g.txs ++ tx ∷ [] } ∷ after)

  -- A dropped group gets another transaction, unless its youngest is less than 30 seconds old.
  unfoldable pub resend :
      List (NonceGroup H) → NonceGroup H → List (NonceGroup H) → Action (Run H) (Unit {0})
  resend before g after = do
    now ← on_world H (λ w. let (t, w') = H.now w in (ok t, w'))
    let age : ℕ = now - youngest_transaction_time 0 g.txs
    when (not (ltb age not_dropped_until)) (send_again before g after)

  -- A confirmed or failed group is recorded and loses its transactions.
  unfoldable pub finalize :
      List (NonceGroup H)
      → NonceGroup H
      → List (NonceGroup H)
      → List (TxStatus H)
      → Action (Run H) (Unit {0})
  finalize before g after all = do
    on_db (finalize_nonce_group H g all)
    put_groups (before ++ finished_group g ∷ after)

  -- What follows from the answer about a group; `rest` goes on with the next group. The loop ends
  -- at the first group that is pending or dropped.
  unfoldable pub by_state :
      (rest : List (NonceGroup H) → ℕ → Action (Run H) ℕ) (before : List (NonceGroup H))
      (g : NonceGroup H) (after : List (NonceGroup H)) (failures : ℕ)
      → TxState × List (TxStatus H)
      → Action (Run H) ℕ
  by_state rest before g after failures (dropped, all) = do resend before g after; pure failures
  by_state rest before g after failures (pending, all) = pure failures
  by_state rest before g after failures (failed_tx, all) = do
    finalize before g after all
    rest (before ++ finished_group g ∷ []) (suc failures)
  by_state rest before g after failures (confirmed, all) = do
    finalize before g after all
    rest (before ++ finished_group g ∷ []) failures

  -- The loop, at the first group of `after`: the groups of `before` have been looked at. The
  -- result is the number of failed groups.
  unfoldable pub check_loop : List (NonceGroup H) → List (NonceGroup H) → ℕ → Action (Run H) ℕ
  check_loop before [] failures = pure failures
  check_loop before (g ∷ after) failures = do
    answer ← on_world H (P.check_nonce_group g (ltb 0 failures))
    by_state (λ before' failures'. check_loop before' after failures') before g after failures
        answer

  unfoldable pub check_nonce_groups : Action (Run H) (Unit {0})
  check_nonce_groups = do
    groups ← gets (λ s. s.nonce_groups)
    failures ← check_loop [] groups 0
    raise_if (ltb 0 failures) transactions_failed
