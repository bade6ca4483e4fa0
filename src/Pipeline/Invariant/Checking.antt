-- ===== src/Pipeline/Invariant/Checking.antt =====
-- pkg/pipeline/pipeline.go: checkNonceGroups keeps the invariant, and finishes groups from the first
-- on, for a payer that answers as it should.
use crypto_batch_payment.Base.{
  ℕ, suc, Bool, true, false, ltb, ◌≡◌, ◌∙◌, refl, List, [], ◌∷◌, ◌++◌, append_assoc, map, All, sym,
  Result, ok, err, Error, Action, ◌>>◌, pure, when, raise_if, transactions_failed, subst,
}
use crypto_batch_payment.Base.Rules.{bind_rule}
use crypto_batch_payment.Host.{Host}
use crypto_batch_payment.Txstatus.{TxState, TxStatus, pending, dropped, failed_tx, confirmed}
use crypto_batch_payment.Payoutdb.Atomic.{with_tx_atomic}
use crypto_batch_payment.Pipelinedb.{Transaction, NonceGroup}
use crypto_batch_payment.Pipelinedb.Operations.{finalize_statuses, finalize_nonce_group}
use crypto_batch_payment.Pipelinedb.Finalize.{finalize_nonce_group-SameBut}
use crypto_batch_payment.Pipelinedb.Keyed.{finalize_nonce_group-UniquePks}
use crypto_batch_payment.Payer.{Payer, Sound, IsSound}
use crypto_batch_payment.Pipeline.{Config, Run, on_db, on_world, put_groups}
use crypto_batch_payment.Pipeline.Send.{is_empty, send_transaction}
use crypto_batch_payment.Pipeline.Sending.{send_transaction_frame}
use crypto_batch_payment.Pipeline.Check.{
  finished_group, send_again, resend, finalize, by_state, check_loop, check_nonce_groups,
}
use crypto_batch_payment.Pipeline.Invariant.{InvOf, Inv, InvOf-cast}
use crypto_batch_payment.Pipeline.Invariant.Sends.{
  Attached, send_transaction-InvOf, send_transaction-Attached,
}
use crypto_batch_payment.Pipeline.Invariant.Loop.{
  Live, append-FinishedFirst, All-snoc-Finished, At, Kept, KeptBy, At-Kept, resent-InvOf,
}
use crypto_batch_payment.Pipeline.Invariant.Checks.{hashes, finish-InvOf, statuses-contains}

module _ {H : Host} (P : Payer H) (quoter : Action H.World H.Decimal) (fuel : ℕ)
    (cfg : Config) where
  snoc_Live : (xs : List (Transaction H)) (x : Transaction H) → is_empty (xs ++ x ∷ []) ≡ false
  snoc_Live [] x = refl
  snoc_Live (y ∷ xs) x = refl

  send_again-Kept :
      (before : List (NonceGroup H)) (g : NonceGroup H) (after : List (NonceGroup H)) (s : Run H)
      → At before (g ∷ after) s
      → KeptBy (send_again P quoter fuel cfg before g after s)
  send_again-Kept before g after s (e, f, l, inv) =
      bind_rule KeptBy (send_transaction P quoter fuel cfg g.payout_group_id g.nonce)
        (λ tx. put_groups (before ++ record g { txs = g.txs ++ tx ∷ [] } ∷ after)) s
        (λ x h. At-Kept before (g ∷ after) s1 (same, f, l, inv1))
        λ tx h.
          let (p, q) = subst (Attached g.payout_group_id s1.conn.tables) h attached in
          (
            resent-InvOf before g after s1 tx l.0 p q inv1,
            append-FinishedFirst before _ f (snoc_Live g.txs tx, l.1),
          )
    where
      s1 : Run H
      s1 = (send_transaction P quoter fuel cfg g.payout_group_id g.nonce s).1

      same : s1.nonce_groups ≡ before ++ g ∷ after
      same = (send_transaction_frame P quoter fuel cfg g.payout_group_id g.nonce s).0 ∙ e

      inv1 : InvOf s1.conn.tables s1.sent (before ++ g ∷ after)
      inv1 = send_transaction-InvOf P quoter fuel cfg g.payout_group_id g.nonce _ s inv

      attached :
          Attached g.payout_group_id s1.conn.tables
            (send_transaction P quoter fuel cfg g.payout_group_id g.nonce s).0
      attached = send_transaction-Attached P quoter fuel cfg g.payout_group_id g.nonce s

  when-Kept :
      (b : Bool) (m : Action (Run H) (Unit {0})) (s : Run H)
      → Kept s
      → KeptBy (m s)
      → KeptBy (when b m s)
  when-Kept true m s idle done = done
  when-Kept false m s idle done = idle

  resend-Kept :
      (before : List (NonceGroup H)) (g : NonceGroup H) (after : List (NonceGroup H)) (s : Run H)
      → At before (g ∷ after) s
      → KeptBy (resend P quoter fuel cfg before g after s)
  unfolding resend
  resend-Kept before g after s at =
      when-Kept _ (send_again P quoter fuel cfg before g after) s1
        (At-Kept before (g ∷ after) s1 at) (send_again-Kept before g after s1 at)
    where
      s1 : Run H
      s1 = record s { conn = record (s.conn) { world = (H.now s.conn.world).1 } }

  -- Finalizing the first group that is not finished fails and changes nothing, or finishes it.
  abbrev FinalizedTo :
      List (NonceGroup H) → NonceGroup H → List (NonceGroup H) → Result (Unit {0}) × Run H → Type 0
  FinalizedTo before g after (ok u, s) = At (before ++ finished_group g ∷ []) after s
  FinalizedTo before g after (err e, s) = At before (g ∷ after) s

  finalize-At :
      (before : List (NonceGroup H)) (g : NonceGroup H) (after : List (NonceGroup H))
      (all : List (TxStatus H)) (s : Run H)
      → map (λ st. st.hash) all ≡ hashes g
      → At before (g ∷ after) s
      → FinalizedTo before g after (finalize P quoter fuel cfg before g after all s)
  unfolding finalize finalize_nonce_group
  finalize-At before g after all s hs (e, f, l, inv) =
      bind_rule (FinalizedTo before g after) (on_db (finalize_nonce_group H g all))
        (λ _. put_groups (before ++ finished_group g ∷ after)) s
        (λ x h. (
          e,
          f,
          l,
          InvOf-cast (with_tx_atomic (finalize_statuses H g.payout_group_id all) s.conn h) refl refl
              inv,
        ))
        λ u h. (
          sym (append_assoc before (finished_group g ∷ []) after),
          All-snoc-Finished before g f,
          l.1,
          InvOf-cast refl refl (append_assoc before (finished_group g ∷ []) after) (
              finish-InvOf s.conn.tables _ s.sent before g after l.0
                (finalize_nonce_group-SameBut (hashes g) g all s.conn (statuses-contains g all hs))
                (finalize_nonce_group-UniquePks g all s.conn inv.keyed) inv),
        )

  finalize-rule :
      {A : Type 0} (before : List (NonceGroup H)) (g : NonceGroup H) (after : List (NonceGroup H))
      (all : List (TxStatus H)) (rest : Action (Run H) A) (s : Run H)
      → map (λ st. st.hash) all ≡ hashes g
      → At before (g ∷ after) s
      → ((s' : Run H) → At (before ++ finished_group g ∷ []) after s' → KeptBy (rest s'))
      → KeptBy ((finalize P quoter fuel cfg before g after all >> rest) s)
  finalize-rule before g after all rest s hs at go =
      bind_rule KeptBy (finalize P quoter fuel cfg before g after all) (λ _. rest) s
        (λ x h.
          At-Kept before (g ∷ after) s1 (subst (λ r. FinalizedTo before g after (r, s1)) h ends))
        λ u h. go s1 (subst (λ r. FinalizedTo before g after (r, s1)) h ends)
    where
      s1 : Run H
      s1 = (finalize P quoter fuel cfg before g after all s).1

      ends : FinalizedTo before g after (finalize P quoter fuel cfg before g after all s)
      ends = finalize-At before g after all s hs at

  by_state-Kept :
      (rest : List (NonceGroup H) → ℕ → Action (Run H) ℕ) (before : List (NonceGroup H))
      (g : NonceGroup H) (after : List (NonceGroup H)) (failures : ℕ)
      (answer : TxState × List (TxStatus H)) (s : Run H)
      → Sound g (ok answer)
      → At before (g ∷ after) s
      → ((n : ℕ) (s' : Run H)
          → At (before ++ finished_group g ∷ []) after s'
          → KeptBy (rest (before ++ finished_group g ∷ []) n s'))
      → KeptBy (by_state P quoter fuel cfg rest before g after failures answer s)
  unfolding by_state
  by_state-Kept rest before g after failures (pending, all) s sound at go =
      At-Kept before (g ∷ after) s at
  by_state-Kept rest before g after failures (dropped, all) s sound at go =
      bind_rule KeptBy (resend P quoter fuel cfg before g after) (λ _. pure failures) s
        (λ x h. resend-Kept before g after s at) λ u h. resend-Kept before g after s at
  by_state-Kept rest before g after failures (failed_tx, all) s sound at go =
      finalize-rule before g after all (rest (before ++ finished_group g ∷ []) (suc failures)) s
        sound.0 at (go (suc failures))
  by_state-Kept rest before g after failures (confirmed, all) s sound at go =
      finalize-rule before g after all (rest (before ++ finished_group g ∷ []) failures) s sound.0
        at (go failures)

  check_loop-Kept :
      (before after : List (NonceGroup H)) (failures : ℕ) (s : Run H)
      → IsSound P
      → At before after s
      → KeptBy (check_loop P quoter fuel cfg before after failures s)
  unfolding check_loop
  check_loop-Kept before [] failures s sound at = At-Kept before [] s at
  check_loop-Kept before (g ∷ after) failures s sound at =
      bind_rule KeptBy (on_world H (P.check_nonce_group g (ltb 0 failures)))
        (by_state P quoter fuel cfg (λ before' n. check_loop P quoter fuel cfg before' after n)
          before g after failures)
        s (λ x h. At-Kept before (g ∷ after) s at)
        λ answer h.
          by_state-Kept (λ before' n. check_loop P quoter fuel cfg before' after n) before g after
            failures answer _ (subst (Sound g) h (sound.sound g (ltb 0 failures) s.conn.world)) at
            (λ n s' at'. check_loop-Kept (before ++ finished_group g ∷ []) after n s' sound at')

  raise_if-Kept : (b : Bool) (e : Error) (s : Run H) → Kept s → KeptBy (raise_if b e s)
  raise_if-Kept true e s k = k
  raise_if-Kept false e s k = k

  pub check_nonce_groups-Kept :
      (s : Run H)
      → IsSound P
      → All Live s.nonce_groups
      → Inv s
      → KeptBy (check_nonce_groups P quoter fuel cfg s)
  unfolding check_nonce_groups
  check_nonce_groups-Kept s sound live inv =
      bind_rule KeptBy (check_loop P quoter fuel cfg [] s.nonce_groups 0)
        (λ failures. raise_if (ltb 0 failures) transactions_failed) s (λ x h. kept)
        λ failures h. raise_if-Kept (ltb 0 failures) transactions_failed _ kept
    where
      kept : Kept (check_loop P quoter fuel cfg [] s.nonce_groups 0 s).1
      kept = check_loop-Kept [] s.nonce_groups 0 s sound (refl, tt, live, inv)
