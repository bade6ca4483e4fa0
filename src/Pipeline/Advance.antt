-- ===== src/Pipeline/Advance.antt =====
-- pkg/pipeline/pipeline.go: how far checkNonceGroups goes.
use crypto_batch_payment.Base.{
  ℕ, suc, Bool, true, false, ltb, ◌≡◌, ◌∙◌, refl, sym, List, [], ◌∷◌, ◌++◌, append_assoc, Result,
  ok, err, Error, Action, ◌>>◌, pure, raise_if, transactions_failed, subst,
}
use crypto_batch_payment.Base.Rules.{bind_rule, when_rule}
use crypto_batch_payment.Host.{Host}
use crypto_batch_payment.Txstatus.{TxState, TxStatus, pending, dropped, failed_tx, confirmed}
use crypto_batch_payment.Pipelinedb.{Transaction, NonceGroup}
use crypto_batch_payment.Pipelinedb.Operations.{finalize_nonce_group}
use crypto_batch_payment.Payer.{Payer}
use crypto_batch_payment.Pipeline.{Config, Run, on_db, on_world, put_groups}
use crypto_batch_payment.Pipeline.Send.{send_transaction}
use crypto_batch_payment.Pipeline.Sending.{send_transaction_frame}
use crypto_batch_payment.Pipeline.Check.{
  finished_group, send_again, resend, finalize, by_state, check_loop, check_nonce_groups,
}

module _ {H : Host} where
  -- Some first groups are finished; the next may have got one transaction more; the others are as
  -- they were.
  pub data Advanced : List (NonceGroup H) → List (NonceGroup H) → Type 0 where
    stopped : {gs : List (NonceGroup H)} → Advanced gs gs
    finished :
        {g : NonceGroup H} {gs gs' : List (NonceGroup H)}
        → Advanced gs gs'
        → Advanced (g ∷ gs) (finished_group g ∷ gs')
    resent :
        {g : NonceGroup H} {gs : List (NonceGroup H)} (tx : Transaction H)
        → Advanced (g ∷ gs) (record g { txs = g.txs ++ tx ∷ [] } ∷ gs)

  -- The groups after those of `before` have advanced from `after`.
  abbrev pub AdvancedFrom : List (NonceGroup H) → List (NonceGroup H) → Run H → Type 0
  AdvancedFrom before after s =
      (gs : List (NonceGroup H)) × (s.nonce_groups ≡ before ++ gs) × Advanced after gs

  abbrev pub AdvancedBy :
      List (NonceGroup H) → List (NonceGroup H) → {A : Type 0} → Result A × Run H → Type 0
  AdvancedBy before after (r, s) = AdvancedFrom before after s

  finished-AdvancedFrom :
      (before : List (NonceGroup H)) (g : NonceGroup H) (after : List (NonceGroup H)) (s : Run H)
      → AdvancedFrom (before ++ finished_group g ∷ []) after s
      → AdvancedFrom before (g ∷ after) s
  finished-AdvancedFrom before g after s (gs, e, a) =
      (finished_group g ∷ gs, e ∙ append_assoc before (finished_group g ∷ []) gs, finished a)

module _ {H : Host} (P : Payer H) (quoter : Action H.World H.Decimal) (fuel : ℕ)
    (cfg : Config) where
  resend-Advanced :
      (before : List (NonceGroup H)) (g : NonceGroup H) (after : List (NonceGroup H)) (s : Run H)
      → s.nonce_groups ≡ before ++ g ∷ after
      → AdvancedBy before (g ∷ after) (resend P quoter fuel cfg before g after s)
  unfolding resend
  resend-Advanced before g after s e =
      when_rule (AdvancedBy before (g ∷ after)) _ (send_again P quoter fuel cfg before g after) s1
        (λ _.
          bind_rule (AdvancedBy before (g ∷ after))
            (send_transaction P quoter fuel cfg g.payout_group_id g.nonce)
            (λ tx. put_groups (before ++ record g { txs = g.txs ++ tx ∷ [] } ∷ after)) s1
            (λ x h. (
              g ∷ after,
              (send_transaction_frame P quoter fuel cfg g.payout_group_id g.nonce s1).0 ∙ e,
              stopped,
            ))
            λ tx h. (record g { txs = g.txs ++ tx ∷ [] } ∷ after, refl, resent tx))
        λ _. (g ∷ after, e, stopped)
    where
      s1 : Run H
      s1 = record s { conn = record (s.conn) { world = (H.now s.conn.world).1 } }

  abbrev Finalized :
      List (NonceGroup H) → NonceGroup H → List (NonceGroup H) → Result (Unit {0}) × Run H → Type 0
  Finalized before g after (ok u, s) = s.nonce_groups ≡ before ++ finished_group g ∷ after
  Finalized before g after (err e, s) = s.nonce_groups ≡ before ++ g ∷ after

  finalize-Finalized :
      (before : List (NonceGroup H)) (g : NonceGroup H) (after : List (NonceGroup H))
      (all : List (TxStatus H)) (s : Run H)
      → s.nonce_groups ≡ before ++ g ∷ after
      → Finalized before g after (finalize P quoter fuel cfg before g after all s)
  unfolding finalize
  finalize-Finalized before g after all s e =
      bind_rule (Finalized before g after) (on_db (finalize_nonce_group H g all))
        (λ _. put_groups (before ++ finished_group g ∷ after)) s (λ x h. e) λ u h. refl

  finalize-Advanced :
      (before : List (NonceGroup H)) (g : NonceGroup H) (after : List (NonceGroup H))
      (all : List (TxStatus H)) (rest : Action (Run H) ℕ) (s : Run H)
      → s.nonce_groups ≡ before ++ g ∷ after
      → ((s' : Run H)
          → s'.nonce_groups ≡ (before ++ finished_group g ∷ []) ++ after
          → AdvancedBy (before ++ finished_group g ∷ []) after (rest s'))
      → AdvancedBy before (g ∷ after) ((finalize P quoter fuel cfg before g after all >> rest) s)
  finalize-Advanced before g after all rest s e go =
      bind_rule (AdvancedBy before (g ∷ after)) (finalize P quoter fuel cfg before g after all)
        (λ _. rest) s
        (λ x h. (g ∷ after, subst (λ r. Finalized before g after (r, s1)) h ends, stopped))
        λ u h. finished-AdvancedFrom before g after (rest s1).1 (
          go s1 (
            subst (λ r. Finalized before g after (r, s1)) h ends
            ∙ sym (append_assoc before (finished_group g ∷ []) after)))
    where
      s1 : Run H
      s1 = (finalize P quoter fuel cfg before g after all s).1

      ends : Finalized before g after (finalize P quoter fuel cfg before g after all s)
      ends = finalize-Finalized before g after all s e

  by_state-Advanced :
      (rest : List (NonceGroup H) → ℕ → Action (Run H) ℕ) (before : List (NonceGroup H))
      (g : NonceGroup H) (after : List (NonceGroup H)) (failures : ℕ)
      (answer : TxState × List (TxStatus H)) (s : Run H)
      → s.nonce_groups ≡ before ++ g ∷ after
      → ((n : ℕ) (s' : Run H)
          → s'.nonce_groups ≡ (before ++ finished_group g ∷ []) ++ after
          → AdvancedBy
              (before ++ finished_group g ∷ [])
              after
              (rest (before ++ finished_group g ∷ []) n s'))
      → AdvancedBy before
          (g ∷ after)
          (by_state P quoter fuel cfg rest before g after failures answer s)
  unfolding by_state
  by_state-Advanced rest before g after failures (pending, all) s e go = (g ∷ after, e, stopped)
  by_state-Advanced rest before g after failures (dropped, all) s e go =
      bind_rule (AdvancedBy before (g ∷ after)) (resend P quoter fuel cfg before g after)
        (λ _. pure failures) s (λ x h. resend-Advanced before g after s e)
        λ u h. resend-Advanced before g after s e
  by_state-Advanced rest before g after failures (failed_tx, all) s e go =
      finalize-Advanced before g after all (rest (before ++ finished_group g ∷ []) (suc failures)) s
        e (go (suc failures))
  by_state-Advanced rest before g after failures (confirmed, all) s e go =
      finalize-Advanced before g after all (rest (before ++ finished_group g ∷ []) failures) s e
        (go failures)

  check_loop-Advanced :
      (before after : List (NonceGroup H)) (failures : ℕ) (s : Run H)
      → s.nonce_groups ≡ before ++ after
      → AdvancedBy before after (check_loop P quoter fuel cfg before after failures s)
  unfolding check_loop
  check_loop-Advanced before [] failures s e = ([], e, stopped)
  check_loop-Advanced before (g ∷ after) failures s e =
      bind_rule (AdvancedBy before (g ∷ after))
        (on_world H (P.check_nonce_group g (ltb 0 failures)))
        (by_state P quoter fuel cfg (λ before' n. check_loop P quoter fuel cfg before' after n)
          before g after failures)
        s (λ x h. (g ∷ after, e, stopped))
        λ answer h.
          by_state-Advanced (λ before' n. check_loop P quoter fuel cfg before' after n) before g
            after failures answer _ e
            (λ n s' e'. check_loop-Advanced (before ++ finished_group g ∷ []) after n s' e')

  raise_if_groups :
      (b : Bool) (x : Error) (s : Run H) → (raise_if b x s).1.nonce_groups ≡ s.nonce_groups
  raise_if_groups true x s = refl
  raise_if_groups false x s = refl

  -- Whatever the payer answers, and however a check of the nonce groups ends: some groups are
  -- finished, beginning with the first; the next may have got one transaction more; and the others
  -- are as they were.
  pub check_nonce_groups-Advanced :
      (s : Run H) → Advanced s.nonce_groups (check_nonce_groups P quoter fuel cfg s).1.nonce_groups
  unfolding check_nonce_groups
  check_nonce_groups-Advanced s =
      bind_rule (λ (r, s'). Advanced s.nonce_groups s'.nonce_groups)
        (check_loop P quoter fuel cfg [] s.nonce_groups 0)
        (λ failures. raise_if (ltb 0 failures) transactions_failed) s (λ x h. advanced)
        λ failures h. rw (raise_if_groups (ltb 0 failures) transactions_failed s1) advanced
    where
      s1 : Run H
      s1 = (check_loop P quoter fuel cfg [] s.nonce_groups 0 s).1

      advanced : Advanced s.nonce_groups s1.nonce_groups
      advanced =
          let (gs, e, a) = check_loop-Advanced [] s.nonce_groups 0 s refl in
          subst (Advanced s.nonce_groups) (sym e) a
