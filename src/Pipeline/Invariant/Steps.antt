-- ===== src/Pipeline/Invariant/Steps.antt =====
-- pkg/pipeline/pipeline.go: the run of a pipeline keeps the invariant.
use crypto_batch_payment.Base.{ℕ, zero, suc, Bool, true, false, Action}
use crypto_batch_payment.Base.Rules.{bind_rule}
use crypto_batch_payment.Host.{Host}
use crypto_batch_payment.Payer.{Payer, IsSound}
use crypto_batch_payment.Pipeline.{Config, Run, pause, on_world}
use crypto_batch_payment.Pipeline.Step.{
  trim, fill, wait_or_finish, payout_step, poll_again, step_loop,
}
use crypto_batch_payment.Pipeline.Invariant.Loop.{Kept, KeptBy}
use crypto_batch_payment.Pipeline.Invariant.Fills.{
  Ready, trim-Ready, Ready-Kept, fill-Ready, wait_or_finish-Kept,
}

module _ {H : Host} (P : Payer H) (quoter : Action H.World H.Decimal) (fuel : ℕ)
    (cfg : Config) where
  -- For a payer that answers as it should: a step of the pipeline, whether it fails or not, leaves
  -- every transaction that has been sent with its row, every group that is not finished with a
  -- pending row, and no payout group with two groups that are not finished.
  pub payout_step-Kept : (s : Run H) → IsSound P → Kept s → KeptBy (payout_step P quoter fuel cfg s)
  unfolding payout_step
  payout_step-Kept s sound kept =
      bind_rule KeptBy (fill P quoter fuel cfg (suc cfg.limit) 0 false)
        (wait_or_finish P quoter fuel cfg) s1 (λ x h. Ready-Kept s2 ready2)
        λ added h. wait_or_finish-Kept P quoter fuel cfg added s2 sound ready2
    where
      s1 : Run H
      s1 = record s { nonce_groups = trim s.nonce_groups }

      s2 : Run H
      s2 = (fill P quoter fuel cfg (suc cfg.limit) 0 false s1).1

      ready2 : Ready s2
      ready2 = fill-Ready P quoter fuel cfg (suc cfg.limit) 0 false s1 (trim-Ready s kept)

  poll_again-Kept :
      (rest : Action (Run H) (Unit {0})) (finished : Bool) (s : Run H)
      → ((s' : Run H) → Kept s' → KeptBy (rest s'))
      → Kept s
      → KeptBy (poll_again P quoter fuel cfg rest finished s)
  poll_again-Kept rest true s go kept = kept
  poll_again-Kept rest false s go kept =
      bind_rule KeptBy (on_world H (pause H cfg.poll_interval)) (λ _. rest) s (λ x h. kept)
        λ u h. go _ kept

  -- For a payer that answers as it should (IsSound), and any number of steps, the last of which may
  -- fail anywhere: if they hold at first, it still holds that every transaction that has been sent
  -- has its row, every group that is not finished has a pending row, no payout group has two groups
  -- that are not finished, and the finished groups come first.
  pub step_loop-Kept :
      (n : ℕ) (s : Run H) → IsSound P → Kept s → KeptBy (step_loop P quoter fuel cfg n s)
  unfolding step_loop
  step_loop-Kept zero s sound kept = kept
  step_loop-Kept (suc n) s sound kept =
      bind_rule KeptBy (payout_step P quoter fuel cfg)
        (poll_again P quoter fuel cfg (step_loop P quoter fuel cfg n)) s (λ x h. kept1)
        λ finished h.
          poll_again-Kept (step_loop P quoter fuel cfg n) finished s1
            (λ s2 kept2. step_loop-Kept n s2 sound kept2) kept1
    where
      s1 : Run H
      s1 = (payout_step P quoter fuel cfg s).1

      kept1 : Kept s1
      kept1 = payout_step-Kept s sound kept
