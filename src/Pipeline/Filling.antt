-- ===== src/Pipeline/Filling.antt =====
-- pkg/pipeline/pipeline.go: the loop that fills the pipeline keeps to its limit and ends.
use crypto_batch_payment.Base.{
  ℕ, zero, suc, ◌+◌, ◌≤◌, Bool, true, false, not, ◌&&◌, ltb, ◌≡◌, ◌∙◌, refl, ap, ◌⊎◌, inl, Option,
  none, some, [], ◌∷◌, length, length-append, Result, ok, err, Action, ◌>>=◌, pure, when, subst,
  arith,
}
use crypto_batch_payment.Base.Rules.{bind_rule, choose_rule, bind_cong, choose_cong}
use crypto_batch_payment.Host.{Host}
use crypto_batch_payment.Pipelinedb.{PayoutGroup}
use crypto_batch_payment.Pipelinedb.Operations.{fetch_first_open_payout_group}
use crypto_batch_payment.Payer.{Payer}
use crypto_batch_payment.Pipeline.{Config, Run, pause, on_db, on_world}
use crypto_batch_payment.Pipeline.Send.{send_transaction}
use crypto_batch_payment.Pipeline.Sending.{send_transaction_frame}
use crypto_batch_payment.Pipeline.Step.{
  nonce_from_chain, next_nonce, append_group, send_and_append, attach, attach_found, fill_round,
  go_on, fill,
}

module _ {H : Host} (P : Payer H) (quoter : Action H.World H.Decimal) (fuel : ℕ)
    (cfg : Config) where
  abbrev Appended : ℕ → Result (Unit {0}) × Run H → Type 0
  Appended n (ok u, s) = length s.nonce_groups ≡ n + 1
  Appended n (err e, s) = length s.nonce_groups ≡ n

  send_and_append-Appended :
      (id nonce : ℕ) (s : Run H)
      → Appended (length s.nonce_groups) (send_and_append P quoter fuel cfg id nonce s)
  unfolding append_group
  send_and_append-Appended id nonce s =
      bind_rule (Appended (length s.nonce_groups)) (send_transaction P quoter fuel cfg id nonce)
        (append_group P quoter fuel cfg id) s (λ x h. ap length same)
        λ tx h.
          length-append _ (record { nonce = tx.nonce; payout_group_id = id; txs = tx ∷ [] } ∷ [])
          ∙ ap (λ gs. length gs + 1) same
    where
      same : (send_transaction P quoter fuel cfg id nonce s).1.nonce_groups ≡ s.nonce_groups
      same = (send_transaction_frame P quoter fuel cfg id nonce s).0

  next_nonce_groups : (s : Run H) → (next_nonce P quoter fuel cfg s).1.nonce_groups ≡ s.nonce_groups
  unfolding next_nonce nonce_from_chain
  next_nonce_groups s = ground arith

  attach-Appended :
      (i id : ℕ) (s : Run H) → Appended (length s.nonce_groups) (attach P quoter fuel cfg i id s)
  unfolding attach
  attach-Appended i id s =
      bind_rule (Appended (length s.nonce_groups))
        (when (ltb 0 i && ltb 0 cfg.tx_delay) (on_world H (pause H cfg.tx_delay)))
        (λ _. next_nonce P quoter fuel cfg >>= send_and_append P quoter fuel cfg id) s
        (λ x h. ap length delayed)
        λ u h.
          bind_rule (Appended (length s.nonce_groups)) (next_nonce P quoter fuel cfg)
            (send_and_append P quoter fuel cfg id) s1
            (λ x e. ap length (next_nonce_groups s1 ∙ delayed))
            λ nonce e.
              subst
                (λ n.
                  Appended n (
                    send_and_append P quoter fuel cfg id nonce (next_nonce P quoter fuel cfg s1).1))
                (ap length (next_nonce_groups s1 ∙ delayed))
                (send_and_append-Appended id nonce (next_nonce P quoter fuel cfg s1).1)
    where
      s1 : Run H
      s1 = (when (ltb 0 i && ltb 0 cfg.tx_delay) (on_world H (pause H cfg.tx_delay)) s).1

      delayed_when :
          (b : Bool)
          → (when b (on_world H (pause H cfg.tx_delay)) s).1.nonce_groups ≡ s.nonce_groups
      delayed_when true = refl
      delayed_when false = refl

      delayed : s1.nonce_groups ≡ s.nonce_groups
      delayed = delayed_when (ltb 0 i && ltb 0 cfg.tx_delay)

  -- A round appends a group where it succeeds and goes on, and no group otherwise.
  abbrev Grown : ℕ → Result Bool × Run H → Type 0
  Grown n (ok true, s) = length s.nonce_groups ≡ n + 1
  Grown n (ok false, s) = length s.nonce_groups ≡ n
  Grown n (err e, s) = length s.nonce_groups ≡ n

  fill_round-Grown :
      (i : ℕ) (s : Run H) → Grown (length s.nonce_groups) (fill_round P quoter fuel cfg i s)
  unfolding fill_round
  fill_round-Grown i s =
      bind_rule (Grown (length s.nonce_groups)) (on_db (fetch_first_open_payout_group H))
        (attach_found P quoter fuel cfg i) s (λ x h. refl) λ found h. found-Grown found
    where
      s1 : Run H
      s1 = (on_db (fetch_first_open_payout_group H) s).1

      found-Grown :
          (found : Option PayoutGroup)
          → Grown (length s.nonce_groups) (attach_found P quoter fuel cfg i found s1)
      found-Grown none = refl
      found-Grown (some g) =
          bind_rule (Grown (length s.nonce_groups)) (attach P quoter fuel cfg i g.id)
            (λ _. pure true) s1
            (λ x e.
              subst (λ r. Appended (length s.nonce_groups) (r, s2)) e (attach-Appended i g.id s1))
            λ u e.
              subst (λ r. Appended (length s.nonce_groups) (r, s2)) e (attach-Appended i g.id s1)
        where
          s2 : Run H
          s2 = (attach P quoter fuel cfg i g.id s1).1

  no_room :
      (s : Run H)
      → cfg.limit ≤ length s.nonce_groups
      → (ltb (length s.nonce_groups) cfg.limit && not cfg.drain) ≡ true
      → ⊥
  no_room s room e = ground arith

  abbrev Room : ℕ → Run H → Type 0
  Room n s = cfg.limit ≤ length s.nonce_groups + n

  go_on_cong :
      (rest other : Action (Run H) Bool) (added more : Bool) (s s1 : Run H)
      → Grown (length s.nonce_groups) (ok more, s1)
      → (length s1.nonce_groups ≡ length s.nonce_groups + 1 → rest s1 ≡ other s1)
      → go_on P quoter fuel cfg rest added more s1 ≡ go_on P quoter fuel cfg other added more s1
  go_on_cong rest other added true s s1 grown same = same grown
  go_on_cong rest other added false s s1 grown same = refl

  abbrev pub Bounded : Run H → {A : Type 0} → Result A × Run H → Type 0
  Bounded s (r, s') =
      (length s'.nonce_groups ≡ length s.nonce_groups)
      ⊎ ((length s'.nonce_groups ≤ cfg.limit) × (cfg.drain ≡ false))

  go_on_bound :
      (rest : Action (Run H) Bool) (added more : Bool) (s s1 : Run H)
      → (ltb (length s.nonce_groups) cfg.limit && not cfg.drain) ≡ true
      → Grown (length s.nonce_groups) (ok more, s1)
      → Bounded s1 (rest s1)
      → Bounded s (go_on P quoter fuel cfg rest added more s1)
  go_on_bound rest added true s s1 room grown b = ground arith
  go_on_bound rest added false s s1 room grown b = inl grown

  -- Any two amounts of fuel that are enough for the groups that the limit leaves room for, and for
  -- one round more, give the same: so the loop does not end for want of fuel.
  pub fill_enough :
      (n m i : ℕ) (added : Bool) (s : Run H)
      → cfg.limit ≤ length s.nonce_groups + n
      → cfg.limit ≤ length s.nonce_groups + m
      → fill P quoter fuel cfg (suc n) i added s ≡ fill P quoter fuel cfg (suc m) i added s
  unfolding fill
  fill_enough zero m i added s room_n room_m =
      choose_cong _ _ _ (pure added) s λ e. absurd (no_room s (omega (arith, room_n)) e)
  fill_enough (suc n) zero i added s room_n room_m =
      choose_cong _ _ _ (pure added) s λ e. absurd (no_room s (omega (arith, room_m)) e)
  fill_enough (suc n) (suc m) i added s room_n room_m =
      choose_cong _
        (fill_round P quoter fuel cfg i
          >>= go_on P quoter fuel cfg (fill P quoter fuel cfg (suc n) (suc i) true) added)
        (fill_round P quoter fuel cfg i
          >>= go_on P quoter fuel cfg (fill P quoter fuel cfg (suc m) (suc i) true) added)
        (pure added) s
        λ _.
          bind_cong (fill_round P quoter fuel cfg i)
            (go_on P quoter fuel cfg (fill P quoter fuel cfg (suc n) (suc i) true) added)
            (go_on P quoter fuel cfg (fill P quoter fuel cfg (suc m) (suc i) true) added) s
            λ more e.
              go_on_cong (fill P quoter fuel cfg (suc n) (suc i) true)
                (fill P quoter fuel cfg (suc m) (suc i) true) added more s
                (fill_round P quoter fuel cfg i s).1
                (subst
                  (λ r. Grown (length s.nonce_groups) (r, (fill_round P quoter fuel cfg i s).1)) e
                  (fill_round-Grown i s))
                λ grown.
                  fill_enough n m (suc i) true (fill_round P quoter fuel cfg i s).1
                    (omega (arith, grown, room_n)) (omega (arith, grown, room_m))

  -- The loop leaves as many groups as there were; or more, and then no more than the limit and only
  -- if the pipeline does not drain.
  pub fill_bound :
      (n i : ℕ) (added : Bool) (s : Run H)
      → let s' = (fill P quoter fuel cfg n i added s).1 in
        (length s'.nonce_groups ≡ length s.nonce_groups)
        ⊎ ((length s'.nonce_groups ≤ cfg.limit) × (cfg.drain ≡ false))
  unfolding fill
  fill_bound zero i added s = inl refl
  fill_bound (suc n) i added s =
      choose_rule (Bounded s) _
        (fill_round P quoter fuel cfg i
          >>= go_on P quoter fuel cfg (fill P quoter fuel cfg n (suc i) true) added)
        (pure added) s
        (λ room.
          bind_rule (Bounded s) (fill_round P quoter fuel cfg i)
            (go_on P quoter fuel cfg (fill P quoter fuel cfg n (suc i) true) added) s
            (λ x e.
              inl (subst (λ r. Grown (length s.nonce_groups) (r, s1)) e (fill_round-Grown i s)))
            λ more e.
              go_on_bound (fill P quoter fuel cfg n (suc i) true) added more s s1 room
                (subst (λ r. Grown (length s.nonce_groups) (r, s1)) e (fill_round-Grown i s))
                (fill_bound n (suc i) true s1))
        λ _. inl refl
    where
      s1 : Run H
      s1 = (fill_round P quoter fuel cfg i s).1
