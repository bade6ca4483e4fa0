-- ===== src/Pipeline/Nonces.antt =====
-- pkg/pipeline/pipeline.go: the nonces of the groups that are added.
use crypto_batch_payment.Base.{
  ℕ, zero, suc, ◌+◌, Bool, true, false, ◌&&◌, ltb, ◌≡◌, refl, inl, inr, Option, none, some, List,
  [], ◌∷◌, ◌++◌, Result-cases, Result, ok, err, no_payouts, used_nonce, Action, ◌>>=◌, pure, when,
  subst, arith,
}
use crypto_batch_payment.Base.Rules.{bind_rule, choose_rule, raise_if_rule}
use crypto_batch_payment.Base.Int.{ℤ}
use crypto_batch_payment.Host.{Host}
use crypto_batch_payment.Payoutdb.{Tables}
use crypto_batch_payment.Pipelinedb.{Payout, PayoutGroup, Transaction, NonceGroup}
use crypto_batch_payment.Pipelinedb.Operations.{
  fetch_first_open_payout_group, fetch_payout_group_payouts,
}
use crypto_batch_payment.Payer.{Payer, RawTransaction, IsSound}
use crypto_batch_payment.Pipeline.{Config, Run, u64, pause, on_db, on_world}
use crypto_batch_payment.Pipeline.Send.{
  is_empty, sum_usd, wait_preconditions, quote_tokens, sign, prepare, record_and_submit,
  send_payouts, send_transaction,
}
use crypto_batch_payment.Pipeline.Sending.{
  Left, nothing, recorded, submitted, record_and_submit-Left, send_transaction_frame,
}
use crypto_batch_payment.Pipeline.Step.{
  last_nonce, keep_nonce, checked_nonce, nonce_from_chain, next_after, next_nonce, append_group,
  send_and_append, attach, attach_found, fill_round, go_on, fill,
}

module _ {H : Host} where
  -- Each group has the nonce after that of the group before it.
  abbrev pub Consecutive : List (NonceGroup H) → Type 0
  Consecutive [] = Unit
  Consecutive (g ∷ []) = Unit
  Consecutive (g ∷ h ∷ gs) = (h.nonce ≡ u64 (g.nonce + 1)) × Consecutive (h ∷ gs)

  -- A nonce is the one after that of the last group, if there is one.
  abbrev pub Next : List (NonceGroup H) → ℕ → Type 0
  Next [] n = Unit
  Next (g ∷ []) n = n ≡ u64 (g.nonce + 1)
  Next (g ∷ h ∷ gs) n = Next (h ∷ gs) n

  Consecutive-snoc :
      (gs : List (NonceGroup H)) (g : NonceGroup H)
      → Consecutive gs
      → Next gs g.nonce
      → Consecutive (gs ++ g ∷ [])
  Consecutive-snoc [] g c n = tt
  Consecutive-snoc (h ∷ []) g c n = (n, tt)
  Consecutive-snoc (h ∷ k ∷ gs) g c n = (c.0, Consecutive-snoc (k ∷ gs) g c.1 n)

  Next-last_nonce :
      (gs : List (NonceGroup H)) (n : ℕ) → last_nonce gs ≡ some n → Next gs (u64 (n + 1))
  Next-last_nonce [] n e = cc
  Next-last_nonce (g ∷ []) n e = ground arith
  Next-last_nonce (g ∷ h ∷ gs) n e = Next-last_nonce (h ∷ gs) n e

  none_last : (gs : List (NonceGroup H)) (n : ℕ) → last_nonce gs ≡ none → Next gs n
  none_last [] n e = tt
  none_last (g ∷ []) n e = cc
  none_last (g ∷ h ∷ gs) n e = none_last (h ∷ gs) n e

  abbrev pub ConsecutiveBy : {A : Type 0} → Result A × Run H → Type 0
  ConsecutiveBy (r, s) = Consecutive s.nonce_groups

  abbrev pub HasNonce : ℕ → Result (Transaction H) × Run H → Type 0
  HasNonce n (ok row, s) = row.nonce ≡ n
  HasNonce n (err e, s) = Unit

  Left-HasNonce :
      (t : Tables) (sent : List (RawTransaction H)) (r : Result (Transaction H)) (s' : Run H)
      (tx : Transaction H) (raw : RawTransaction H)
      → Left t sent r s' tx raw
      → HasNonce tx.nonce (r, s')
  Left-HasNonce t sent (err e) s' tx raw left = tt
  Left-HasNonce t sent (ok row) s' tx raw (nothing _ _ e) = cc
  Left-HasNonce t sent (ok row) s' tx raw (recorded _ _ _ _ e) = cc
  Left-HasNonce t sent (ok row) s' tx raw (submitted _ _ _ _ back) = back.1

abbrev PreparedNonce : {H : Host} → ℕ → Result (Transaction H × RawTransaction H) × H.World → Type 0
PreparedNonce n (ok (tx, raw), w) = tx.nonce ≡ n
PreparedNonce n (err e, w) = Unit

module _ {H : Host} (P : Payer H) (quoter : Action H.World H.Decimal) (fuel : ℕ)
    (cfg : Config) where
  sign-PreparedNonce :
      (id nonce : ℕ) (payouts : List (Payout H)) (quoted : ℤ × H.Decimal) (w : H.World)
      → IsSound P
      → PreparedNonce nonce (sign P quoter fuel cfg id nonce payouts quoted w)
  unfolding sign
  sign-PreparedNonce id nonce payouts (tokens, price) w sound =
      elim (Result-cases (P.create_raw_transaction payouts nonce price w).0) [
        | inl ((raw, from), e) ↦ ground (arith, sound.nonce_kept payouts nonce price w e)
        | inr (x, e) ↦ ground arith
      ]

  prepare-PreparedNonce :
      (id nonce : ℕ) (payouts : List (Payout H)) (w : H.World)
      → IsSound P
      → PreparedNonce nonce (prepare P quoter fuel cfg id nonce payouts w)
  unfolding prepare
  prepare-PreparedNonce id nonce payouts w sound =
      bind_rule (PreparedNonce nonce) (wait_preconditions P quoter fuel cfg fuel)
        (λ _.
          quote_tokens P quoter fuel cfg (sum_usd H H.decimal_zero payouts)
          >>= sign P quoter fuel cfg id nonce payouts)
        w (λ x h. tt)
        λ u h.
          bind_rule (PreparedNonce nonce)
            (quote_tokens P quoter fuel cfg (sum_usd H H.decimal_zero payouts))
            (sign P quoter fuel cfg id nonce payouts) _ (λ x e. tt)
            λ quoted e. sign-PreparedNonce id nonce payouts quoted _ sound

  send_payouts-HasNonce :
      (id nonce : ℕ) (payouts : List (Payout H)) (s : Run H)
      → IsSound P
      → HasNonce nonce (send_payouts P quoter fuel cfg id nonce payouts s)
  unfolding send_payouts
  send_payouts-HasNonce id nonce payouts s sound =
      raise_if_rule (HasNonce nonce) (is_empty payouts) no_payouts
        (λ _. on_world H (prepare P quoter fuel cfg id nonce payouts) >>= record_and_submit P) s
        (λ _. tt)
        λ _.
          bind_rule (HasNonce nonce) (on_world H (prepare P quoter fuel cfg id nonce payouts))
            (record_and_submit P) s (λ e h. tt)
            λ p h.
              let nonce_p : p.0.nonce ≡ nonce =
                subst
                  (λ r.
                    PreparedNonce {H = H} nonce
                      (r, (prepare P quoter fuel cfg id nonce payouts s.conn.world).1))
                  h (prepare-PreparedNonce id nonce payouts s.conn.world sound) in
              subst (λ n. HasNonce n (record_and_submit P p s1)) nonce_p
                (Left-HasNonce _ _ _ _ p.0 p.1 (record_and_submit-Left P p.0 p.1 s1))
    where
      s1 : Run H
      s1 = (on_world H (prepare P quoter fuel cfg id nonce payouts) s).1

  -- A transaction that is sent has the nonce that was asked for.
  pub send_transaction-HasNonce :
      (id nonce : ℕ) (s : Run H)
      → IsSound P
      → HasNonce nonce (send_transaction P quoter fuel cfg id nonce s)
  unfolding send_transaction
  send_transaction-HasNonce id nonce s sound =
      bind_rule (HasNonce nonce) (on_db (fetch_payout_group_payouts H id))
        (send_payouts P quoter fuel cfg id nonce) s (λ e h. tt)
        λ payouts h. send_payouts-HasNonce id nonce payouts _ sound

  -- The groups are not changed, and the nonce is the next.
  abbrev NextOf : List (NonceGroup H) → Result ℕ × Run H → Type 0
  NextOf gs (ok n, s) = (s.nonce_groups ≡ gs) × Next gs n
  NextOf gs (err e, s) = s.nonce_groups ≡ gs

  next_after-NextOf :
      (last : Option ℕ) (s : Run H)
      → last_nonce s.nonce_groups ≡ last
      → NextOf s.nonce_groups (next_after P quoter fuel cfg last s)
  unfolding nonce_from_chain
  next_after-NextOf (some n) s e = (refl, Next-last_nonce s.nonce_groups n e)
  next_after-NextOf none s e =
      bind_rule (NextOf s.nonce_groups) (on_world H P.next_nonce) (checked_nonce P quoter fuel cfg)
        s (λ x h. refl)
        λ nonce h.
          raise_if_rule (NextOf s.nonce_groups)
            (ltb 0 s.expected_nonce && ltb nonce s.expected_nonce) used_nonce
            (λ _. keep_nonce P quoter fuel cfg nonce) (on_world H P.next_nonce s).1 (λ _. refl)
            λ _. (refl, none_last s.nonce_groups nonce e)

  -- The nonce for a new group is the next after the last group's, where there is one.
  next_nonce-NextOf : (s : Run H) → NextOf s.nonce_groups (next_nonce P quoter fuel cfg s)
  unfolding next_nonce
  next_nonce-NextOf s = next_after-NextOf (last_nonce s.nonce_groups) s refl

  send_and_append-Consecutive :
      (id nonce : ℕ) (s : Run H)
      → IsSound P
      → Consecutive s.nonce_groups
      → Next s.nonce_groups nonce
      → ConsecutiveBy (send_and_append P quoter fuel cfg id nonce s)
  unfolding append_group
  send_and_append-Consecutive id nonce s sound c next =
      bind_rule ConsecutiveBy (send_transaction P quoter fuel cfg id nonce)
        (append_group P quoter fuel cfg id) s (λ x h. rw same c)
        λ tx h.
          let has : tx.nonce ≡ nonce =
            subst (λ r. HasNonce {H = H} nonce (r, s1)) h
              (send_transaction-HasNonce id nonce s sound) in
          Consecutive-snoc s1.nonce_groups _ (rw same c) (rw (same, has) next)
    where
      s1 : Run H
      s1 = (send_transaction P quoter fuel cfg id nonce s).1

      same : s1.nonce_groups ≡ s.nonce_groups
      same = (send_transaction_frame P quoter fuel cfg id nonce s).0

  attach-Consecutive :
      (i id : ℕ) (s : Run H)
      → IsSound P
      → Consecutive s.nonce_groups
      → ConsecutiveBy (attach P quoter fuel cfg i id s)
  unfolding attach
  attach-Consecutive i id s sound c =
      bind_rule ConsecutiveBy
        (when (ltb 0 i && ltb 0 cfg.tx_delay) (on_world H (pause H cfg.tx_delay)))
        (λ _. next_nonce P quoter fuel cfg >>= send_and_append P quoter fuel cfg id) s
        (λ x h. rw delayed c)
        λ u h.
          bind_rule ConsecutiveBy (next_nonce P quoter fuel cfg)
            (send_and_append P quoter fuel cfg id) s1
            (λ x e.
              rw (subst (λ r. NextOf s1.nonce_groups (r, s2)) e (next_nonce-NextOf s1), delayed) c)
            λ nonce e.
              let (same, next) =
                subst (λ r. NextOf s1.nonce_groups (r, s2)) e (next_nonce-NextOf s1) in
              send_and_append-Consecutive id nonce s2 sound (rw (same, delayed) c) (rw same next)
    where
      s1 : Run H
      s1 = (when (ltb 0 i && ltb 0 cfg.tx_delay) (on_world H (pause H cfg.tx_delay)) s).1

      s2 : Run H
      s2 = (next_nonce P quoter fuel cfg s1).1

      delayed_when :
          (b : Bool)
          → (when b (on_world H (pause H cfg.tx_delay)) s).1.nonce_groups ≡ s.nonce_groups
      delayed_when true = refl
      delayed_when false = refl

      delayed : s1.nonce_groups ≡ s.nonce_groups
      delayed = delayed_when (ltb 0 i && ltb 0 cfg.tx_delay)

  fill_round-Consecutive :
      (i : ℕ) (s : Run H)
      → IsSound P
      → Consecutive s.nonce_groups
      → ConsecutiveBy (fill_round P quoter fuel cfg i s)
  unfolding fill_round
  fill_round-Consecutive i s sound c =
      bind_rule ConsecutiveBy (on_db (fetch_first_open_payout_group H))
        (attach_found P quoter fuel cfg i) s (λ x h. c) λ found h. found_group found
    where
      s1 : Run H
      s1 = (on_db (fetch_first_open_payout_group H) s).1

      found_group :
          (found : Option PayoutGroup) → ConsecutiveBy (attach_found P quoter fuel cfg i found s1)
      found_group none = c
      found_group (some g) =
          bind_rule ConsecutiveBy (attach P quoter fuel cfg i g.id) (λ _. pure true) s1
            (λ x e. attach-Consecutive i g.id s1 sound c)
            λ u e. attach-Consecutive i g.id s1 sound c

  go_on-Consecutive :
      (rest : Action (Run H) Bool) (added more : Bool) (s : Run H)
      → ConsecutiveBy (rest s)
      → Consecutive s.nonce_groups
      → ConsecutiveBy (go_on P quoter fuel cfg rest added more s)
  go_on-Consecutive rest added true s r c = r
  go_on-Consecutive rest added false s r c = c

  -- If the payer makes transactions with the nonces that it is asked for: groups whose nonces are
  -- consecutive stay so when the pipeline is filled.
  pub fill-Consecutive :
      (n i : ℕ) (added : Bool) (s : Run H)
      → IsSound P
      → Consecutive s.nonce_groups
      → ConsecutiveBy (fill P quoter fuel cfg n i added s)
  unfolding fill
  fill-Consecutive zero i added s sound c = c
  fill-Consecutive (suc n) i added s sound c =
      choose_rule ConsecutiveBy _
        (fill_round P quoter fuel cfg i
          >>= go_on P quoter fuel cfg (fill P quoter fuel cfg n (suc i) true) added)
        (pure added) s
        (λ _.
          bind_rule ConsecutiveBy (fill_round P quoter fuel cfg i)
            (go_on P quoter fuel cfg (fill P quoter fuel cfg n (suc i) true) added) s (λ x e. c1)
            λ more e.
              go_on-Consecutive (fill P quoter fuel cfg n (suc i) true) added more s1
                (fill-Consecutive n (suc i) true s1 sound c1) c1)
        λ _. c
    where
      s1 : Run H
      s1 = (fill_round P quoter fuel cfg i s).1

      c1 : Consecutive s1.nonce_groups
      c1 = fill_round-Consecutive i s sound c
