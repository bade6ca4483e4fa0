-- ===== src/Pipeline/Invariant/Fills.antt =====
-- pkg/pipeline/pipeline.go: payoutStep keeps the invariant.
use crypto_batch_payment.Base.{
  ℕ, zero, suc, Bool, true, false, ◌&&◌, ltb, ◌≡◌, refl, inl, inr, Option, none, some, List, [],
  ◌∷◌, All, Result, ok, Action, ◌>>=◌, ◌>>◌, pure, when, subst, arith,
}
use crypto_batch_payment.Base.Rules.{bind_rule, choose_rule}
use crypto_batch_payment.Host.{Host}
use crypto_batch_payment.Payoutdb.{TransactionRow}
use crypto_batch_payment.Payoutdb.Rows.{has_pending}
use crypto_batch_payment.Pipelinedb.{PayoutGroup, Transaction, NonceGroup}
use crypto_batch_payment.Pipelinedb.Operations.{fetch_first_open_payout_group}
use crypto_batch_payment.Pipelinedb.Frame.{fetch_first_open_frame, fetch_payout_progress_frame}
use crypto_batch_payment.Pipelinedb.Open.{fetch_first_open_payout_group-open}
use crypto_batch_payment.Payer.{Payer, IsSound}
use crypto_batch_payment.Pipeline.{Config, Run, pause, on_db, on_world}
use crypto_batch_payment.Pipeline.Send.{is_empty, send_transaction}
use crypto_batch_payment.Pipeline.Sending.{send_transaction_frame}
use crypto_batch_payment.Pipeline.Check.{check_nonce_groups}
use crypto_batch_payment.Pipeline.Step.{
  trim, nonce_from_chain, next_nonce, append_group, send_and_append, attach, attach_found,
  fill_round, go_on, fill, report_progress, wait_or_finish, wait_for_groups,
}
use crypto_batch_payment.Pipeline.Invariant.{
  TxOk, GroupOk, Apart, Distinct, Inv, InvOf-cast, All-snoc, Distinct-append,
}
use crypto_batch_payment.Pipeline.Invariant.Sends.{
  Attached, send_transaction-InvOf, send_transaction-Attached,
}
use crypto_batch_payment.Pipeline.Invariant.Loop.{
  Live, FinishedFirst, Live-FinishedFirst, Kept, KeptBy,
}
use crypto_batch_payment.Pipeline.Invariant.Checking.{check_nonce_groups-Kept}

module _ {H : Host} where
  -- Trimming leaves the groups that are not finished.
  trim-Live : (gs : List (NonceGroup H)) → FinishedFirst gs → All Live (trim gs)
  unfolding trim
  trim-Live [] f = tt
  trim-Live (g ∷ gs) (inl f) = rw (f.0) (trim-Live gs f.1)
  trim-Live (g ∷ gs) (inr l) = rw (l.0) l

  trim-All : (Q : NonceGroup H → Type 0) (gs : List (NonceGroup H)) → All Q gs → All Q (trim gs)
  unfolding trim
  trim-All Q [] a = tt
  trim-All Q (g ∷ gs) a = ground (arith, trim-All Q gs a.1)

  trim-Distinct : (gs : List (NonceGroup H)) → Distinct gs → Distinct (trim gs)
  unfolding trim
  trim-Distinct [] d = tt
  trim-Distinct (g ∷ gs) d = ground (arith, trim-Distinct gs d.1)

  -- A run whose groups are all not finished.
  abbrev pub Ready : Run H → Type 0
  Ready s = Inv s × All Live s.nonce_groups

  abbrev pub ReadyBy : {A : Type 0} → Result A × Run H → Type 0
  ReadyBy (r, s) = Ready s

  pub trim-Ready : (s : Run H) → Kept s → Ready (record s { nonce_groups = trim s.nonce_groups })
  trim-Ready s (inv, f) = (
    record {
      write_ahead = inv.write_ahead;
      groups_ok = trim-All (GroupOk s.conn.tables.tx) s.nonce_groups inv.groups_ok;
      distinct = trim-Distinct s.nonce_groups inv.distinct;
      keyed = inv.keyed;
    },
    trim-Live s.nonce_groups f,
  )

  pub Ready-Kept : (s : Run H) → Ready s → Kept s
  Ready-Kept s (inv, l) = (inv, Live-FinishedFirst s.nonce_groups l)

  -- A group for a payout group with no pending row is apart from those that have one.
  All-Apart-open :
      (rows : List TransactionRow) (g : NonceGroup H) (gs : List (NonceGroup H))
      → has_pending rows g.payout_group_id ≡ false
      → All Live gs
      → All (GroupOk rows) gs
      → All (λ h. Apart h g) gs
  All-Apart-open rows g [] open_g l a = tt
  All-Apart-open rows g (h ∷ gs) open_g l a = (apart, All-Apart-open rows g gs open_g l.1 a.1)
    where
      apart : Apart h g
      apart = elim a.0.1 [
        | inl e ↦ inl e
        | inr pending_h ↦ inr (inr (λ same. cc (same, open_g, pending_h)))
      ]

module _ {H : Host} (P : Payer H) (quoter : Action H.World H.Decimal) (fuel : ℕ)
    (cfg : Config) where
  -- The nonce is found without a change of the tables or of the groups.
  next_nonce_frame :
      (s : Run H)
      → let s' = (next_nonce P quoter fuel cfg s).1 in
        (s'.conn.tables ≡ s.conn.tables) × (s'.sent ≡ s.sent) × (s'.nonce_groups ≡ s.nonce_groups)
  unfolding next_nonce nonce_from_chain
  next_nonce_frame s = ground arith

  append-Ready :
      (id : ℕ) (tx : Transaction H) (s : Run H)
      → Ready s
      → has_pending s.conn.tables.tx id ≡ true
      → TxOk s.conn.tables.tx id tx
      → All
          (λ h. Apart h (record { nonce = tx.nonce; payout_group_id = id; txs = tx ∷ [] }))
          s.nonce_groups
      → Ready (append_group P quoter fuel cfg id tx s).1
  unfolding append_group
  append-Ready id tx s (inv, l) p q apart = (
    record {
      write_ahead = inv.write_ahead;
      groups_ok =
          All-snoc (GroupOk s.conn.tables.tx) s.nonce_groups _ inv.groups_ok ((q, tt), inr p);
      distinct = Distinct-append s.nonce_groups _ apart inv.distinct;
      keyed = inv.keyed;
    },
    All-snoc Live s.nonce_groups _ l refl,
  )

  send_and_append-Ready :
      (id nonce : ℕ) (s : Run H)
      → Ready s
      → has_pending s.conn.tables.tx id ≡ false
      → ReadyBy (send_and_append P quoter fuel cfg id nonce s)
  send_and_append-Ready id nonce s (inv, l) open_id =
      bind_rule ReadyBy (send_transaction P quoter fuel cfg id nonce)
        (append_group P quoter fuel cfg id) s (λ x h. ready1)
        λ tx h.
          let (q, p) =
            subst (Attached id s1.conn.tables) h
              (send_transaction-Attached P quoter fuel cfg id nonce s) in
          append-Ready id tx s1 ready1 p q (
            rw same (
              All-Apart-open s.conn.tables.tx
                (record { nonce = tx.nonce; payout_group_id = id; txs = tx ∷ [] }) s.nonce_groups
                open_id l inv.groups_ok))
    where
      s1 : Run H
      s1 = (send_transaction P quoter fuel cfg id nonce s).1

      same : s1.nonce_groups ≡ s.nonce_groups
      same = (send_transaction_frame P quoter fuel cfg id nonce s).0

      ready1 : Ready s1
      ready1 = (
        InvOf-cast refl refl same
            (send_transaction-InvOf P quoter fuel cfg id nonce s.nonce_groups s inv),
        rw same l,
      )

  abbrev Quiet : Run H → Run H → Type 0
  Quiet s s' =
      (s'.conn.tables ≡ s.conn.tables) × (s'.sent ≡ s.sent) × (s'.nonce_groups ≡ s.nonce_groups)

  Quiet-Ready : (s s' : Run H) → Quiet s s' → Ready s → Ready s'
  Quiet-Ready s s' (t, q, e) (inv, l) = (InvOf-cast t q e inv, rw e l)

  delay-Quiet : (b : Bool) (d : ℕ) (s : Run H) → Quiet s (when b (on_world H (pause H d)) s).1
  delay-Quiet true d s = (refl, refl, refl)
  delay-Quiet false d s = (refl, refl, refl)

  attach-Ready :
      (i id : ℕ) (s : Run H)
      → Ready s
      → has_pending s.conn.tables.tx id ≡ false
      → ReadyBy (attach P quoter fuel cfg i id s)
  unfolding attach
  attach-Ready i id s ready open_id =
      bind_rule ReadyBy (when (ltb 0 i && ltb 0 cfg.tx_delay) (on_world H (pause H cfg.tx_delay)))
        (λ _. next_nonce P quoter fuel cfg >>= send_and_append P quoter fuel cfg id) s
        (λ x h. ready1)
        λ u h.
          bind_rule ReadyBy (next_nonce P quoter fuel cfg) (send_and_append P quoter fuel cfg id) s1
            (λ x e. Quiet-Ready s1 s2 (next_nonce_frame s1) ready1)
            λ nonce e.
              send_and_append-Ready id nonce s2 (Quiet-Ready s1 s2 (next_nonce_frame s1) ready1)
                (rw ((next_nonce_frame s1).0, delayed.0) open_id)
    where
      s1 : Run H
      s1 = (when (ltb 0 i && ltb 0 cfg.tx_delay) (on_world H (pause H cfg.tx_delay)) s).1

      s2 : Run H
      s2 = (next_nonce P quoter fuel cfg s1).1

      delayed : Quiet s s1
      delayed = delay-Quiet (ltb 0 i && ltb 0 cfg.tx_delay) cfg.tx_delay s

      ready1 : Ready s1
      ready1 = Quiet-Ready s s1 delayed ready

  fill_round-Ready : (i : ℕ) (s : Run H) → Ready s → ReadyBy (fill_round P quoter fuel cfg i s)
  unfolding fill_round
  fill_round-Ready i s (inv, l) =
      bind_rule ReadyBy (on_db (fetch_first_open_payout_group H)) (attach_found P quoter fuel cfg i)
        s (λ x h. ready1) λ found h. found-Ready found h
    where
      s1 : Run H
      s1 = (on_db (fetch_first_open_payout_group H) s).1

      same : s1.conn.tables ≡ s.conn.tables
      same = fetch_first_open_frame s.conn

      ready1 : Ready s1
      ready1 = (InvOf-cast same refl refl inv, l)

      found-Ready :
          (found : Option PayoutGroup)
          → (fetch_first_open_payout_group H s.conn).0 ≡ ok found
          → ReadyBy (attach_found P quoter fuel cfg i found s1)
      found-Ready none h = ready1
      found-Ready (some g) h =
          bind_rule ReadyBy (attach P quoter fuel cfg i g.id) (λ _. pure true) s1 (λ x e. attached)
            λ u e. attached
        where
          attached : Ready (attach P quoter fuel cfg i g.id s1).1
          attached =
              attach-Ready i g.id s1 ready1
                (rw same ((fetch_first_open_payout_group-open s.conn g inv.keyed h).0))

  go_on-Ready :
      (rest : Action (Run H) Bool) (added more : Bool) (s : Run H)
      → (Ready s → ReadyBy (rest s))
      → Ready s
      → ReadyBy (go_on P quoter fuel cfg rest added more s)
  go_on-Ready rest added true s go ready = go ready
  go_on-Ready rest added false s go ready = ready

  pub fill-Ready :
      (n i : ℕ) (added : Bool) (s : Run H) → Ready s → ReadyBy (fill P quoter fuel cfg n i added s)
  unfolding fill
  fill-Ready zero i added s ready = ready
  fill-Ready (suc n) i added s ready =
      choose_rule ReadyBy _
        (fill_round P quoter fuel cfg i
          >>= go_on P quoter fuel cfg (fill P quoter fuel cfg n (suc i) true) added)
        (pure added) s
        (λ _.
          bind_rule ReadyBy (fill_round P quoter fuel cfg i)
            (go_on P quoter fuel cfg (fill P quoter fuel cfg n (suc i) true) added) s
            (λ x h. fill_round-Ready i s ready)
            λ more h.
              go_on-Ready (fill P quoter fuel cfg n (suc i) true) added more
                (fill_round P quoter fuel cfg i s).1 (λ r. fill-Ready n (suc i) true _ r)
                (fill_round-Ready i s ready))
        λ _. ready

  report_progress-Quiet :
      (added : Bool) (s : Run H) → Quiet s (report_progress P quoter fuel cfg added s).1
  report_progress-Quiet true s = ground (arith, fetch_payout_progress_frame s.conn)
  report_progress-Quiet false s = (refl, refl, refl)

  pub wait_or_finish-Kept :
      (added : Bool) (s : Run H)
      → IsSound P
      → Ready s
      → KeptBy (wait_or_finish P quoter fuel cfg added s)
  unfolding wait_or_finish
  wait_or_finish-Kept added s sound ready =
      choose_rule KeptBy (is_empty s.nonce_groups) (pure true)
        (wait_for_groups P quoter fuel cfg added) s (λ _. Ready-Kept s ready)
        λ _.
          bind_rule KeptBy (report_progress P quoter fuel cfg added)
            (λ _. check_nonce_groups P quoter fuel cfg >> pure false) s
            (λ x h. Ready-Kept s1 ready1)
            λ u h.
              bind_rule KeptBy (check_nonce_groups P quoter fuel cfg) (λ _. pure false) s1
                (λ x e. checked) λ v e. checked
    where
      s1 : Run H
      s1 = (report_progress P quoter fuel cfg added s).1

      ready1 : Ready s1
      ready1 = Quiet-Ready s s1 (report_progress-Quiet added s) ready

      checked : Kept (check_nonce_groups P quoter fuel cfg s1).1
      checked = check_nonce_groups-Kept P quoter fuel cfg s1 sound ready1.1 ready1.0
