-- ===== src/Payouts/Audit/Tally.antt =====
-- pkg/payouts/audit.go: what the last loop of Audit adds to the counts that decide about the receipts.
use crypto_batch_payment.Base.{
  ℕ, ◌+◌, String, ◌≡◌, ◌∙◌, refl, Option, none, some, List, [], ◌∷◌, filter, Result, ok, err,
  Action, ◌>>=◌, subst, arith,
}
use crypto_batch_payment.Base.Rules.{bind_rule}
use crypto_batch_payment.Host.{Host}
use crypto_batch_payment.Txstatus.{TxState, is_confirmed}
use crypto_batch_payment.Payoutdb.{Conn}
use crypto_batch_payment.Pipelinedb.{Payout, Transaction}
use crypto_batch_payment.Pipelinedb.Operations.{
  fetch_payout_group_payout_count, fetch_payout_group_transactions,
}
use crypto_batch_payment.Payouts.Audit.Totals.{classified}
use crypto_batch_payment.Payouts.Audit.{
  Auditor, AuditStats, Progress, lookup, add_state, check_states, by_confirmed, by_transactions,
  audit_group, audit_seen, audit_payouts,
}

-- The counts of an audit of `n` payouts before its last loop.
abbrev pub Blank : ℕ → AuditStats → Type 0
Blank n s = (s.total ≡ n) × (classified s ≡ 0) × (s.confirmed_payouts + s.overpaid ≡ 0)

abbrev pub BlankIn : {W : Type 0} → ℕ → Result AuditStats × W → Type 0
BlankIn n (err e, w) = Unit
BlankIn n (ok s, w) = Blank n s

module _ {H : Host} where
  -- As many payouts are newly confirmed as are newly in the two classes of confirmed payouts.
  abbrev pub Tallied : Progress H → Result (Progress H) × Conn H → Type 0
  Tallied st (err e, c) = Unit
  Tallied st (ok st', c) =
      (st'.stats.total ≡ st.stats.total)
      × (st'.payouts_confirmed + (st.stats.confirmed_payouts + st.stats.overpaid)
          ≡ st.payouts_confirmed + (st'.stats.confirmed_payouts + st'.stats.overpaid))

  tally_on :
      (st st1 : Progress H) (c1 : Conn H) (r : Result (Progress H) × Conn H)
      → Tallied st (ok st1, c1)
      → Tallied st1 r
      → Tallied st r
  tally_on st st1 c1 (err e, c) h k = tt
  tally_on st st1 c1 (ok st', c) h k = (k.0 ∙ h.0, omega (arith, h.1, k.1))

module _ {H : Host} (A : Auditor H) where
  add_state-Blank :
      (tx : Transaction H) (state : TxState) (n : ℕ) (stats : AuditStats)
      → Blank n stats
      → Blank n (add_state A tx state stats)
  add_state-Blank tx state n stats h = ground arith

  pub check_states-BlankIn :
      (txs : List (Transaction H)) (stats : AuditStats) (n : ℕ) (w : H.World)
      → Blank n stats
      → BlankIn n (check_states A txs stats w)
  unfolding check_states
  check_states-BlankIn [] stats n w h = h
  check_states-BlankIn (tx ∷ txs) stats n w h =
      bind_rule (BlankIn n) (A.check_state tx.hash)
        (λ state. check_states A txs (add_state A tx state stats)) w (λ e k. tt)
        λ state k.
          check_states-BlankIn txs (add_state A tx state stats) n _
            (add_state-Blank tx state n stats h)

  by_transactions-Tallied :
      (p : Payout H) (n : ℕ) (st : Progress H) (txs : List (Transaction H)) (c : Conn H)
      → Tallied st (by_transactions A p n st txs c)
  by_transactions-Tallied p n st [] c = ground arith
  by_transactions-Tallied p n st (x ∷ xs) c = go (filter (λ y. is_confirmed y.state) (x ∷ xs))
    where
      go : (sure : List (Transaction H)) → Tallied st (by_confirmed A p n (x ∷ xs) sure st c)
      go [] = ground arith
      go (y ∷ ys) = ground arith

  audit_group-Tallied :
      (p : Payout H) (st : Progress H) (c : Conn H) → Tallied st (audit_group A p st c)
  audit_group-Tallied p st c =
      bind_rule (Tallied st) (fetch_payout_group_payout_count H p.payout_group_id)
        (λ n. fetch_payout_group_transactions H p.payout_group_id >>= by_transactions A p n st) c
        (λ e h. tt)
        λ n h.
          bind_rule (Tallied st) (fetch_payout_group_transactions H p.payout_group_id)
            (by_transactions A p n st) _ (λ e k. tt) λ txs k. by_transactions-Tallied p n st txs _

  audit_seen-Tallied :
      (p : Payout H) (st : Progress H) (seen : Option String) (c : Conn H)
      → Tallied st (audit_seen A p st seen c)
  audit_seen-Tallied p st (some h) c = ground arith
  audit_seen-Tallied p st none c = audit_group-Tallied p st c

  pub audit_payouts-Tallied :
      (ps : List (Payout H)) (st : Progress H) (c : Conn H) → Tallied st (audit_payouts A ps st c)
  unfolding audit_payouts
  audit_payouts-Tallied [] st c = (refl, refl)
  audit_payouts-Tallied (p ∷ ps) st c =
      bind_rule (Tallied st) look (audit_payouts A ps) c (λ e h. tt)
        λ st1 h.
          tally_on st st1 (look c).1 _
            (subst (λ r. Tallied st (r, (look c).1)) h
              (audit_seen-Tallied p st (lookup p.payout_group_id st.group_status) c))
            (audit_payouts-Tallied ps st1 (look c).1)
    where
      look : Action (Conn H) (Progress H)
      look = audit_seen A p st (lookup p.payout_group_id st.group_status)
