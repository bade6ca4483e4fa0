-- ===== src/Payouts/Audit/Classes.antt =====
-- pkg/payouts/audit.go: each payout group is put in its class, once.
use crypto_batch_payment.Base.{
  ℕ, Bool, true, false, ◌==◌, ◌≡◌, List, [], ◌∷◌, filter, any, Result, ok, err,
}
use crypto_batch_payment.Host.{Host}
use crypto_batch_payment.Payoutdb.{Conn}
use crypto_batch_payment.Pipelinedb.{Payout, Transaction}
use crypto_batch_payment.Pipelinedb.Convert.{transactions_from_rows}
use crypto_batch_payment.Pipelinedb.Operations.{
  fetch_payout_group_payout_count, fetch_payout_group_transactions,
}
use crypto_batch_payment.Payouts.Audit.{Auditor, AuditStats, Progress, confirmed_count}
use crypto_batch_payment.Payouts.Audit.Totals.{keys, payouts_of}
use crypto_batch_payment.Payouts.Audit.Classing.{Class, count, InClass, sure}

module _ {H : Host} (A : Auditor H) where
  -- The database and the world after the two statements about a group.
  abbrev pub after_reads : ℕ → Conn H → Conn H
  after_reads id c =
      (fetch_payout_group_transactions H id (fetch_payout_group_payout_count H id c).1).1

  -- What is said of a group, if it has been seen and if not.
  abbrev pub Seen : Bool → Type 0 → Type 0 → Type 0
  Seen true S L = S
  Seen false S L = L

  -- From the statistics `s` on, `ps` lead to `s'`: each payout group, once, is read, its confirmed
  -- transactions are checked, and its payouts are counted in its class. Groups of `seen` are skipped.
  abbrev pub Classes : List ℕ → List (Payout H) → AuditStats → Conn H → AuditStats → Type 0
  Classes seen [] s c s' = s' ≡ s
  Classes seen (p ∷ ps) s c s' =
      let id = p.payout_group_id in
      Seen (any (λ k. k == id) seen) (Classes seen ps s c s') (
        (txs : List (Transaction H)) × (cl : Class) × (transactions_from_rows H
            (filter (λ r. r.payout_group_id == id) c.tables.tx)
          ≡ ok txs)
        × InClass cl txs (confirmed_count A (sure txs) (after_reads id c).world).0
        × Classes (id ∷ seen) ps (count cl (payouts_of c.tables id) s)
            (record c { world = (confirmed_count A (sure txs) (after_reads id c).world).1 }) s')

  -- A group that is looked at: it was read, and is in its class.
  abbrev Entered : Payout H → Progress H → Conn H → Result (Progress H) × Conn H → Type 0
  Entered p st c (err e, c') = Unit
  Entered p st c (ok st', c') =
      let c2 = after_reads p.payout_group_id c in
      (txs : List (Transaction H)) × (cl : Class) × (transactions_from_rows H
          (filter (λ r. r.payout_group_id == p.payout_group_id) c.tables.tx)
        ≡ ok txs)
      × InClass cl txs (confirmed_count A (sure txs) c2.world).0
      × (st'.stats ≡ count cl (payouts_of c.tables p.payout_group_id) st.stats)
      × (c' ≡ record c { world = (confirmed_count A (sure txs) c2.world).1 })

  -- What an audit of payouts leaves, if it ends without an error.
  abbrev pub AllClassed :
      Progress H → List (Payout H) → Conn H → Result (Progress H) × Conn H → Type 0
  AllClassed st ps c (err e, c') = Unit
  AllClassed st ps c (ok st', c') = Classes (keys st.group_status) ps st.stats c st'.stats
