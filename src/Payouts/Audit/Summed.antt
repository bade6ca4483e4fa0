-- ===== src/Payouts/Audit/Summed.antt =====
-- pkg/payouts/audit.go: the payouts of an audit, and how many of them are confirmed.
use crypto_batch_payment.Base.{
  ℕ, ◌+◌, ◌≡◌, ◌∙◌, refl, List, [], length, Result, ok, err, ◌>>=◌, subst, arith,
}
use crypto_batch_payment.Base.Rules.{bind_rule}
use crypto_batch_payment.Host.{Host}
use crypto_batch_payment.Payoutdb.{Tables, Conn}
use crypto_batch_payment.Payoutdb.Reads.{all_transaction}
use crypto_batch_payment.Pipelinedb.{Payout}
use crypto_batch_payment.Pipelinedb.Convert.{payouts_from_rows}
use crypto_batch_payment.Pipelinedb.Operations.{fetch_payouts, fetch_transactions}
use crypto_batch_payment.Pipelinedb.Stats.Numbered.{reads_rule, fetch_payouts-Reads}
use crypto_batch_payment.Payouts.Audit.{
  Auditor, AuditStats, Progress, first_stats, checked_states, audit_payouts, audit,
}
use crypto_batch_payment.Payouts.Audit.Totals.{Classified, audit_payouts-Classified}
use crypto_batch_payment.Payouts.Audit.Tally.{
  Blank, BlankIn, check_states-BlankIn, Tallied, audit_payouts-Tallied,
}
use crypto_batch_payment.Payouts.Audit.Covered.{group_sizes-all}

-- The payouts that have been put in a class other than those of confirmed payouts.
abbrev pub unpaid : AuditStats → ℕ
unpaid s =
    s.false_confirmed + s.unstarted + s.pending_payouts + s.failed_payouts + s.dropped_payouts
    + s.unknown_payouts

abbrev start_of : {H : Host} → AuditStats → Progress H
start_of s = record { stats = s; group_status = []; receipts = []; payouts_confirmed = 0 }

blank_in :
    {V W : Type 0} (n : ℕ) (r : Result AuditStats) (s : AuditStats) (v : V) (w : W)
    → BlankIn n (r, w)
    → r ≡ ok s
    → Blank n s
blank_in n (err e) s v w h k = cc
blank_in n (ok s') s v w h k = subst (λ r. BlankIn n (r, w)) k h

module _ {H : Host} where
  -- The confirmed payouts and the others are all payouts.
  abbrev pub Complete : Result (Progress H) × Conn H → Type 0
  Complete (err e, c) = Unit
  Complete (ok st, c) = st.payouts_confirmed + unpaid st.stats ≡ st.stats.total

module _ {H : Host} (A : Auditor H) where
  sum_up :
      (t : Tables) (db : List (Payout H)) (s : AuditStats) (r : Result (Progress H) × Conn H)
      → payouts_from_rows H t.payout ≡ ok db
      → Blank (length db) s
      → Classified A t (start_of s) db r
      → Tallied (start_of s) r
      → Complete r
  sum_up t db s (err e, c) read blank all tally = tt
  sum_up t db s (ok st, c) read blank all tally =
      omega (arith, group_sizes-all t db read, blank.0, blank.1, blank.2, all, tally.0, tally.1)

  transactions_frame : (c : Conn H) → (fetch_transactions H c).1.tables ≡ c.tables
  unfolding fetch_transactions all_transaction
  transactions_frame c = ground arith

  audit_from-Complete :
      (csv db : List (Payout H)) (t : Tables) (c : Conn H)
      → payouts_from_rows H t.payout ≡ ok db
      → c.tables ≡ t
      → Complete (
          (fetch_transactions H >>= λ txs.
          checked_states A txs (first_stats A csv db) >>= λ s. audit_payouts A db (start_of s))
            c)
  audit_from-Complete csv db t c read same =
      bind_rule Complete (fetch_transactions H)
        (λ txs.
          checked_states A txs (first_stats A csv db) >>= λ s. audit_payouts A db (start_of s))
        c (λ e h. tt)
        λ txs h.
          bind_rule Complete (checked_states A txs (first_stats A csv db))
            (λ s. audit_payouts A db (start_of s)) c1 (λ e h. tt)
            λ s k.
              sum_up t db s _ read
                (blank_in (length db) _ s tt _
                  (check_states-BlankIn A txs (first_stats A csv db) (length db) c1.world
                    (refl, refl, refl))
                  k)
                (subst
                  (λ x. Classified A x (start_of s) db (
                    audit_payouts A db (start_of s)
                      (checked_states A txs (first_stats A csv db) c1).1))
                  (transactions_frame c ∙ same)
                  (audit_payouts-Classified A db (start_of s)
                    (checked_states A txs (first_stats A csv db) c1).1))
                (audit_payouts-Tallied A db (start_of s)
                  (checked_states A txs (first_stats A csv db) c1).1)
    where
      c1 : Conn H
      c1 = (fetch_transactions H c).1

  pub audit-Complete : (csv : List (Payout H)) (c : Conn H) → Complete (audit A csv c)
  unfolding audit
  audit-Complete csv c =
      reads_rule Complete c.tables (payouts_from_rows H c.tables.payout) (fetch_payouts H)
        (λ db. fetch_transactions H >>= λ txs.
          checked_states A txs (first_stats A csv db) >>= λ s. audit_payouts A db (start_of s))
        c (fetch_payouts-Reads H c) (λ e c' same. tt)
        λ db c' read same. audit_from-Complete csv db c.tables c' read same
