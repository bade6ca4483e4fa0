-- ===== src/Payouts/Audit.antt =====
-- pkg/payouts/audit.go: Audit, from the payouts of the CSV file and of the database on. What it
-- reports on the way is left out; the auditor is a parameter.
pub mod Totals
pub mod Classing
pub mod Classes
pub mod Report
pub mod Tally
pub mod Covered
pub mod Summed
pub mod Paid
use crypto_batch_payment.Base.{
  ℕ, zero, suc, ◌+◌, String, Bool, true, false, not, ◌&&◌, ◌||◌, ◌==◌, ltb, str_eq, if◌then◌else◌,
  Option, none, some, List, [], ◌∷◌, map, filter, any, length, Result, ok, err, Action, ◌>>=◌, ◌>>◌,
  pure, choose,
}
use crypto_batch_payment.Base.Int.{ℤ, pos, ◌+ℤ◌}
use crypto_batch_payment.Host.{Host}
use crypto_batch_payment.Txstatus.{
  TxState, pending, dropped, failed_tx, confirmed, tx_state_string, is_confirmed, is_dropped,
}
use crypto_batch_payment.Payoutdb.{Conn}
use crypto_batch_payment.Pipelinedb.{Payout, Transaction}
use crypto_batch_payment.Pipelinedb.Operations.{
  fetch_payouts, fetch_transactions, fetch_payout_group_payout_count,
  fetch_payout_group_transactions,
}
use crypto_batch_payment.Pipeline.Send.{is_empty}

-- `payer.Auditor`
pub record Auditor (H : Host) : Type 0 where
  pub check_state : String → Action H.World TxState
  pub check_confirmed_state : String → Action H.World TxState

pub record AuditStats : Type 0 where
  pub total : ℕ
  pub confirmed_payouts : ℕ
  pub false_confirmed : ℕ
  pub overpaid : ℕ
  pub unstarted : ℕ
  pub pending_payouts : ℕ
  pub failed_payouts : ℕ
  pub dropped_payouts : ℕ
  pub unknown_payouts : ℕ
  pub mismatched : ℕ
  pub double_pays : ℕ
  pub double_pay_storj : ℤ

abbrev pub is_failed : TxState → Bool
is_failed failed_tx = true
is_failed _ = false

abbrev pub is_pending : TxState → Bool
is_pending pending = true
is_pending _ = false

-- A set of lines.
abbrev pub add_line : ℕ → List ℕ → List ℕ
add_line n lines = if any (λ m. m == n) lines then lines else n ∷ lines

module _ (H : Host) where
  -- A map from lines: of two payouts with one line, the later is kept.
  unfoldable pub by_line : ℕ → List (Payout H) → Option (Payout H)
  by_line n [] = none
  by_line n (p ∷ ps) = elim (by_line n ps) [
    | some q ↦ some q
    | none ↦ if p.csv_line == n then some p else none
  ]

  -- Whether the payout of the same line is missing, or has another payee or amount.
  abbrev pub mismatch : Payout H → Option (Payout H) → Bool
  mismatch p none = true
  mismatch p (some q) = not (p.payee == q.payee) || not (H.decimal_equal q.usd p.usd)

  -- One of the two loops: the lines of `ps` that `qs` does not match.
  unfoldable pub reconcile : List (Payout H) → List (Payout H) → List ℕ → List ℕ
  reconcile [] qs lines = lines
  reconcile (p ∷ ps) qs lines =
      reconcile ps qs
        (if mismatch p (by_line p.csv_line qs) then add_line p.csv_line lines else lines)

  unfoldable pub count_mismatched : (csv db : List (Payout H)) → ℕ
  count_mismatched csv db = length (reconcile db csv (reconcile csv db []))

-- The progress of the last loop: `group_status` maps the groups that have been looked at to the
-- hash that confirms them, or to the empty text.
pub record Progress (H : Host) : Type 0 where
  pub stats : AuditStats
  pub group_status : List (ℕ × String)
  pub receipts : List (ℕ × H.Decimal × String)
  pub payouts_confirmed : ℕ

abbrev pub lookup : ℕ → List (ℕ × String) → Option String
lookup id [] = none
lookup id ((k, h) ∷ rest) = if k == id then some h else lookup id rest

module _ {H : Host} (A : Auditor H) where
  -- A transaction that is dropped in the database and confirmed on the chain is a double pay.
  abbrev pub add_state : Transaction H → TxState → AuditStats → AuditStats
  add_state tx state stats =
      if is_dropped tx.state && is_confirmed state
      then record stats {
        double_pays = stats.double_pays + 1;
        double_pay_storj = stats.double_pay_storj +ℤ tx.storj_tokens;
      }
      else stats

  unfoldable pub check_states : List (Transaction H) → AuditStats → Action H.World AuditStats
  check_states [] stats = pure stats
  check_states (tx ∷ txs) stats = do
    state ← A.check_state tx.hash
    check_states txs (add_state tx state stats)

  abbrev pub says_confirmed : Result TxState → Bool
  says_confirmed (ok confirmed) = true
  says_confirmed _ = false

  -- How many of the transactions are confirmed by the chain; a failed question does not count.
  unfoldable pub confirmed_count : List (Transaction H) → H.World → ℕ × H.World
  confirmed_count [] w = (0, w)
  confirmed_count (tx ∷ txs) w =
      let (r, w1) = A.check_confirmed_state tx.hash w in
      let (n, w2) = confirmed_count txs w1 in (if says_confirmed r then suc n else n, w2)

  -- A group with no confirmed transaction, by the states of those that it has.
  abbrev pub add_unconfirmed : ℕ → List (Transaction H) → AuditStats → AuditStats
  add_unconfirmed n txs stats =
      if any (λ x. is_pending x.state) txs
      then record stats { pending_payouts = stats.pending_payouts + n }
      else if any (λ x. is_failed x.state) txs
      then record stats { failed_payouts = stats.failed_payouts + n }
      else if any (λ x. is_dropped x.state) txs
      then record stats { dropped_payouts = stats.dropped_payouts + n }
      else record stats { unknown_payouts = stats.unknown_payouts + n }

  -- A group with confirmed transactions, by how many the chain confirms.
  abbrev pub add_confirmed : ℕ → ℕ → AuditStats → AuditStats
  add_confirmed n k stats =
      if ltb 1 k
      then record stats { overpaid = stats.overpaid + n }
      else if k == 0
      then record stats { false_confirmed = stats.false_confirmed + n }
      else record stats { confirmed_payouts = stats.confirmed_payouts + n }

  abbrev pub emit : Payout H → String → Progress H → Progress H
  emit p h st = record st { receipts = (p.payee, p.usd, h) ∷ st.receipts }

  abbrev pub close_group : Payout H → String → AuditStats → Progress H → Progress H
  close_group p h stats st = record st {
    stats = stats;
    group_status = (p.payout_group_id, h) ∷ st.group_status;
  }

  abbrev pub close_confirmed : Payout H → ℕ → String → ℕ → Progress H → Progress H
  close_confirmed p n h k st =
      if k == 0
      then close_group p "" (add_confirmed n k st.stats) st
      else emit p h (
          close_group p h (add_confirmed n k st.stats)
            (record st { payouts_confirmed = st.payouts_confirmed + n }))

  -- `confirmed` holds the transactions of the group that the database says are confirmed.
  abbrev pub by_confirmed :
      Payout H
      → ℕ
      → List (Transaction H)
      → List (Transaction H)
      → Progress H
      → Action (Conn H) (Progress H)
  by_confirmed p n txs [] st c = (ok (close_group p "" (add_unconfirmed n txs st.stats) st), c)
  by_confirmed p n txs (x ∷ xs) st c =
      let (k, w) = confirmed_count (x ∷ xs) c.world in
      (ok (close_confirmed p n x.hash k st), record c { world = w })

  abbrev pub by_transactions :
      Payout H → ℕ → Progress H → List (Transaction H) → Action (Conn H) (Progress H)
  by_transactions p n st [] =
      pure (close_group p "" (record (st.stats) { unstarted = st.stats.unstarted + n }) st)
  by_transactions p n st (x ∷ xs) =
      by_confirmed p n (x ∷ xs) (filter (λ y. is_confirmed y.state) (x ∷ xs)) st

  abbrev pub audit_group : Payout H → Progress H → Action (Conn H) (Progress H)
  audit_group p st = do
    n ← fetch_payout_group_payout_count H p.payout_group_id
    txs ← fetch_payout_group_transactions H p.payout_group_id
    by_transactions p n st txs

  abbrev pub audit_seen : Payout H → Progress H → Option String → Action (Conn H) (Progress H)
  audit_seen p st (some h) = pure (if str_eq h "" then st else emit p h st)
  audit_seen p st none = audit_group p st

  unfoldable pub audit_payouts : List (Payout H) → Progress H → Action (Conn H) (Progress H)
  audit_payouts [] st = pure st
  audit_payouts (p ∷ ps) st = do
    st' ← audit_seen p st (lookup p.payout_group_id st.group_status)
    audit_payouts ps st'

  abbrev pub first_stats : (csv db : List (Payout H)) → AuditStats
  first_stats csv db = record {
    total = length db;
    confirmed_payouts = 0;
    false_confirmed = 0;
    overpaid = 0;
    unstarted = 0;
    pending_payouts = 0;
    failed_payouts = 0;
    dropped_payouts = 0;
    unknown_payouts = 0;
    mismatched = count_mismatched H csv db;
    double_pays = 0;
    double_pay_storj = pos 0;
  }

  abbrev pub checked_states : List (Transaction H) → AuditStats → Action (Conn H) AuditStats
  checked_states txs stats c =
      let (r, w) = check_states txs stats c.world in (r, record c { world = w })

  -- `Audit`, on the payouts of the CSV file.
  unfoldable pub audit : List (Payout H) → Action (Conn H) (Progress H)
  audit csv = do
    db ← fetch_payouts H
    txs ← fetch_transactions H
    stats ← checked_states txs (first_stats csv db)
    audit_payouts db
        (record { stats = stats; group_status = []; receipts = []; payouts_confirmed = 0 })
