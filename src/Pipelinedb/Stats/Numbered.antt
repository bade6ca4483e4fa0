-- ===== src/Pipelinedb/Stats/Numbered.antt =====
-- pkg/pipelinedb/db.go: what Stats reads from the tables.
use crypto_batch_payment.Base.{
  ℕ, String, none, str_eq, ◌≡◌, List, [], length, filter, Result, ok, err, Error, Action, ◌>>=◌,
  subst, arith,
}
use crypto_batch_payment.Base.Rules.{bind_rule}
use crypto_batch_payment.Host.{Host}
use crypto_batch_payment.Txstatus.{tx_state_string}
use crypto_batch_payment.Payoutdb.{Tables, Conn}
use crypto_batch_payment.Payoutdb.Rows.{is_unfinished}
use crypto_batch_payment.Payoutdb.Reads.{
  all_payout, all_payout_unfinished, of_unfinished_group, count_payout_group,
  count_payout_group_unfinished, count_transaction, count_transaction_by_state,
}
use crypto_batch_payment.Pipelinedb.{Payout}
use crypto_batch_payment.Pipelinedb.Convert.{payouts_from_rows}
use crypto_batch_payment.Pipelinedb.Operations.{fetch_payouts}
use crypto_batch_payment.Pipelinedb.Stats.{
  fetch_left_payouts, DbStats, payees_of, add_usd, count_rows, db_stats,
}

module _ {H : Host} {A : Type 0} where
  -- A call that reads `r` from the tables, where it does not fail, and leaves them as they are.
  abbrev pub Reads : Tables → Result A → Result A × Conn H → Type 0
  Reads t r (ok a, c) = (r ≡ ok a) × (c.tables ≡ t)
  Reads t r (err e, c) = c.tables ≡ t

  pub reads_rule :
      {B : Type 0} (Q : Result B × Conn H → Type 0) (t : Tables) (r : Result A)
      (m : Action (Conn H) A) (f : A → Action (Conn H) B) (c : Conn H)
      → Reads t r (m c)
      → ((e : Error) (c' : Conn H) → c'.tables ≡ t → Q (err e, c'))
      → ((a : A) (c' : Conn H) → r ≡ ok a → c'.tables ≡ t → Q (f a c'))
      → Q ((m >>= f) c)
  reads_rule Q t r m f c read failed rest =
      bind_rule Q m f c (λ e h. failed e (m c).1 (subst (λ x. Reads t r (x, (m c).1)) h read))
        λ a h.
          let (value, same) = subst (λ x. Reads t r (x, (m c).1)) h read in
          rest a (m c).1 value same

module _ (H : Host) where
  abbrev in_state : Tables → String → ℕ
  in_state t text = length (filter (λ x. str_eq x.state text) t.tx)

  -- The numbers for tables whose payouts are `all`, those of unfinished groups `left`.
  abbrev pub numbers : Tables → (all left : List (Payout H)) → DbStats H
  numbers t all left = record {
    spender = none;
    owner = none;
    payees = length (payees_of H all []);
    total_payouts = length all;
    total_usd = add_usd H all H.decimal_zero;
    pending_payouts = length left;
    pending_usd = add_usd H left H.decimal_zero;
    total_payout_groups = length t.payout_group;
    pending_payout_groups = length (filter is_unfinished t.payout_group);
    total_transactions = length t.tx;
    pending_transactions = in_state t "pending";
    failed_transactions = in_state t "failed";
    confirmed_transactions = in_state t "confirmed";
    dropped_transactions = in_state t "dropped";
  }

  count_rows-Reads :
      (all left : List (Payout H)) (t : Tables) (c : Conn H)
      → c.tables ≡ t
      → Reads t (ok (numbers t all left)) (count_rows H all left c)
  unfolding count_rows count_payout_group count_payout_group_unfinished count_transaction
      count_transaction_by_state tx_state_string
  count_rows-Reads all left t c same = ground arith

  -- Either the numbers of the tables, whose payouts can all be read, or an error.
  abbrev pub Numbered : Tables → Result (DbStats H) × Conn H → Type 0
  Numbered t (err e, c) = c.tables ≡ t
  Numbered t (ok s, c) =
      (all : List (Payout H)) × (left : List (Payout H)) × (payouts_from_rows H t.payout ≡ ok all)
      × (payouts_from_rows H (filter (of_unfinished_group t) t.payout) ≡ ok left)
      × (s ≡ numbers t all left)
      × (c.tables ≡ t)

  count_rows-Numbered :
      (all left : List (Payout H)) (t : Tables) (r : Result (DbStats H) × Conn H)
      → payouts_from_rows H t.payout ≡ ok all
      → payouts_from_rows H (filter (of_unfinished_group t) t.payout) ≡ ok left
      → Reads t (ok (numbers t all left)) r
      → Numbered t r
  count_rows-Numbered all left t (err e, c) p q same = same
  count_rows-Numbered all left t (ok s, c) p q (e, same) =
      (all, left, p, q, ground (arith, e), same)

  pub fetch_payouts-Reads :
      (c : Conn H) → Reads c.tables (payouts_from_rows H c.tables.payout) (fetch_payouts H c)
  unfolding fetch_payouts all_payout
  fetch_payouts-Reads c = ground arith

  fetch_left-Reads :
      (c : Conn H)
      → Reads c.tables
          (payouts_from_rows H (filter (of_unfinished_group c.tables) c.tables.payout))
          (fetch_left_payouts H c)
  unfolding fetch_left_payouts all_payout_unfinished
  fetch_left-Reads c = ground arith

  pub db_stats-Numbered : (c : Conn H) → Numbered c.tables (db_stats H c)
  unfolding db_stats
  db_stats-Numbered c =
      reads_rule (Numbered c.tables) c.tables (payouts_from_rows H c.tables.payout)
        (fetch_payouts H) (λ all. fetch_left_payouts H >>= count_rows H all) c
        (fetch_payouts-Reads c) (λ e c' same. same)
        λ all c1 p same1.
          reads_rule (Numbered c.tables) c.tables _ (fetch_left_payouts H) (count_rows H all) c1
            (subst
              (λ t.
                Reads t (payouts_from_rows H (filter (of_unfinished_group t) t.payout))
                  (fetch_left_payouts H c1))
              same1 (fetch_left-Reads c1))
            (λ e c' same. same)
            λ left c2 q same2.
              count_rows-Numbered all left c.tables _ p q
                (count_rows-Reads all left c.tables c2 same2)
