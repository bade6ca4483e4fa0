-- ===== src/Pipelinedb/Stats/Balanced.antt =====
-- pkg/pipelinedb/db.go: the numbers of Stats agree with the rows and with one another.
use crypto_batch_payment.Base.{
  ℕ, suc, ◌+◌, ◌≤◌, String, Bool, true, false, ◌||◌, ◌==◌, str_eq, eq_iff, any, ◌≡◌, ◌⊎◌, inl, inr,
  Bool-cases, ==_iff, ◌∙◌, refl, sym, ap, is_some, List, [], ◌∷◌, length, filter, All, ok, subst,
  arith,
}
use crypto_batch_payment.Host.{Host}
use crypto_batch_payment.Txstatus.{tx_state_from_string}
use crypto_batch_payment.Payoutdb.{TransactionRow, PayoutRow, Tables, Conn}
use crypto_batch_payment.Payoutdb.Rows.{is_unfinished}
use crypto_batch_payment.Payoutdb.Reads.{of_unfinished_group}
use crypto_batch_payment.Pipelinedb.{Payout}
use crypto_batch_payment.Pipelinedb.Convert.{payouts_from_rows}
use crypto_batch_payment.Pipelinedb.Stats.{DbStats, add_payee, payees_of, db_stats}
use crypto_batch_payment.Pipelinedb.Stats.Numbered.{Numbered, db_stats-Numbered}

filter-length : {A : Type 0} (p : A → Bool) (xs : List A) → length (filter p xs) ≤ length xs
filter-length p [] = omega arith
filter-length p (x ∷ xs) = ground (arith, filter-length p xs)

abbrev pub HasState : TransactionRow → Type 0
HasState x = is_some (tx_state_from_string x.state) ≡ true

abbrev in_state : String → List TransactionRow → ℕ
in_state text xs = length (filter (λ x. str_eq x.state text) xs)

one_state :
    (text : String)
    → is_some (tx_state_from_string text) ≡ true
    → (text ≡ "pending") ⊎ (text ≡ "failed") ⊎ (text ≡ "confirmed") ⊎ (text ≡ "dropped")
unfolding tx_state_from_string
one_state text h = ground (
  arith,
  eq_iff text "pending",
  eq_iff text "dropped",
  eq_iff text "failed",
  eq_iff text "confirmed",
)

states_sum :
    (xs : List TransactionRow)
    → All HasState xs
    → in_state "pending" xs + in_state "failed" xs + in_state "confirmed" xs + in_state "dropped" xs
      ≡ length xs
states_sum [] h = refl
states_sum (x ∷ xs) (known, h) = elim (one_state x.state known) [
  | inl e ↦ rw e (omega (arith, states_sum xs h))
  | inr (inl e) ↦ rw e (omega (arith, states_sum xs h))
  | inr (inr (inl e)) ↦ rw e (omega (arith, states_sum xs h))
  | inr (inr (inr e)) ↦ rw e (omega (arith, states_sum xs h))
]

module _ {H : Host} where
  pub rows-length :
      (rows : List PayoutRow) (ps : List (Payout H))
      → payouts_from_rows H rows ≡ ok ps
      → length ps ≡ length rows
  rows-length [] [] e = refl
  rows-length [] (p ∷ ps) e = ground arith
  rows-length (r ∷ rows) [] e = ground arith
  rows-length (r ∷ rows) (p ∷ ps) e = ap suc (rows-length rows ps (ground arith))

abbrev pub holds : ℕ → List ℕ → Bool
holds a names = any (λ b. b == a) names

-- No address stands twice.
abbrev pub NoTwice : List ℕ → Type 0
NoTwice [] = Unit
NoTwice (a ∷ names) = (holds a names ≡ false) × NoTwice names

holds_added : (a q : ℕ) (names : List ℕ) → holds a (add_payee q names) ≡ (q == a || holds a names)
holds_added a q names = elim (Bool-cases (holds q names)) [
  | inr new ↦ ground arith
  | inl known ↦ elim (Bool-cases (q == a)) [
    | inr other ↦ ground arith
    | inl same ↦
        ground (arith, known, same, subst (λ b. holds b names ≡ true) ((==_iff q a).0 same) known)
  ]
]

module _ {H : Host} where
  abbrev pub pays : ℕ → List (Payout H) → Bool
  pays a ps = any (λ p. p.payee == a) ps

  payees-NoTwice :
      (ps : List (Payout H)) (seen : List ℕ) → NoTwice seen → NoTwice (payees_of H ps seen)
  unfolding payees_of
  payees-NoTwice [] seen h = h
  payees-NoTwice (p ∷ ps) seen h = payees-NoTwice ps (add_payee p.payee seen) (ground arith)

  payees_hold :
      (ps : List (Payout H)) (seen : List ℕ) (a : ℕ)
      → holds a (payees_of H ps seen) ≡ (holds a seen || pays a ps)
  unfolding payees_of
  payees_hold [] seen a = ground arith
  payees_hold (p ∷ ps) seen a =
      payees_hold ps (add_payee p.payee seen) a ∙ ground (arith, holds_added a p.payee seen)

  payees_bound :
      (ps : List (Payout H)) (seen : List ℕ)
      → length (payees_of H ps seen) ≤ length seen + length ps
  unfolding payees_of
  payees_bound [] seen = omega arith
  payees_bound (p ∷ ps) seen = ground (arith, payees_bound ps (add_payee p.payee seen))

  -- The addresses of the payees, each once.
  abbrev Payees : List (Payout H) → ℕ → Type 0
  Payees ps n =
      (names : List ℕ) × (length names ≡ n) × NoTwice names × ((a : ℕ) → holds a names ≡ pays a ps)

  -- What the numbers of a database say.
  abbrev pub Balanced : Tables → DbStats H → Type 0
  Balanced t s =
      (s.total_payouts ≡ length t.payout)
      × (s.pending_payouts ≤ s.total_payouts)
      × (s.pending_payout_groups ≤ s.total_payout_groups)
      × (s.pending_transactions + s.failed_transactions + s.confirmed_transactions
            + s.dropped_transactions
          ≡ s.total_transactions)
      × (s.payees ≤ s.total_payouts)
      × ((all : List (Payout H)) × (payouts_from_rows H t.payout ≡ ok all) × Payees all s.payees)

  balance :
      (t : Tables) (s : DbStats H) (c' : Conn H)
      → All HasState t.tx
      → Numbered H t (ok s, c')
      → Balanced t s
  balance t s c' states (all, left, p, q, e, _) = subst (Balanced t) (sym e) (
    rows-length t.payout all p,
    omega (
      arith,
      rows-length t.payout all p,
      rows-length (filter (of_unfinished_group t) t.payout) left q,
      filter-length (of_unfinished_group t) t.payout,
    ),
    filter-length is_unfinished t.payout_group,
    states_sum t.tx states,
    omega (arith, payees_bound all []),
    (all, p, (payees_of H all [], refl, payees-NoTwice all [] tt, λ a. payees_hold all [] a)),
  )

  -- Where each transaction has one of the four states, the transactions of the four states add up
  -- to all of them, no more payouts and groups are pending than there are, and the payees are the
  -- different addresses of the payouts.
  pub db_stats-Balanced :
      (c : Conn H) (s : DbStats H)
      → All HasState c.tables.tx
      → (db_stats H c).0 ≡ ok s
      → Balanced c.tables s
  db_stats-Balanced c s states h =
      balance c.tables s (db_stats H c).1 states
        (subst (λ r. Numbered H c.tables (r, (db_stats H c).1)) h (db_stats-Numbered H c))
