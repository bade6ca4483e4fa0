-- ===== src/Payouts/Audit/Classing.antt =====
-- pkg/payouts/audit.go: the class of a payout group, by its transactions and what the chain confirms.
use crypto_batch_payment.Base.{
  ℕ, ◌+◌, ◌<◌, true, false, not, ◌≡◌, ◌∙◌, refl, sym, ap, Bool-cases, inl, inr, zero, suc, List, [],
  ◌∷◌, filter, any, All, Result, ok, err, subst, arith,
}
use crypto_batch_payment.Host.{Host}
use crypto_batch_payment.Payoutdb.{Conn}
use crypto_batch_payment.Txstatus.{is_confirmed, is_dropped}
use crypto_batch_payment.Pipelinedb.{Payout, Transaction}
use crypto_batch_payment.Pipeline.Send.{is_empty}
use crypto_batch_payment.Payouts.Audit.{
  is_pending, is_failed, Auditor, AuditStats, Progress, confirmed_count, by_confirmed,
  close_confirmed, by_transactions,
}

pub data Class : Type 0 where
  paid_once falsely_confirmed paid_twice not_started waiting has_failed all_dropped : Class

-- The payouts of a group are added to those of its class.
abbrev pub count : Class → ℕ → AuditStats → AuditStats
count paid_once n s = record s { confirmed_payouts = s.confirmed_payouts + n }
count falsely_confirmed n s = record s { false_confirmed = s.false_confirmed + n }
count paid_twice n s = record s { overpaid = s.overpaid + n }
count not_started n s = record s { unstarted = s.unstarted + n }
count waiting n s = record s { pending_payouts = s.pending_payouts + n }
count has_failed n s = record s { failed_payouts = s.failed_payouts + n }
count all_dropped n s = record s { dropped_payouts = s.dropped_payouts + n }

module _ {H : Host} where
  -- What the class of a group says of its transactions, and of how many the chain confirms.
  abbrev pub InClass : Class → List (Transaction H) → ℕ → Type 0
  InClass paid_once txs k = (any (λ x. is_confirmed x.state) txs ≡ true) × (k ≡ 1)
  InClass falsely_confirmed txs k = (any (λ x. is_confirmed x.state) txs ≡ true) × (k ≡ 0)
  InClass paid_twice txs k = (any (λ x. is_confirmed x.state) txs ≡ true) × (1 < k)
  InClass not_started txs k = txs ≡ []
  InClass waiting txs k =
      (any (λ x. is_confirmed x.state) txs ≡ false) × (any (λ x. is_pending x.state) txs ≡ true)
  InClass has_failed txs k =
      (any (λ x. is_confirmed x.state) txs ≡ false)
      × (any (λ x. is_pending x.state) txs ≡ false)
      × (any (λ x. is_failed x.state) txs ≡ true)
  InClass all_dropped txs k = (is_empty txs ≡ false) × All (λ x. is_dropped x.state ≡ true) txs

  abbrev pub sure : List (Transaction H) → List (Transaction H)
  sure txs = filter (λ x. is_confirmed x.state) txs

  sure-any :
      (txs : List (Transaction H)) → any (λ x. is_confirmed x.state) txs ≡ not (is_empty (sure txs))
  sure-any [] = refl
  sure-any (x ∷ txs) = ground (arith, sure-any txs)

  only_dropped :
      (txs : List (Transaction H))
      → any (λ x. is_confirmed x.state) txs ≡ false
      → any (λ x. is_pending x.state) txs ≡ false
      → any (λ x. is_failed x.state) txs ≡ false
      → All (λ x. is_dropped x.state ≡ true) txs
  only_dropped [] c p f = tt
  only_dropped (x ∷ txs) c p f = ground (arith, only_dropped txs)

module _ {H : Host} (A : Auditor H) where
  -- How a group is classed, by its transactions, in the world after the two statements.
  abbrev pub Into :
      ℕ → List (Transaction H) → Progress H → Conn H → Result (Progress H) × Conn H → Type 0
  Into n txs st c (err e, c') = Unit
  Into n txs st c (ok st', c') =
      (cl : Class) × InClass cl txs (confirmed_count A (sure txs) c.world).0
      × (st'.stats ≡ count cl n st.stats)
      × (c' ≡ record c { world = (confirmed_count A (sure txs) c.world).1 })

  no_confirmed :
      (p : Payout H) (n : ℕ) (x : Transaction H) (xs : List (Transaction H)) (st : Progress H)
      (c : Conn H)
      → sure (x ∷ xs) ≡ []
      → Into n (x ∷ xs) st c (by_confirmed A p n (x ∷ xs) [] st c)
  unfolding confirmed_count
  no_confirmed p n x xs st c none_sure =
      elim (Bool-cases (any (λ y. is_pending y.state) (x ∷ xs))) [
        | inl waits ↦ (waiting, (quiet, waits), rw waits refl, rw none_sure refl)
        | inr idle ↦ elim (Bool-cases (any (λ y. is_failed y.state) (x ∷ xs))) [
          | inl fails ↦ (has_failed, (quiet, idle, fails), rw (idle, fails) refl, rw none_sure refl)
          | inr no_failure ↦
              let gone = only_dropped (x ∷ xs) quiet idle no_failure in
              (all_dropped, (refl, gone), rw (idle, no_failure, gone.0) refl, rw none_sure refl)
        ]
      ]
    where
      quiet : any (λ y. is_confirmed y.state) (x ∷ xs) ≡ false
      quiet = sure-any (x ∷ xs) ∙ ap (λ ys. not (is_empty ys)) none_sure

  some_confirmed :
      (p : Payout H) (n : ℕ) (txs : List (Transaction H)) (x : Transaction H)
      (xs : List (Transaction H)) (st : Progress H) (c : Conn H)
      → sure txs ≡ x ∷ xs
      → Into n txs st c (by_confirmed A p n txs (x ∷ xs) st c)
  some_confirmed p n txs x xs st c some_sure =
      subst
        (λ ys.
          (cl : Class) × InClass cl txs (confirmed_count A ys c.world).0
          × ((close_confirmed A p n x.hash (confirmed_count A (x ∷ xs) c.world).0 st).stats
              ≡ count cl n st.stats)
          × (record c { world = (confirmed_count A (x ∷ xs) c.world).1 }
              ≡ record c { world = (confirmed_count A ys c.world).1 }))
        (sym some_sure) (by_number (confirmed_count A (x ∷ xs) c.world).0)
    where
      found : any (λ y. is_confirmed y.state) txs ≡ true
      found = sure-any txs ∙ ap (λ ys. not (is_empty ys)) some_sure

      w : H.World
      w = (confirmed_count A (x ∷ xs) c.world).1

      by_number :
          (k : ℕ)
          → (cl : Class) × InClass cl txs k
            × ((close_confirmed A p n x.hash k st).stats ≡ count cl n st.stats)
            × (record c { world = w } ≡ record c { world = w })
      by_number zero = (falsely_confirmed, (found, refl), refl, refl)
      by_number (suc zero) = (paid_once, (found, refl), refl, refl)
      by_number (suc (suc k)) = (paid_twice, (found, omega arith), ground arith, refl)

  pub by_transactions-Into :
      (p : Payout H) (n : ℕ) (st : Progress H) (txs : List (Transaction H)) (c : Conn H)
      → Into n txs st c (by_transactions A p n st txs c)
  unfolding confirmed_count
  by_transactions-Into p n st [] c = (not_started, refl, refl, refl)
  by_transactions-Into p n st (x ∷ xs) c = go (sure (x ∷ xs)) refl
    where
      go :
          (ys : List (Transaction H))
          → sure (x ∷ xs) ≡ ys
          → Into n (x ∷ xs) st c (by_confirmed A p n (x ∷ xs) ys st c)
      go [] e = no_confirmed p n x xs st c e
      go (y ∷ ys) e = some_confirmed p n (x ∷ xs) y ys st c e
