-- ===== src/Payouts/Audit/Totals.antt =====
-- pkg/payouts/audit.go: every payout group is counted once.
use crypto_batch_payment.Base.{
  str_eq, ℕ, ◌+◌, String, true, false, ◌==◌, ◌≡◌, ◌∙◌, refl, sym, ap, is_some, if◌then◌else◌,
  Option, none, some, List, [], ◌∷◌, map, filter, any, length, Result, ok, err, ◌>>=◌, subst, arith,
}
use crypto_batch_payment.Base.Rules.{bind_rule}
use crypto_batch_payment.Host.{Host}
use crypto_batch_payment.Payoutdb.{Tables, Conn}
use crypto_batch_payment.Payoutdb.Reads.{count_payout_by_group, all_transaction_by_group}
use crypto_batch_payment.Txstatus.{is_confirmed}
use crypto_batch_payment.Pipelinedb.{Payout, Transaction}
use crypto_batch_payment.Pipelinedb.Operations.{
  fetch_payout_group_payout_count, fetch_payout_group_transactions,
}
use crypto_batch_payment.Payouts.Audit.{
  emit, Auditor, AuditStats, Progress, lookup, by_confirmed, by_transactions, audit_group,
  audit_seen, audit_payouts,
}

-- The payouts that have been put in one of the eight classes.
abbrev pub classified : AuditStats → ℕ
classified s =
    s.confirmed_payouts + s.false_confirmed + s.overpaid + s.unstarted + s.pending_payouts
    + s.failed_payouts + s.dropped_payouts + s.unknown_payouts

abbrev pub keys : List (ℕ × String) → List ℕ
keys status = map (λ (k, h). k) status

abbrev pub payouts_of : Tables → ℕ → ℕ
payouts_of t id = length (filter (λ p. p.payout_group_id == id) t.payout)

pub any-keys :
    (id : ℕ) (status : List (ℕ × String))
    → any (λ k. k == id) (keys status) ≡ is_some (lookup id status)
any-keys id [] = refl
any-keys id ((k, h) ∷ rest) = ground (arith, any-keys id rest)

module _ {H : Host} where
  -- The sizes of the groups of the payouts, each group once, less those of `seen`.
  abbrev pub group_sizes : Tables → List ℕ → List (Payout H) → ℕ
  group_sizes t seen [] = 0
  group_sizes t seen (p ∷ ps) =
      if any (λ k. k == p.payout_group_id) seen
      then group_sizes t seen ps
      else payouts_of t p.payout_group_id + group_sizes t (p.payout_group_id ∷ seen) ps

  -- A group is looked at: it is put in one class, with all of its payouts.
  abbrev pub Counted : Tables → Payout H → Progress H → Result (Progress H) × Conn H → Type 0
  Counted t p st (err e, c) = Unit
  Counted t p st (ok st', c) =
      (c.tables ≡ t)
      × (keys st'.group_status ≡ p.payout_group_id ∷ keys st.group_status)
      × (classified st'.stats ≡ classified st.stats + payouts_of t p.payout_group_id)

module _ {H : Host} (A : Auditor H) where
  by_confirmed-Counted :
      (p : Payout H) (txs sure : List (Transaction H)) (st : Progress H) (c : Conn H)
      → Counted c.tables p st
          (by_confirmed A p (payouts_of c.tables p.payout_group_id) txs sure st c)
  by_confirmed-Counted p txs [] st c = ground arith
  by_confirmed-Counted p txs (x ∷ xs) st c = ground arith

  by_transactions-Counted :
      (p : Payout H) (st : Progress H) (txs : List (Transaction H)) (t : Tables) (n : ℕ)
      (c : Conn H)
      → c.tables ≡ t
      → n ≡ payouts_of t p.payout_group_id
      → Counted t p st (by_transactions A p n st txs c)
  by_transactions-Counted p st [] t n c same e = ground arith
  by_transactions-Counted p st (x ∷ xs) t n c same e =
      subst (λ m. Counted t p st (by_transactions A p m st (x ∷ xs) c)) (sym e)
        (subst
          (λ t'.
            Counted t' p st (by_transactions A p (payouts_of t' p.payout_group_id) st (x ∷ xs) c))
          same (by_confirmed-Counted p (x ∷ xs) (filter (λ y. is_confirmed y.state) (x ∷ xs)) st c))

  pub count_lem :
      (id n : ℕ) (c : Conn H)
      → (fetch_payout_group_payout_count H id c).0 ≡ ok n
      → (n ≡ payouts_of c.tables id)
        × ((fetch_payout_group_payout_count H id c).1.tables ≡ c.tables)
  unfolding fetch_payout_group_payout_count count_payout_by_group
  count_lem id n c h = ground arith

  pub transactions_frame :
      (id : ℕ) (c : Conn H) → (fetch_payout_group_transactions H id c).1.tables ≡ c.tables
  unfolding fetch_payout_group_transactions all_transaction_by_group
  transactions_frame id c = ground arith

  pub audit_group-Counted :
      (p : Payout H) (st : Progress H) (c : Conn H) → Counted c.tables p st (audit_group A p st c)
  audit_group-Counted p st c =
      bind_rule (Counted c.tables p st) (fetch_payout_group_payout_count H p.payout_group_id)
        (λ n. fetch_payout_group_transactions H p.payout_group_id >>= by_transactions A p n st) c
        (λ e h. tt)
        λ n h.
          bind_rule (Counted c.tables p st) (fetch_payout_group_transactions H p.payout_group_id)
            (by_transactions A p n st) c1 (λ e k. tt)
            λ txs k.
              by_transactions-Counted p st txs c.tables n _
                (transactions_frame p.payout_group_id c1 ∙ (count_lem p.payout_group_id n c h).1)
                (count_lem p.payout_group_id n c h).0
    where
      c1 : Conn H
      c1 = (fetch_payout_group_payout_count H p.payout_group_id c).1

  abbrev pub Classified :
      Tables → Progress H → List (Payout H) → Result (Progress H) × Conn H → Type 0
  Classified t st ps (err e, c) = Unit
  Classified t st ps (ok st', c) =
      classified st'.stats ≡ classified st.stats + group_sizes t (keys st.group_status) ps

  skip_rest :
      (t : Tables) (p : Payout H) (ps : List (Payout H)) (st st1 : Progress H)
      (r : Result (Progress H) × Conn H)
      → st1.group_status ≡ st.group_status
      → st1.stats ≡ st.stats
      → any (λ k. k == p.payout_group_id) (keys st.group_status) ≡ true
      → Classified t st1 ps r
      → Classified t st (p ∷ ps) r
  skip_rest t p ps st st1 (err x, c) g s known rest = tt
  skip_rest t p ps st st1 (ok st', c) g s known rest = rw known (
      rest
      ∙ ap (λ x. classified x + group_sizes t (keys st1.group_status) ps) s
      ∙ ap (λ x. classified st.stats + group_sizes t (keys x) ps) g)

  count_rest :
      (t t1 : Tables) (p : Payout H) (ps : List (Payout H)) (st st1 : Progress H)
      (r : Result (Progress H) × Conn H)
      → t1 ≡ t
      → keys st1.group_status ≡ p.payout_group_id ∷ keys st.group_status
      → classified st1.stats ≡ classified st.stats + payouts_of t p.payout_group_id
      → any (λ k. k == p.payout_group_id) (keys st.group_status) ≡ false
      → Classified t1 st1 ps r
      → Classified t st (p ∷ ps) r
  count_rest t t1 p ps st st1 (err x, c) same g s new rest = tt
  count_rest t t1 p ps st st1 (ok st', c) same g s new rest = rw new (
      omega (
        arith,
        s,
        rest
            ∙ ap (λ x. classified st1.stats + group_sizes x (keys st1.group_status) ps) same
            ∙ ap (λ x. classified st1.stats + group_sizes t x ps) g,
      ))

  audit_from :
      (p : Payout H) (ps : List (Payout H)) (st : Progress H) (c : Conn H) (seen : Option String)
      → lookup p.payout_group_id st.group_status ≡ seen
      → ((st' : Progress H) (c' : Conn H) → Classified c'.tables st' ps (audit_payouts A ps st' c'))
      → Classified c.tables st (p ∷ ps) ((audit_seen A p st seen >>= audit_payouts A ps) c)
  audit_from p ps st c (some h) e go =
      skip_rest c.tables p ps st st1 (audit_payouts A ps st1 c) (ground arith) (ground arith)
        (any-keys p.payout_group_id st.group_status ∙ ap is_some e) (go st1 c)
    where
      st1 : Progress H
      st1 = if str_eq h "" then st else emit A p h st
  audit_from p ps st c none e go =
      bind_rule (Classified c.tables st (p ∷ ps)) (audit_group A p st) (audit_payouts A ps) c
        (λ x h. tt)
        λ st1 h.
          let (same, g, s) =
            subst (λ r. Counted c.tables p st (r, c1)) h (audit_group-Counted p st c) in
          count_rest c.tables c1.tables p ps st st1 _ same g s
            (any-keys p.payout_group_id st.group_status ∙ ap is_some e) (go st1 c1)
    where
      c1 : Conn H
      c1 = (audit_group A p st c).1

  -- An audit of payouts that ends without an error has put, for each payout group that it has
  -- come to and had not been looked at before, all of its payouts in one class.
  pub audit_payouts-Classified :
      (ps : List (Payout H)) (st : Progress H) (c : Conn H)
      → Classified c.tables st ps (audit_payouts A ps st c)
  unfolding audit_payouts
  audit_payouts-Classified [] st c = omega arith
  audit_payouts-Classified (p ∷ ps) st c =
      audit_from p ps st c (lookup p.payout_group_id st.group_status) refl
        (λ st' c'. audit_payouts-Classified ps st' c')
