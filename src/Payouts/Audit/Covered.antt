-- ===== src/Payouts/Audit/Covered.antt =====
-- pkg/payouts/audit.go: the groups of the payouts of a database, each once, have all of its payouts.
use crypto_batch_payment.Base.{
  ℕ, ◌+◌, Bool, true, false, not, ◌&&◌, ◌==◌, ==_iff, any, ◌≡◌, ◌∙◌, refl, sym, ap, inl, inr,
  Bool-cases, List, [], ◌∷◌, length, filter, ok, arith,
}
use crypto_batch_payment.Host.{Host}
use crypto_batch_payment.Payoutdb.{PayoutRow, Tables}
use crypto_batch_payment.Pipelinedb.{Payout}
use crypto_batch_payment.Pipelinedb.Convert.{payout_from_row, payouts_from_rows}
use crypto_batch_payment.Pipelinedb.Stats.Balanced.{rows-length}
use crypto_batch_payment.Payouts.Audit.Totals.{payouts_of, group_sizes}

abbrev bit : Bool → ℕ
bit true = 1
bit false = 0

-- Two tests of which each row passes at most one, and together those of a third.
split_filter :
    (f g h : PayoutRow → Bool) (rows : List PayoutRow)
    → ((r : PayoutRow) → bit (f r) + bit (g r) ≡ bit (h r))
    → length (filter f rows) + length (filter g rows) ≡ length (filter h rows)
split_filter f g h [] e = omega arith
split_filter f g h (r ∷ rows) e = ground (arith, e r, split_filter f g h rows e)

same_filter :
    (f g : PayoutRow → Bool) (rows : List PayoutRow)
    → ((r : PayoutRow) → f r ≡ g r)
    → length (filter f rows) ≡ length (filter g rows)
same_filter f g [] e = refl
same_filter f g (r ∷ rows) e = ground (arith, e r, same_filter f g rows e)

no_filter :
    (f : PayoutRow → Bool) (rows : List PayoutRow)
    → ((r : PayoutRow) → f r ≡ false)
    → length (filter f rows) ≡ 0
no_filter f [] e = refl
no_filter f (r ∷ rows) e = ground (arith, e r, no_filter f rows e)

abbrev seen_id : ℕ → List ℕ → Bool
seen_id a seen = any (λ k. k == a) seen

seen_same : (a b : ℕ) (seen : List ℕ) → (a == b) ≡ true → seen_id a seen ≡ seen_id b seen
seen_same a b seen e = ap (λ x. seen_id x seen) ((==_iff a b).0 e)

module _ {H : Host} where
  abbrev has_group : ℕ → List (Payout H) → Bool
  has_group a ps = any (λ p. p.payout_group_id == a) ps

  -- A row of a group that a payout of `ps` has, and that has not been seen.
  abbrev needed : List ℕ → List (Payout H) → PayoutRow → Bool
  needed seen ps r = not (seen_id r.payout_group_id seen) && has_group r.payout_group_id ps

  skipped :
      (p : Payout H) (ps : List (Payout H)) (seen : List ℕ) (r : PayoutRow)
      → seen_id p.payout_group_id seen ≡ true
      → needed seen ps r ≡ needed seen (p ∷ ps) r
  skipped p ps seen r known = ground (arith, seen_same p.payout_group_id r.payout_group_id seen)

  counted :
      (p : Payout H) (ps : List (Payout H)) (seen : List ℕ) (r : PayoutRow)
      → seen_id p.payout_group_id seen ≡ false
      → bit (r.payout_group_id == p.payout_group_id) + bit (needed (p.payout_group_id ∷ seen) ps r)
        ≡ bit (needed seen (p ∷ ps) r)
  counted p ps seen r new = ground (arith, seen_same p.payout_group_id r.payout_group_id seen)

  group_sizes_lem :
      (t : Tables) (seen : List ℕ) (ps : List (Payout H))
      → group_sizes t seen ps ≡ length (filter (needed seen ps) t.payout)
  group_sizes_lem t seen [] = sym (no_filter (needed seen []) t.payout λ r. ground arith)
  group_sizes_lem t seen (p ∷ ps) = elim (Bool-cases (seen_id p.payout_group_id seen)) [
    | inl known ↦ rw known (
        group_sizes_lem t seen ps
        ∙ same_filter (needed seen ps) (needed seen (p ∷ ps)) t.payout
            λ r. skipped p ps seen r known)
    | inr new ↦ rw new (
        ap (λ n. payouts_of t p.payout_group_id + n)
          (group_sizes_lem t (p.payout_group_id ∷ seen) ps)
        ∙ split_filter (λ r. r.payout_group_id == p.payout_group_id)
            (needed (p.payout_group_id ∷ seen) ps) (needed seen (p ∷ ps)) t.payout
            λ r. counted p ps seen r new)
  ]

  group_of_row :
      (row : PayoutRow) (p : Payout H)
      → payout_from_row H row ≡ ok p
      → p.payout_group_id ≡ row.payout_group_id
  unfolding payout_from_row
  group_of_row row p e = ground arith

  first_read :
      (row : PayoutRow) (rows : List PayoutRow) (p : Payout H) (ps : List (Payout H))
      → payouts_from_rows H (row ∷ rows) ≡ ok (p ∷ ps)
      → (payout_from_row H row ≡ ok p) × (payouts_from_rows H rows ≡ ok ps)
  first_read row rows p ps e = ground arith

  all_needed :
      (rows : List PayoutRow) (ps db : List (Payout H))
      → payouts_from_rows H rows ≡ ok ps
      → ((a : ℕ) → has_group a ps ≡ true → has_group a db ≡ true)
      → length (filter (needed [] db) rows) ≡ length rows
  all_needed [] ps db e incl = refl
  all_needed (row ∷ rows) [] db e incl = ground arith
  all_needed (row ∷ rows) (p ∷ ps) db e incl =
      let (read, rest) = first_read row rows p ps e in
      ground (
        arith,
        group_of_row row p read,
        incl row.payout_group_id,
        all_needed rows ps db rest (λ a h. incl a (ground arith)),
      )

  -- The sizes of the groups of all payouts of a database add up to the number of its payouts.
  pub group_sizes-all :
      (t : Tables) (db : List (Payout H))
      → payouts_from_rows H t.payout ≡ ok db
      → group_sizes t [] db ≡ length db
  group_sizes-all t db e =
      group_sizes_lem t [] db
      ∙ all_needed t.payout db db e (λ a h. h)
      ∙ sym (rows-length t.payout db e)
