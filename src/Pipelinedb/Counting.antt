-- ===== src/Pipelinedb/Counting.antt =====
-- pkg/pipelinedb/db.go: the count of the open payout groups and the first of them.
use crypto_batch_payment.Base.{
  ℕ, Bool, ltb, is_some, ◌≡◌, ◌∙◌, refl, inl, inr, Option, Option-cases, List, [], ◌∷◌, find,
  filter, length, ok, subst, arith,
}
use crypto_batch_payment.Host.{Host}
use crypto_batch_payment.Payoutdb.{PayoutGroupRow, Tables, Conn}
use crypto_batch_payment.Payoutdb.Rows.{is_unfinished_unattached}
use crypto_batch_payment.Payoutdb.Reads.{first_unfinished_unattached, count_unfinished_unattached}
use crypto_batch_payment.Pipelinedb.{PayoutGroup}
use crypto_batch_payment.Pipelinedb.Convert.{payout_group_from_row}
use crypto_batch_payment.Pipelinedb.Operations.{
  fetch_first_open_payout_group, count_open_payout_groups,
}

filter-find :
    (p : PayoutGroupRow → Bool) (xs : List PayoutGroupRow)
    → is_some (find p xs) ≡ ltb 0 (length (filter p xs))
filter-find p [] = refl
filter-find p (x ∷ xs) = ground (arith, filter-find p xs)

abbrev open_rows : Tables → List PayoutGroupRow
open_rows t = filter (is_unfinished_unattached t) t.payout_group

module _ {H : Host} where
  first_open-found :
      (c : Conn H) (found : Option PayoutGroup)
      → (fetch_first_open_payout_group H c).0 ≡ ok found
      → is_some found ≡ is_some (find (is_unfinished_unattached c.tables) c.tables.payout_group)
  unfolding fetch_first_open_payout_group payout_group_from_row first_unfinished_unattached
  first_open-found c found h =
      elim (Option-cases (find (is_unfinished_unattached c.tables) c.tables.payout_group)) [
        | inl nothing ↦ ground arith
        | inr (x, e) ↦ ground arith
      ]

  -- On the same tables, there is a first open payout group just if the count of them is not zero.
  pub fetch_first_open-count_open :
      (c c' : Conn H) (found : Option PayoutGroup) (n : ℕ)
      → c'.tables ≡ c.tables
      → (fetch_first_open_payout_group H c).0 ≡ ok found
      → (count_open_payout_groups H c').0 ≡ ok n
      → is_some found ≡ ltb 0 n
  unfolding count_open_payout_groups count_unfinished_unattached
  fetch_first_open-count_open c c' found n same h counted =
      first_open-found c found h
      ∙ filter-find (is_unfinished_unattached c.tables) c.tables.payout_group
      ∙ subst (λ t. ltb 0 (length (open_rows t)) ≡ ltb 0 n) same (ground arith)
