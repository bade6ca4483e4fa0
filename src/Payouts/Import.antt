-- ===== src/Payouts/Import.antt =====
-- pkg/payouts/import.go: what createPayoutGroups leaves in the database.
use crypto_batch_payment.Base.{
  ℕ, suc, not, ◌≡◌, ◌∙◌, refl, sym, ap, List, [], ◌∷◌, ◌++◌, append_assoc, append-nil, map, is_err,
  Result, subst,
}
use crypto_batch_payment.Base.Rules.{bind_rule}
use crypto_batch_payment.Host.{Host}
use crypto_batch_payment.Payoutdb.{Tables, Conn}
use crypto_batch_payment.Pipelinedb.{Payout}
use crypto_batch_payment.Pipelinedb.Operations.{create_payout_group}
use crypto_batch_payment.Pipelinedb.Imported.{
  Columns, columns, columns_of, Complete, Imported, create_payout_group-Imported,
}
use crypto_batch_payment.Pipeline.Send.{is_empty}
use crypto_batch_payment.Payouts.{create_payout_groups}

abbrev pub ids : Tables → List ℕ
ids t = map (λ g. g.id) t.payout_group

module _ {H : Host} where
  -- Payouts with the groups that are numbered after `i`, and these numbers.
  abbrev pub numbered : ℕ → List (Payout H) → List Columns
  numbered i [] = []
  numbered i (p ∷ ps) = columns_of (suc i) p ∷ numbered (suc i) ps

  abbrev pub numbers : ℕ → List (Payout H) → List ℕ
  numbers i [] = []
  numbers i (p ∷ ps) = suc i ∷ numbers (suc i) ps

  -- The first payouts have their groups, and the others have none.
  abbrev pub Numbered : ℕ → List (Payout H) → Tables → Result (Unit {0}) × Conn H → Type 0
  Numbered i ps t (r, c) =
      (first : List (Payout H)) × (rest : List (Payout H)) × (ps ≡ first ++ rest)
      × (map columns c.tables.payout ≡ map columns t.payout ++ numbered i first)
      × (ids c.tables ≡ ids t ++ numbers i first)
      × (is_err r ≡ not (is_empty rest))

  next-Numbered :
      (i : ℕ) (p : Payout H) (ps : List (Payout H)) (t t1 : Tables) (r : Result (Unit {0}))
      (c : Conn H)
      → Complete (suc i) (p ∷ []) t t1
      → Numbered (suc i) ps t1 (r, c)
      → Numbered i (p ∷ ps) t (r, c)
  next-Numbered i p ps t t1 r c (cs, gs, _) (first, rest, e, cs', gs', fails) = (
    p ∷ first,
    rest,
    ap (λ qs. p ∷ qs) e,
    cs'
        ∙ ap (λ xs. xs ++ numbered (suc i) first) cs
        ∙ append_assoc (map columns t.payout) (columns_of (suc i) p ∷ []) (numbered (suc i) first),
    gs'
        ∙ ap (λ xs. xs ++ numbers (suc i) first) gs
        ∙ append_assoc (ids t) (suc i ∷ []) (numbers (suc i) first),
    fails,
  )

  -- However far it gets: the payouts that have been taken, a first part of them, have each its own
  -- group, in order and with consecutive numbers; these are all of them just if there is no error.
  pub create_payout_groups-Numbered :
      (i : ℕ) (ps : List (Payout H)) (c : Conn H)
      → Numbered i ps c.tables (create_payout_groups H i ps c)
  unfolding create_payout_groups
  create_payout_groups-Numbered i [] c =
      ([], [], refl, sym (append-nil _), sym (append-nil _), refl)
  create_payout_groups-Numbered i (p ∷ ps) c =
      bind_rule (Numbered i (p ∷ ps) c.tables) (create_payout_group H (suc i) (p ∷ []))
        (λ _. create_payout_groups H (suc i) ps) c
        (λ e h.
          let same = subst (λ r. Imported (suc i) (p ∷ []) c.tables (r, c1)) h imported in
          (
            [],
            p ∷ ps,
            refl,
            ap (λ t. map columns t.payout) same ∙ sym (append-nil _),
            ap (λ t. ids t) same ∙ sym (append-nil _),
            refl,
          ))
        λ u h.
          next-Numbered i p ps c.tables c1.tables _ (create_payout_groups H (suc i) ps c1).1
            (subst (λ r. Imported (suc i) (p ∷ []) c.tables (r, c1)) h imported)
            (create_payout_groups-Numbered (suc i) ps c1)
    where
      c1 : Conn H
      c1 = (create_payout_group H (suc i) (p ∷ []) c).1

      imported : Imported (suc i) (p ∷ []) c.tables (create_payout_group H (suc i) (p ∷ []) c)
      imported = create_payout_group-Imported (suc i) (p ∷ []) c
