-- ===== src/Pipelinedb/Imported.antt =====
-- pkg/pipelinedb/db.go: CreatePayoutGroup.
use crypto_batch_payment.Base.{
  ℕ, String, false, ◌≡◌, ◌∙◌, refl, sym, ap, List, [], ◌∷◌, ◌++◌, append_assoc, append-nil, map,
  Result, ok, err, Action, ◌>>◌, subst, arith,
}
use crypto_batch_payment.Base.Rules.{bind_rule}
use crypto_batch_payment.Host.{Host}
use crypto_batch_payment.Payoutdb.{PayoutGroupRow, PayoutRow, Tables, Conn, hooks_now}
use crypto_batch_payment.Payoutdb.Rows.{
  group_known, new_group_row, insert_payout_group, insert_payout, new_payout_row,
}
use crypto_batch_payment.Payoutdb.Writes.{create_no_return_payout_group, create_no_return_payout}
use crypto_batch_payment.Payoutdb.Atomic.{with_tx_atomic, with_tx_done}
use crypto_batch_payment.Pipelinedb.{Payout}
use crypto_batch_payment.Pipelinedb.Frame.{time_of}
use crypto_batch_payment.Pipelinedb.Operations.{create_payouts, create_payout_group}

-- The columns of a payout that the program gives.
abbrev pub Columns : Type 0
Columns = ℕ × String × String × ℕ

abbrev pub columns : PayoutRow → Columns
columns r = (r.csv_line, r.payee, r.usd, r.payout_group_id)

map-snoc :
    {A B : Type 0} (f : A → B) (xs : List A) (x : A) → map f (xs ++ x ∷ []) ≡ map f xs ++ f x ∷ []
map-snoc f [] x = refl
map-snoc f (y ∷ xs) x = ap (λ ys. f y ∷ ys) (map-snoc f xs x)

module _ {H : Host} where
  abbrev pub columns_of : ℕ → Payout H → Columns
  columns_of id p = (p.csv_line, H.address_string p.payee, H.decimal_string p.usd, id)

  -- What has been appended to the payouts, where nothing has failed.
  abbrev Appends : List Columns → List PayoutGroupRow → Result (Unit {0}) × Conn H → Type 0
  Appends cs groups (ok u, c) =
      (map columns c.tables.payout ≡ cs) × (c.tables.payout_group ≡ groups)
  Appends cs groups (err e, c) = Unit

  abbrev create_one : ℕ → Payout H → Action (Conn H) (Unit {0})
  create_one id p =
      create_no_return_payout p.csv_line (H.address_string p.payee) (H.decimal_string p.usd) id

  create_one-Appends :
      (id : ℕ) (p : Payout H) (c : Conn H)
      → Appends
          (map columns c.tables.payout ++ columns_of id p ∷ [])
          c.tables.payout_group
          (create_one id p c)
  unfolding create_no_return_payout hooks_now insert_payout
  create_one-Appends id p c = ground (
    arith,
    map-snoc columns c.tables.payout (
        new_payout_row (time_of c) p.csv_line (H.address_string p.payee) (H.decimal_string p.usd) id
          c.tables),
  )

  create_payouts-Appends :
      (id : ℕ) (ps : List (Payout H)) (c : Conn H)
      → Appends
          (map columns c.tables.payout ++ map (columns_of id) ps)
          c.tables.payout_group
          (create_payouts H id ps c)
  unfolding create_payouts
  create_payouts-Appends id [] c = (sym (append-nil _), refl)
  create_payouts-Appends id (p ∷ ps) c =
      bind_rule
        (Appends (map columns c.tables.payout ++ map (columns_of id) (p ∷ ps))
          c.tables.payout_group)
        (create_one id p) (λ _. create_payouts H id ps) c (λ e h. tt)
        λ u h.
          let (cs, groups) =
            subst
              (λ r.
                Appends (map columns c.tables.payout ++ columns_of id p ∷ []) c.tables.payout_group
                  (r, c1))
              h (create_one-Appends id p c) in
          subst (λ xs. Appends xs c.tables.payout_group (create_payouts H id ps c1))
            (ap (λ xs. xs ++ map (columns_of id) ps) cs
              ∙ append_assoc (map columns c.tables.payout) (columns_of id p ∷ [])
                  (map (columns_of id) ps))
            (subst
              (λ gs.
                Appends (map columns c1.tables.payout ++ map (columns_of id) ps) gs
                  (create_payouts H id ps c1))
              groups (create_payouts-Appends id ps c1))
    where
      c1 : Conn H
      c1 = (create_one id p c).1

  -- All of the group and its payouts, in order; or nothing.
  abbrev pub Complete : ℕ → List (Payout H) → Tables → Tables → Type 0
  Complete id ps t t' =
      (map columns t'.payout ≡ map columns t.payout ++ map (columns_of id) ps)
      × (map (λ g. g.id) t'.payout_group ≡ map (λ g. g.id) t.payout_group ++ id ∷ [])
      × (group_known id t ≡ false)

  abbrev pub Imported : ℕ → List (Payout H) → Tables → Result (Unit {0}) × Conn H → Type 0
  Imported id ps t (ok u, c) = Complete id ps t c.tables
  Imported id ps t (err e, c) = c.tables ≡ t

  abbrev GroupMade : ℕ → Tables → Result (Unit {0}) × Conn H → Type 0
  GroupMade id t (ok u, c) =
      (c.tables.payout ≡ t.payout)
      × (map (λ g. g.id) c.tables.payout_group ≡ map (λ g. g.id) t.payout_group ++ id ∷ [])
      × (group_known id t ≡ false)
  GroupMade id t (err e, c) = Unit

  create_group-GroupMade :
      (id : ℕ) (c : Conn H) → GroupMade id c.tables (create_no_return_payout_group id c)
  unfolding create_no_return_payout_group hooks_now insert_payout_group
  create_group-GroupMade id c =
      ground
        (arith, map-snoc (λ g. g.id) c.tables.payout_group (new_group_row (time_of c) id c.tables))

  abbrev Filled : ℕ → List (Payout H) → Tables → Result (Unit {0}) × Conn H → Type 0
  Filled id ps t (ok u, c) = Imported id ps t (ok u, c)
  Filled id ps t (err e, c) = Unit

  group_with_payouts :
      (id : ℕ) (ps : List (Payout H)) (t : Tables) (c1 : Conn H) (r : Result (Unit {0}))
      (c2 : Conn H)
      → GroupMade id t (ok tt, c1)
      → Appends
          (map columns c1.tables.payout ++ map (columns_of id) ps)
          c1.tables.payout_group
          (r, c2)
      → Filled id ps t (r, c2)
  group_with_payouts id ps t c1 (err e) c2 made appended = tt
  group_with_payouts id ps t c1 (ok u) c2 (payouts, ids, fresh) (cs, groups) = (
    cs ∙ ap (λ xs. map columns xs ++ map (columns_of id) ps) payouts,
    ap (map (λ g. g.id)) groups ∙ ids,
    fresh,
  )

  group_and_payouts-Filled :
      (id : ℕ) (ps : List (Payout H)) (c : Conn H)
      → Filled id ps c.tables ((create_no_return_payout_group id >> create_payouts H id ps) c)
  group_and_payouts-Filled id ps c =
      bind_rule (Filled id ps c.tables) (create_no_return_payout_group id)
        (λ _. create_payouts H id ps) c (λ e h. tt)
        λ u h.
          group_with_payouts id ps c.tables c1 _ _
            (subst (λ r. GroupMade id c.tables (r, c1)) h (create_group-GroupMade id c))
            (create_payouts-Appends id ps c1)
    where
      c1 : Conn H
      c1 = (create_no_return_payout_group id c).1

  import_result :
      (id : ℕ) (ps : List (Payout H)) (c : Conn H) (r : Result (Unit {0}))
      → (create_payout_group H id ps c).0 ≡ r
      → Imported id ps c.tables (r, (create_payout_group H id ps c).1)
  unfolding create_payout_group
  import_result id ps c (err e) h = with_tx_atomic _ c h
  import_result id ps c (ok u) h =
      let (ran, same) =
        with_tx_done (create_no_return_payout_group id >> create_payouts H id ps) c h in
      subst (Complete id ps c.tables) (sym same)
        (subst (λ r. Filled id ps c.tables (r, filled)) ran (group_and_payouts-Filled id ps begun))
    where
      begun : Conn H
      begun = record c { world = (H.statement_fault c.world).1 }

      filled : Conn H
      filled = ((create_no_return_payout_group id >> create_payouts H id ps) begun).1

  -- A group that is created has the payouts that it is created with, in order, after those that
  -- were there, and its id is new; one that cannot be created leaves the tables as they were.
  pub create_payout_group-Imported :
      (id : ℕ) (ps : List (Payout H)) (c : Conn H)
      → Imported id ps c.tables (create_payout_group H id ps c)
  create_payout_group-Imported id ps c = import_result id ps c _ refl
