-- ===== src/Payouts/Ready.antt =====
-- pkg/payouts/import.go and pkg/pipeline/pipeline.go: a run may begin with what createPayoutGroups
-- leaves.
use crypto_batch_payment.Base.{
  ℕ, suc, ◌≤◌, ◌<◌, false, ◌==◌, any, String, ◌≡◌, ◌∙◌, refl, sym, map, All, List, [], ◌∷◌, ◌++◌,
  Action, ◌>>◌, subst, arith,
}
use crypto_batch_payment.Base.Rules.{bind_rule}
use crypto_batch_payment.Host.{Host}
use crypto_batch_payment.Payoutdb.{
  PayoutGroupRow, TransactionRow, Conn, hooks_now, with_tx, next_pk,
}
use crypto_batch_payment.Payoutdb.Rows.{new_group_row, insert_payout_group, insert_payout}
use crypto_batch_payment.Payoutdb.Writes.{create_no_return_payout_group, create_no_return_payout}
use crypto_batch_payment.Payoutdb.Keys.{UniquePks}
use crypto_batch_payment.Pipelinedb.{Payout}
use crypto_batch_payment.Pipelinedb.Frame.{time_of}
use crypto_batch_payment.Pipelinedb.Operations.{create_payouts, create_payout_group}
use crypto_batch_payment.Payouts.{create_payout_groups}
use crypto_batch_payment.Payer.{Payer, IsSound}
use crypto_batch_payment.Pipeline.{Config, Run}
use crypto_batch_payment.Pipeline.Step.{process_payouts}
use crypto_batch_payment.Pipeline.Invariant.Loop.{KeptBy}
use crypto_batch_payment.Pipeline.Invariant.Process.{process_payouts-KeptBy}
use crypto_batch_payment.Pipeline.Invariant.Starts.{RowOk, DbOk}

next_pk-lt :
    (k : ℕ) (gs : List PayoutGroupRow) → next_pk (map (λ g. g.pk) gs) ≤ k → All (λ g. g.pk < k) gs
unfolding next_pk
next_pk-lt k [] h = tt
next_pk-lt k (g ∷ gs) h = ground (arith, next_pk-lt k gs)

append_key :
    (a : ℕ) (gs : List PayoutGroupRow) (g : PayoutGroupRow)
    → a < g.pk
    → any (λ h. h.pk == a) gs ≡ false
    → any (λ h. h.pk == a) (gs ++ g ∷ []) ≡ false
append_key a [] g lt e = ground arith
append_key a (h ∷ gs) g lt e = ground (arith, append_key a gs g lt)

append-UniquePks :
    (gs : List PayoutGroupRow) (g : PayoutGroupRow)
    → All (λ h. h.pk < g.pk) gs
    → UniquePks gs
    → UniquePks (gs ++ g ∷ [])
append-UniquePks [] g below u = (refl, tt)
append-UniquePks (h ∷ gs) g below u =
    (append_key h.pk gs g below.0 u.0, append-UniquePks gs g below.1 u.1)

module _ {H : Host} where
  -- Transactions as they were, and each payout group with an id of its own.
  abbrev pub Ready {ℓ} : {A : Type ℓ} → List TransactionRow → A × Conn H → Type 0
  Ready tx (r, c) = (c.tables.tx ≡ tx) × UniquePks c.tables.payout_group

  create_group-Ready :
      (id : ℕ) (c : Conn H)
      → UniquePks c.tables.payout_group
      → Ready c.tables.tx (create_no_return_payout_group id c)
  unfolding create_no_return_payout_group hooks_now insert_payout_group
  create_group-Ready id c u = ground (
    arith,
    append-UniquePks c.tables.payout_group (new_group_row (time_of c) id c.tables)
        (next_pk-lt (next_pk (map (λ g. g.pk) c.tables.payout_group)) c.tables.payout_group
          (omega arith))
        u,
  )

  create_one-Ready :
      (line : ℕ) (payee usd : String) (id : ℕ) (c : Conn H)
      → UniquePks c.tables.payout_group
      → Ready c.tables.tx (create_no_return_payout line payee usd id c)
  unfolding create_no_return_payout hooks_now insert_payout
  create_one-Ready line payee usd id c u = ground arith

  create_payouts-Ready :
      (id : ℕ) (ps : List (Payout H)) (tx : List TransactionRow) (c : Conn H)
      → Ready tx (tt {0}, c)
      → Ready tx (create_payouts H id ps c)
  unfolding create_payouts
  create_payouts-Ready id [] tx c h = h
  create_payouts-Ready id (p ∷ ps) tx c h =
      bind_rule (Ready tx) one (λ _. create_payouts H id ps) c (λ e _. kept)
        λ _ _. create_payouts-Ready id ps tx (one c).1 kept
    where
      one : Action (Conn H) (Unit {0})
      one =
          create_no_return_payout p.csv_line (H.address_string p.payee) (H.decimal_string p.usd) id

      kept : Ready tx (tt {0}, (one c).1)
      kept =
          let (same, keyed) =
            create_one-Ready p.csv_line (H.address_string p.payee) (H.decimal_string p.usd) id c
              h.1 in
          (same ∙ h.0, keyed)

  group_and_payouts-Ready :
      (id : ℕ) (ps : List (Payout H)) (c : Conn H)
      → UniquePks c.tables.payout_group
      → Ready c.tables.tx ((create_no_return_payout_group id >> create_payouts H id ps) c)
  group_and_payouts-Ready id ps c u =
      bind_rule (Ready c.tables.tx) (create_no_return_payout_group id) (λ _. create_payouts H id ps)
        c (λ e _. create_group-Ready id c u)
        λ _ _. create_payouts-Ready id ps c.tables.tx _ (create_group-Ready id c u)

  create_payout_group-Ready :
      (id : ℕ) (ps : List (Payout H)) (c : Conn H)
      → UniquePks c.tables.payout_group
      → Ready c.tables.tx (create_payout_group H id ps c)
  unfolding create_payout_group with_tx
  create_payout_group-Ready id ps c u = ground (
    arith,
    group_and_payouts-Ready id ps (record c { world = (H.statement_fault c.world).1 }) u,
    u,
  )

  create_payout_groups-Ready :
      (i : ℕ) (ps : List (Payout H)) (tx : List TransactionRow) (c : Conn H)
      → Ready tx (tt {0}, c)
      → Ready tx (create_payout_groups H i ps c)
  unfolding create_payout_groups
  create_payout_groups-Ready i [] tx c h = h
  create_payout_groups-Ready i (p ∷ ps) tx c h =
      bind_rule (Ready tx) (create_payout_group H (suc i) (p ∷ []))
        (λ _. create_payout_groups H (suc i) ps) c (λ e _. kept)
        λ _ _. create_payout_groups-Ready (suc i) ps tx _ kept
    where
      kept : Ready tx (tt {0}, (create_payout_group H (suc i) (p ∷ []) c).1)
      kept =
          let (same, keyed) = create_payout_group-Ready (suc i) (p ∷ []) c h.1 in
          (same ∙ h.0, keyed)

  -- Before a run on an open database.
  abbrev pub fresh_run : Conn H → Run H
  fresh_run c = record { conn = c; expected_nonce = 0; nonce_groups = []; sent = [] }

  create_payout_groups-DbOk :
      (i : ℕ) (ps : List (Payout H)) (c : Conn H)
      → DbOk c.tables
      → DbOk (create_payout_groups H i ps c).1.tables
  create_payout_groups-DbOk i ps c (keyed, rows) =
      let (same, keyed') = create_payout_groups-Ready i ps c.tables.tx c (refl, keyed) in
      (keyed', subst (λ tx. All (RowOk tx) tx) (sym same) rows)

module _ {H : Host} (P : Payer H) (quoter : Action H.World H.Decimal) (fuel : ℕ)
    (cfg : Config) where
  -- On a database that a run may begin with, another run may begin once payouts have been imported,
  -- all or, if something fails, some of them: for a payer that answers as it should, wherever the
  -- run fails, every transaction that it has sent has its row, every group that is not finished has
  -- a pending row, no payout group has two groups that are not finished, and the finished groups
  -- come first.
  pub process_imported-Kept :
      (i : ℕ) (ps : List (Payout H)) (c : Conn H) (rounds : ℕ)
      → IsSound P
      → DbOk c.tables
      → KeptBy
          (process_payouts P quoter fuel cfg rounds (fresh_run (create_payout_groups H i ps c).1))
  process_imported-Kept i ps c rounds sound db =
      process_payouts-KeptBy P quoter fuel cfg rounds (fresh_run (create_payout_groups H i ps c).1)
        sound (create_payout_groups-DbOk i ps c db, refl, refl)
