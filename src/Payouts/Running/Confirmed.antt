-- ===== src/Payouts/Running/Confirmed.antt =====
-- cmd/crybapy/cmd_run.go: nothing is written or sent before the prompt has been confirmed.
use crypto_batch_payment.Base.{
  ℕ, String, Bool, true, ◌≡◌, refl, ap, ◌⊎◌, inl, inr, is_err, Error, Result-cases, Result, ok, err,
  Action, arith,
}
use crypto_batch_payment.Base.Rules.{bind_rule}
use crypto_batch_payment.Host.{Host}
use crypto_batch_payment.Payoutdb.{Tables, Conn}
use crypto_batch_payment.Pipelinedb.Stats.{DbStats, db_stats}
use crypto_batch_payment.Pipelinedb.Stats.Numbered.{Numbered, db_stats-Numbered}
use crypto_batch_payment.Payer.{Payer}
use crypto_batch_payment.Pipeline.{Config, Run, on_db}
use crypto_batch_payment.Payouts.Running.{beside, label, show_stats, preview, run_payouts, do_run}

module _ {H : Host} where
  tables_after : (t : Tables) (r : Result (DbStats H) × Conn H) → Numbered H t r → r.1.tables ≡ t
  tables_after t (ok s, c) (all, left, p, q, e, same) = same
  tables_after t (err e, c) same = same

module _ {H : Host} (P : Payer H) (quoter : Action H.World H.Decimal)
    (print_estimate : ℕ → Action H.World (Unit {0})) where
  show_stats_frame : (c : Conn H) → (show_stats P quoter print_estimate c).1.tables ≡ c.tables
  unfolding show_stats
  show_stats_frame c = ground (arith, tables_after c.tables (db_stats H c) (db_stats-Numbered H c))

module _ {H : Host} (P : Payer H) (quoter : Action H.World H.Decimal)
    (print_estimate : ℕ → Action H.World (Unit {0}))
    (prompt_confirm : String → Action H.World (Unit {0})) where
  -- The statistics of this run are shown, and its prompt is answered with a yes.
  abbrev pub Yes : Bool → Conn H → Type 0
  Yes drain c =
      ((show_stats P quoter print_estimate c).0 ≡ ok tt)
      × ((prompt_confirm (label drain) (show_stats P quoter print_estimate c).1.world).0 ≡ ok tt)

  -- What a run leaves: what it began with, and an error, unless its prompt was confirmed.
  abbrev pub OnlyConfirmed : Config → Run H → Result (Unit {0}) × Run H → Type 0
  OnlyConfirmed cfg s r =
      Yes cfg.drain s.conn
      ⊎ ((is_err r.0 ≡ true) × (r.1.conn.tables ≡ s.conn.tables) × (r.1.sent ≡ s.sent))

  abbrev Asked : Bool → Conn H → Result (Unit {0}) × Conn H → Type 0
  Asked drain c (r, c') = Yes drain c ⊎ ((is_err r ≡ true) × (c'.tables ≡ c.tables))

  prompt-Asked :
      (drain : Bool) (c : Conn H)
      → (show_stats P quoter print_estimate c).0 ≡ ok tt
      → Asked drain c
          (beside (prompt_confirm (label drain)) (show_stats P quoter print_estimate c).1)
  prompt-Asked drain c shown =
      elim (Result-cases
        (prompt_confirm (label drain) (show_stats P quoter print_estimate c).1.world).0) [
          | inl (_, said) ↦ inl (shown, said)
          | inr (e, refused) ↦ inr (ap is_err refused, show_stats_frame P quoter print_estimate c)
        ]

  preview-Asked :
      (drain : Bool) (c : Conn H)
      → Asked drain c (preview P quoter print_estimate prompt_confirm drain c)
  unfolding preview
  preview-Asked drain c =
      bind_rule (Asked drain c) (show_stats P quoter print_estimate)
        (λ _. beside (prompt_confirm (label drain))) c
        (λ e h. inr (refl, show_stats_frame P quoter print_estimate c))
        λ _ h. prompt-Asked drain c h

  unconfirmed :
      (cfg : Config) (s : Run H) (e : Error) (r : Result (Unit {0})) (c : Conn H)
      → Asked cfg.drain s.conn (r, c)
      → OnlyConfirmed cfg s (err e, record s { conn = c })
  unconfirmed cfg s e r c (inl said) = inl said
  unconfirmed cfg s e r c (inr (fails, same)) = inr (refl, same, refl)

  said_by_ok :
      (drain : Bool) (c : Conn H) (r : Result (Unit {0})) (c' : Conn H)
      → Asked drain c (r, c')
      → r ≡ ok tt
      → Yes drain c
  said_by_ok drain c r c' (inl said) h = said
  said_by_ok drain c r c' (inr (fails, same)) h = cc

  -- A run ends with an error, leaves the tables as they were and sends nothing, unless its statistics
  -- have been shown without an error and its own prompt has then been answered with a yes.
  pub do_run-OnlyConfirmed :
      (fuel : ℕ) (cfg : Config) (rounds : ℕ) (s : Run H)
      → OnlyConfirmed cfg s (do_run P quoter print_estimate prompt_confirm fuel cfg rounds s)
  unfolding do_run
  do_run-OnlyConfirmed fuel cfg rounds s =
      bind_rule (OnlyConfirmed cfg s) (on_db begin) (λ _. run_payouts P quoter fuel cfg rounds) s
        (λ e h.
          unconfirmed cfg s e (begin s.conn).0 (begin s.conn).1 (preview-Asked cfg.drain s.conn))
        λ _ h. inl (
          said_by_ok cfg.drain s.conn (begin s.conn).0 (begin s.conn).1
            (preview-Asked cfg.drain s.conn) h)
    where
      begin : Action (Conn H) (Unit {0})
      begin = preview P quoter print_estimate prompt_confirm cfg.drain
