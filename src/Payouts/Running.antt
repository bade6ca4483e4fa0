-- ===== src/Payouts/Running.antt =====
-- pkg/payouts/run.go: Preview and Run, and doRun of cmd/crybapy/cmd_run.go from the open database
-- on. What they print is left out; the prompt is a parameter.
pub mod Confirmed
use crypto_batch_payment.Base.{ℕ, String, Bool, if◌then◌else◌, Action, ◌>>=◌, ◌>>◌, of_result}
use crypto_batch_payment.Host.{Host}
use crypto_batch_payment.Storjtoken.{from_usd}
use crypto_batch_payment.Payoutdb.{Conn}
use crypto_batch_payment.Pipelinedb.Stats.{db_stats}
use crypto_batch_payment.Payer.{Payer}
use crypto_batch_payment.Pipeline.{Config, new, Run, on_db}
use crypto_batch_payment.Pipeline.Step.{process_payouts}

-- A call to the outside, beside an open database.
abbrev pub beside : {H : Host} {A : Type 0} → Action H.World A → Action (Conn H) A
beside m c = let (r, w) = m c.world in (r, record c { world = w })

abbrev pub label : Bool → String
label drain = if drain then "Drain" else "Proceed"

-- `Run`, with the fuel of the pipeline's loops.
unfoldable pub run_payouts :
    {H : Host} → Payer H → Action H.World H.Decimal → ℕ → Config → ℕ → Action (Run H) (Unit {0})
run_payouts P quoter fuel cfg rounds = process_payouts P quoter fuel (new cfg) rounds

module _ {H : Host} (P : Payer H) (quoter : Action H.World H.Decimal)
    (print_estimate : ℕ → Action H.World (Unit {0})) where
  -- What is asked for before the prompt, and printed.
  unfoldable pub show_stats : Action (Conn H) (Unit {0})
  show_stats = do
    stats ← db_stats H
    price ← beside quoter
    decimals ← beside P.get_token_decimals
    balance ← beside P.get_token_balance
    estimated ← of_result (from_usd H stats.pending_usd price decimals)
    beside (print_estimate stats.pending_payout_groups)

module _ {H : Host} (P : Payer H) (quoter : Action H.World H.Decimal)
    (print_estimate : ℕ → Action H.World (Unit {0}))
    (prompt_confirm : String → Action H.World (Unit {0})) where
  unfoldable pub preview : Bool → Action (Conn H) (Unit {0})
  preview drain = do show_stats P quoter print_estimate; beside (prompt_confirm (label drain))

  -- `doRun`; closing the database is left out.
  unfoldable pub do_run : ℕ → Config → ℕ → Action (Run H) (Unit {0})
  do_run fuel cfg rounds = do on_db (preview cfg.drain); run_payouts P quoter fuel cfg rounds
