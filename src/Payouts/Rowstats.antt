-- ===== src/Payouts/Rowstats.antt =====
-- pkg/payouts/stats.go: GetRowStats.
use crypto_batch_payment.Base.{ℕ, List, [], ◌∷◌, length}
use crypto_batch_payment.Host.{Host}
use crypto_batch_payment.Csv.{Row}
use crypto_batch_payment.Pipelinedb.Stats.{add_payee}

pub record RowStats (H : Host) : Type 0 where
  pub addresses : ℕ
  pub payouts : ℕ
  pub usd : H.Decimal

module _ (H : Host) where
  abbrev pub addresses_of : List (Row H) → List ℕ → List ℕ
  addresses_of [] seen = seen
  addresses_of (row ∷ rows) seen = addresses_of rows (add_payee row.address seen)

  -- Decimal.Add returns the sum, which the loop drops, so that the amount stays zero.
  unfoldable pub get_row_stats : List (Row H) → RowStats H
  get_row_stats rows = record {
    addresses = length (addresses_of rows []);
    payouts = length rows;
    usd = H.decimal_zero;
  }
