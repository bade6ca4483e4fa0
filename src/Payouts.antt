-- ===== src/Payouts.antt =====
-- pkg/payouts: the rows of a CSV file as payouts, and their payout groups.
pub mod Import
pub mod Audit
pub mod Directory
pub mod Running
pub mod Rowstats
pub mod Ready
use crypto_batch_payment.Base.{ℕ, suc, List, [], ◌∷◌, map, Action, ◌>>◌, pure}
use crypto_batch_payment.Host.{Host}
use crypto_batch_payment.Csv.{Row}
use crypto_batch_payment.Payoutdb.{Conn}
use crypto_batch_payment.Pipelinedb.{Payout}
use crypto_batch_payment.Pipelinedb.Operations.{create_payout_group}

-- `FromCSV`; a payout of no group yet has Go's zero.
unfoldable pub from_csv : {H : Host} → List (Row H) → List (Payout H)
from_csv [] = []
from_csv (row ∷ rows) =
    record { csv_line = row.line; payee = row.address; usd = row.usd; payout_group_id = 0 }
    ∷ from_csv rows

-- `createPayoutGroups`, from the payout at index `i` on: a group for each.
unfoldable pub create_payout_groups : (H : Host) → ℕ → List (Payout H) → Action (Conn H) (Unit {0})
create_payout_groups H i [] = pure tt
create_payout_groups H i (p ∷ ps) = do
  create_payout_group H (suc i) (p ∷ [])
  create_payout_groups H (suc i) ps
