-- ===== src/Pipelinedb.antt =====
-- pkg/pipelinedb/db.go: the values that the program works on, read from the rows of payoutdb.
pub mod Convert
pub mod Groups
pub mod Operations
pub mod Frame
pub mod Created
pub mod Finalize
pub mod Open
pub mod Keyed
pub mod Sorted
pub mod Unfinished
pub mod Imported
pub mod Counting
pub mod Metadata
pub mod Stats
use crypto_batch_payment.Base.{ℕ, String, List, Option}
use crypto_batch_payment.Base.Int.{ℤ}
use crypto_batch_payment.Host.{Host}
use crypto_batch_payment.Txstatus.{TxState}

pub record Payout (H : Host) : Type 0 where
  pub csv_line : ℕ
  pub payee : ℕ
  pub usd : H.Decimal
  pub payout_group_id : ℕ

pub record PayoutGroup : Type 0 where
  pub id : ℕ
  pub final_tx_hash : Option ℕ

-- `created_at` is in nanoseconds, and 0 is Go's zero time. `raw` is the JSON of the transaction.
pub record Transaction (H : Host) : Type 0 where
  pub created_at : ℕ
  pub hash : String
  pub owner : ℕ
  pub spender : ℕ
  pub nonce : ℕ
  pub estimated_gas_price : ℤ
  pub storj_price : H.Decimal
  pub storj_tokens : ℤ
  pub payout_group_id : ℕ
  pub raw : String
  pub state : TxState
  pub receipt : Option H.Receipt

pub record NonceGroup (H : Host) : Type 0 where
  pub nonce : ℕ
  pub payout_group_id : ℕ
  pub txs : List (Transaction H)
