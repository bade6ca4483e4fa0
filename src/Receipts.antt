-- ===== src/Receipts.antt =====
-- pkg/receipts/buffer.go: the CSV file of receipts. `csv_line` is the text that encoding/csv makes of
-- a record; the file is the list of these texts. That csv.Writer flushes by itself when its own
-- buffer is full changes nothing of what is returned, and is left out.
pub mod Lines
use crypto_batch_payment.Base.{ℕ, String, Option, none, some, List, [], ◌∷◌, ◌++◌}
use crypto_batch_payment.Host.{Host}
use crypto_batch_payment.Payer.Types.{PayerType, type_string}

-- `csv` holds what the csv.Writer has not flushed to `buf`, once there is one.
pub record Buffer : Type 0 where
  pub buf : List String
  pub csv : Option (List String)

abbrev pub empty_buffer : Buffer
empty_buffer = record { buf = []; csv = none }

-- What `Emit` is called with.
pub record Receipt (H : Host) : Type 0 where
  pub wallet : ℕ
  pub amount : H.Decimal
  pub tx_hash : String
  pub mechanism : PayerType

abbrev pub header : List String
header = "wallet" ∷ "amount" ∷ "txhash" ∷ "mechanism" ∷ []

abbrev pub add_text : String → Option (List String) → Option (List String)
add_text text none = none
add_text text (some waiting) = some (waiting ++ text ∷ [])

abbrev pub flushed : List String → Option (List String) → List String
flushed buf none = buf
flushed buf (some waiting) = buf ++ waiting

module _ (csv_line : List String → String) where
  unfoldable pub write : List String → Buffer → Buffer
  write fields b = record b { csv = add_text (csv_line fields) b.csv }

  -- `init`: the writer, with the header in it, if there is none.
  unfoldable pub init_buffer : Buffer → Buffer
  init_buffer b = elim b.csv [ some waiting ↦ b | none ↦ write header (record b { csv = some [] }) ]

  abbrev pub flush : Buffer → Buffer
  flush b = record { buf = flushed b.buf b.csv; csv = some [] }

  unfoldable pub finalize : Buffer → List String × Buffer
  finalize b = let b' = flush (init_buffer b) in (b'.buf, b')

module _ (H : Host) (csv_line : List String → String) where
  abbrev pub fields : Receipt H → List String
  fields r =
      H.address_string r.wallet
      ∷ H.decimal_string r.amount
      ∷ r.tx_hash
      ∷ type_string r.mechanism
      ∷ []

  unfoldable pub emit : Receipt H → Buffer → Buffer
  emit r b = write csv_line (fields r) (init_buffer csv_line b)
