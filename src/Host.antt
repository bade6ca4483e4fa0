-- ===== src/Host.antt =====
-- What the program uses and does not implement: go-ethereum's addresses and hashes, shopspring's
-- decimals, the texts of Go's numbers and of JSON, the disk under SQLite, the clock and the context.
use crypto_batch_payment.Base.{ℕ, String, Bool, true, Option, some, ◌≡◌, Result}
use crypto_batch_payment.Base.Int.{ℤ}

-- `World` is the state of everything outside the process; a call to the outside returns the next.
-- Addresses and hashes are byte arrays of a fixed length, read as numbers.
pub record Host : Type 1 where
  pub World : Type 0
  pub Decimal : Type 0
  pub Receipt : Type 0
  pub RawTx : Type 0
  -- common.IsHexAddress, common.HexToAddress, Address.String, common.HexToHash, Hash.Hex
  pub is_hex_address : String → Bool
  pub hex_to_address : String → ℕ
  pub address_string : ℕ → String
  pub hex_to_hash : String → ℕ
  pub hash_hex : ℕ → String
  -- decimal.Zero, Sum, Equal, IsPositive, String, NewFromString
  pub decimal_zero : Decimal
  pub decimal_add : Decimal → Decimal → Decimal
  pub decimal_equal : Decimal → Decimal → Bool
  pub decimal_is_positive : Decimal → Bool
  pub decimal_string : Decimal → String
  pub decimal_from_string : String → Option Decimal
  -- Decimal.Shift, the quotient of Decimal.QuoRem at precision 0 (`none`: it panics on a zero
  -- divisor), Decimal.Coefficient
  pub decimal_shift : Decimal → ℕ → Decimal
  pub decimal_quo : Decimal → Decimal → Option Decimal
  pub decimal_coefficient : Decimal → ℤ
  -- big.Int's String and SetString at base 10
  pub int_string : ℤ → String
  pub int_from_string : String → Option ℤ
  -- Receipt.Status, and encoding/json
  pub receipt_status : Receipt → ℕ
  pub receipt_json : Receipt → Result String
  pub receipt_from_json : String → Option Receipt
  pub raw_json : RawTx → Result String
  -- the error code with which SQLite refuses the next statement, or the system the next call on a
  -- file, if it does
  pub statement_fault : World → Option ℕ × World
  -- time.Now, in nanoseconds
  pub now : World → ℕ × World
  -- a select on a timer of so many nanoseconds and the context: true if the context is done first
  pub sleep_canceled : ℕ → World → Bool × World

-- The documented round trips that reading a row back relies on.
pub record HasRoundTrips (H : Host) : Type 0 where
  pub address_is_hex : (a : ℕ) → H.is_hex_address (H.address_string a) ≡ true
  pub address_back : (a : ℕ) → H.hex_to_address (H.address_string a) ≡ a
  pub int_back : (n : ℤ) → H.int_from_string (H.int_string n) ≡ some n
  -- Trailing zeros are not kept, so the value comes back equal and not the same.
  pub decimal_back :
      (d : H.Decimal)
      → (e : H.Decimal) × (H.decimal_from_string (H.decimal_string d) ≡ some e)
        × (H.decimal_equal e d ≡ true)
