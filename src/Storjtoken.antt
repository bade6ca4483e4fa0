-- ===== src/Storjtoken.antt =====
-- pkg/storjtoken/token.go: tokens for an amount of dollars at a price.
use crypto_batch_payment.Base.{
  ℕ, if◌then◌else◌, ltb, none, some, Result, ok, err, few_decimals, division_by_zero,
}
use crypto_batch_payment.Base.Int.{ℤ}
use crypto_batch_payment.Host.{Host}

-- A token of fewer than 8 decimals is a panic, and so is a price of zero.
unfoldable pub from_usd : (H : Host) → (usd price : H.Decimal) (decimals : ℕ) → Result ℤ
from_usd H usd price decimals =
    if ltb decimals 8
    then err few_decimals
    else elim (H.decimal_quo (H.decimal_shift usd decimals) price) [
      | none ↦ err division_by_zero
      | some tokens ↦ ok (H.decimal_coefficient tokens)
    ]
