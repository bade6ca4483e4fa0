-- ===== src/Pipeline/Quotes.antt =====
-- pkg/pipeline/pipeline.go: the amount that sendTransaction works out.
use crypto_batch_payment.Base.{ℕ, false, ◌≡◌, Result, ok, err, Action, arith}
use crypto_batch_payment.Base.Int.{ℤ, pos, leb_ℤ, ltb_ℤ}
use crypto_batch_payment.Host.{Host}
use crypto_batch_payment.Storjtoken.{from_usd}
use crypto_batch_payment.Payer.{Payer}
use crypto_batch_payment.Pipeline.{Config}
use crypto_batch_payment.Pipeline.Send.{quote_tokens}

abbrev pub Covers : Result ℤ → ℤ → Type 0
Covers (ok balance) tokens = ltb_ℤ balance tokens ≡ false
Covers (err e) tokens = ⊥

abbrev pub Priced : (H : Host) → H.Decimal → Result ℕ → H.Decimal → ℤ → Type 0
Priced H usd (ok decimals) price tokens = from_usd H usd price decimals ≡ ok tokens
Priced H usd (err e) price tokens = ⊥

module _ {H : Host} (P : Payer H) (quoter : Action H.World H.Decimal) (fuel : ℕ)
    (cfg : Config) where
  -- If an amount is quoted, it is that of the dollars at the price that the price service gave, for
  -- the decimals of the token; it is positive, and the balance that was read covers it.
  pub quote_tokens_lem :
      (usd : H.Decimal) (w : H.World) (tokens : ℤ) (price : H.Decimal)
      → (quote_tokens P quoter fuel cfg usd w).0 ≡ ok (tokens, price)
      → let (decimals, w1) = P.get_token_decimals w in
        let (quote, w2) = quoter w1 in
        (quote ≡ ok price)
        × Priced H usd decimals price tokens
        × (leb_ℤ tokens (pos 0) ≡ false)
        × Covers (P.get_token_balance w2).0 tokens
  unfolding quote_tokens
  quote_tokens_lem usd w tokens price h = ground arith
