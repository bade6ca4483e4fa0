-- ===== src/Pipeline/Youngest.antt =====
-- pkg/pipeline/pipeline.go: youngestTransactionTime.
use crypto_batch_payment.Base.{
  ℕ, ◌≤◌, ◌≡◌, refl, ◌⊎◌, inl, true, ltb, if◌then◌else◌, List, [], ◌∷◌, All, any, ◌==◌, arith,
}
use crypto_batch_payment.Host.{Host}
use crypto_batch_payment.Pipelinedb.{Transaction}
use crypto_batch_payment.Pipeline.Check.{youngest_transaction_time}

module _ {H : Host} where
  youngest-from : (y : ℕ) (xs : List (Transaction H)) → y ≤ youngest_transaction_time y xs
  unfolding youngest_transaction_time
  youngest-from y [] = omega arith
  youngest-from y (x ∷ xs) = ground (arith, youngest-from y xs, youngest-from x.created_at xs)

  youngest-All :
      (y : ℕ) (xs : List (Transaction H))
      → All (λ x. x.created_at ≤ youngest_transaction_time y xs) xs
  unfolding youngest_transaction_time
  youngest-All y [] = tt
  youngest-All y (x ∷ xs) =
      let next : ℕ = if ltb y x.created_at then x.created_at else y in
      (ground (arith, youngest-from next xs), youngest-All next xs)

  youngest-any :
      (y : ℕ) (xs : List (Transaction H))
      → (youngest_transaction_time y xs ≡ y)
        ⊎ (any (λ x. x.created_at == youngest_transaction_time y xs) xs ≡ true)
  unfolding youngest_transaction_time
  youngest-any y [] = inl refl
  youngest-any y (x ∷ xs) = ground (arith, youngest-any y xs, youngest-any x.created_at xs)

  -- The time is that of the latest of the transactions, or zero where no transaction has a later
  -- one.
  pub youngest_transaction_time_lem :
      (xs : List (Transaction H))
      → All (λ x. x.created_at ≤ youngest_transaction_time 0 xs) xs
        × ((youngest_transaction_time 0 xs ≡ 0)
            ⊎ (any (λ x. x.created_at == youngest_transaction_time 0 xs) xs ≡ true))
  youngest_transaction_time_lem xs = (youngest-All 0 xs, youngest-any 0 xs)
