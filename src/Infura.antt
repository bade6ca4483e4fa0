-- ===== src/Infura.antt =====
-- pkg/infura/cache.go: the gas price client with a cache. A call here is one that no other overlaps.
pub mod Cache
use crypto_batch_payment.Base.{
  ℕ, ◌+◌, ◌==◌, Bool, true, false, Option, none, some, List, [], ◌∷◌, if◌then◌else◌, ltb, ok,
  Action, ◌>>=◌, ◌>>◌, pure, choose, modify,
}
use crypto_batch_payment.Host.{Host}

pub record CacheEntry (Fees : Type 0) : Type 0 where
  pub fees : Fees
  pub ts : ℕ

module _ {V : Type 0} where
  abbrev pub fees_of : ℕ → List (ℕ × V) → Option V
  fees_of k [] = none
  fees_of k ((j, v) ∷ m) = let rest = fees_of k m in if j == k then some v else rest

  abbrev pub with_fees : ℕ → V → List (ℕ × V) → List (ℕ × V)
  with_fees k v [] = (k, v) ∷ []
  with_fees k v ((j, w) ∷ m) =
      let rest = with_fees k v m in if j == k then (j, v) ∷ m else (j, w) ∷ rest

-- The cache with the outside.
pub record FeeCache (H : Host) (Fees : Type 0) : Type 0 where
  pub suggested : List (ℕ × CacheEntry Fees)
  pub world : H.World

-- `client` is the method GetSuggestedGasFees of the client that the cache is made for. That
-- `now.Sub(ts)` is less than `expiry` is said without a subtraction.
module _ (H : Host) {Fees : Type 0} (client : ℕ → Action H.World Fees) (expiry : ℕ) where
  abbrev pub ask : ℕ → Action (FeeCache H Fees) Fees
  ask chain_id s = let (r, w) = client chain_id s.world in (r, record s { world = w })

  abbrev pub read_clock : Action (FeeCache H Fees) ℕ
  read_clock s = let (t, w) = H.now s.world in (ok t, record s { world = w })

  -- The entry has the time at which the call began.
  abbrev pub keep : ℕ → ℕ → Fees → Action (FeeCache H Fees) Fees
  keep chain_id now fees = do
    modify λ s. record s {
      suggested = with_fees chain_id (record { fees = fees; ts = now }) s.suggested;
    }
    pure fees

  abbrev pub refresh : ℕ → ℕ → Action (FeeCache H Fees) Fees
  refresh chain_id now = do fees ← ask chain_id; keep chain_id now fees

  abbrev pub from_entry : ℕ → Option (CacheEntry Fees) → ℕ → Action (FeeCache H Fees) Fees
  from_entry chain_id none now = refresh chain_id now
  from_entry chain_id (some entry) now =
      choose (ltb now (entry.ts + expiry)) (pure entry.fees) (refresh chain_id now)

  unfoldable pub get_suggested_gas_fees : ℕ → Action (FeeCache H Fees) Fees
  get_suggested_gas_fees chain_id s =
      (do now ← read_clock; from_entry chain_id (fees_of chain_id s.suggested) now) s
