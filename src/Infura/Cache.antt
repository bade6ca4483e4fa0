-- ===== src/Infura/Cache.antt =====
-- pkg/infura/cache.go: how old the fees are that GetSuggestedGasFees returns.
use crypto_batch_payment.Base.{
  ℕ, ◌+◌, ◌<◌, ◌==◌, false, Option, none, some, ◌≡◌, refl, List, [], ◌∷◌, ltb, Result, ok, err,
  Action, pure, arith, ◌⊎◌, inl, inr,
}
use crypto_batch_payment.Base.Rules.{bind_rule, choose_rule}
use crypto_batch_payment.Host.{Host}
use crypto_batch_payment.Infura.{
  CacheEntry, FeeCache, fees_of, with_fees, ask, keep, refresh, from_entry, get_suggested_gas_fees,
}

module _ {V : Type 0} where
  fees_of-with_fees : (k : ℕ) (v : V) (m : List (ℕ × V)) → fees_of k (with_fees k v m) ≡ some v
  fees_of-with_fees k v [] = ground arith
  fees_of-with_fees k v ((j, w) ∷ m) = ground (arith, fees_of-with_fees k v m)

  fees_of-with_fees_other :
      (i k : ℕ) (v : V) (m : List (ℕ × V))
      → (k == i) ≡ false
      → fees_of i (with_fees k v m) ≡ fees_of i m
  fees_of-with_fees_other i k v [] e = ground arith
  fees_of-with_fees_other i k v ((j, w) ∷ m) e = ground (arith, fees_of-with_fees_other i k v m e)

module _ (H : Host) {Fees : Type 0} (client : ℕ → Action H.World Fees) (expiry : ℕ) where
  abbrev pub began : FeeCache H Fees → ℕ
  began s = (H.now s.world).0

  -- The state of the outside once the clock has been read.
  abbrev pub after_clock : FeeCache H Fees → H.World
  after_clock s = (H.now s.world).1

  -- The entry is an old one that has not expired, or has what the client answered.
  abbrev pub Recent : ℕ → FeeCache H Fees → Fees → ℕ → Type 0
  Recent chain_id s fees t =
      ((fees_of chain_id s.suggested ≡ some (record { fees = fees; ts = t }))
        × (began s < t + expiry))
      ⊎ (((client chain_id (after_clock s)).0 ≡ ok fees) × (t ≡ began s))

  abbrev pub Given : ℕ → ℕ → FeeCache H Fees → Result Fees × FeeCache H Fees → Type 0
  Given chain_id other s (err e, s') = s'.suggested ≡ s.suggested
  Given chain_id other s (ok fees, s') =
      ((t : ℕ) × (fees_of chain_id s'.suggested ≡ some (record { fees = fees; ts = t }))
        × Recent chain_id s fees t)
      × (fees_of other s'.suggested ≡ fees_of other s.suggested)

  refresh-Given :
      (chain_id other : ℕ) (s : FeeCache H Fees)
      → (chain_id == other) ≡ false
      → Given chain_id other s
          (refresh H client expiry chain_id (began s) (record s { world = after_clock s }))
  refresh-Given chain_id other s differ =
      bind_rule (Given chain_id other s) (ask H client expiry chain_id)
        (keep H client expiry chain_id (began s)) (record s { world = after_clock s }) (λ e h. refl)
        λ fees h.
          let kept : CacheEntry Fees = record { fees = fees; ts = began s } in
          (
            (began s, fees_of-with_fees chain_id kept s.suggested, inr (h, refl)),
            fees_of-with_fees_other other chain_id kept s.suggested differ,
          )

  from_entry-Given :
      (chain_id other : ℕ) (s : FeeCache H Fees) (entry : Option (CacheEntry Fees))
      → fees_of chain_id s.suggested ≡ entry
      → (chain_id == other) ≡ false
      → Given chain_id other s
          (from_entry H client expiry chain_id entry (began s) (record s { world = after_clock s }))
  from_entry-Given chain_id other s none e differ = refresh-Given chain_id other s differ
  from_entry-Given chain_id other s (some entry) e differ =
      choose_rule (Given chain_id other s) (ltb (began s) (entry.ts + expiry)) (pure entry.fees)
        (refresh H client expiry chain_id (began s)) (record s { world = after_clock s })
        (λ early. ((entry.ts, e, inl (e, ground (arith, early))), refl))
        λ late. refresh-Given chain_id other s differ

  -- The fees that GetSuggestedGasFees returns are in the cache afterwards. They were there before
  -- and have not expired when the call begins; or they are the client's answer, with the time at
  -- which the call began. The fees of another chain stay, and all of them if there is an error.
  pub get_suggested_gas_fees-Given :
      (chain_id other : ℕ) (s : FeeCache H Fees)
      → (chain_id == other) ≡ false
      → Given chain_id other s (get_suggested_gas_fees H client expiry chain_id s)
  unfolding get_suggested_gas_fees
  get_suggested_gas_fees-Given chain_id other s differ =
      from_entry-Given chain_id other s (fees_of chain_id s.suggested) refl differ
