-- ===== src/Coinmarketcap.antt =====
-- pkg/coinmarketcap/caching_client.go: the price service's client with a cache. The locks make the
-- calls for one symbol follow one another; a call here is one that no other overlaps.
pub mod Cache
pub mod Client
pub mod Quoted
use crypto_batch_payment.Base.{
  ℕ, ◌+◌, String, Bool, true, false, Option, none, some, List, [], ◌∷◌, str_eq, if◌then◌else◌, ltb,
  ok, Action, ◌>>=◌, ◌>>◌, pure, choose, modify, gets,
}
use crypto_batch_payment.Host.{Host}

-- `updated` is `none` for Go's zero time, and `quote` for a nil pointer.
pub record QuoteCache (Quote : Type 0) : Type 0 where
  pub quote : Option Quote
  pub updated : Option ℕ

abbrev pub empty_cache : {Quote : Type 0} → QuoteCache Quote
empty_cache = record { quote = none; updated = none }

module _ {V : Type 0} where
  abbrev pub find : String → List (String × V) → Option V
  find k [] = none
  find k ((j, v) ∷ m) = let rest = find k m in if str_eq j k then some v else rest

  abbrev pub put : String → V → List (String × V) → List (String × V)
  put k v [] = (k, v) ∷ []
  put k v ((j, w) ∷ m) = let rest = put k v m in if str_eq j k then (j, v) ∷ m else (j, w) ∷ rest

-- The client's map with the outside. The map is by pointer, so that what is written to an entry is
-- written to the map.
pub record CachingClient (H : Host) (Quote : Type 0) : Type 0 where
  pub cache : List (String × QuoteCache Quote)
  pub world : H.World

abbrev pub found_or_empty : {Quote : Type 0} → Option (QuoteCache Quote) → QuoteCache Quote
found_or_empty none = empty_cache
found_or_empty (some entry) = entry

-- `client` is the method GetQuote of the client that makes the HTTP request.
module _ (H : Host) {Quote : Type 0} (client : String → Action H.World Quote) (expiry : ℕ) where
  abbrev pub outside : {A : Type 0} → Action H.World A → Action (CachingClient H Quote) A
  outside m s = let (r, w) = m s.world in (r, record s { world = w })

  abbrev clock : Action (CachingClient H Quote) ℕ
  clock = outside (λ w. let (t, w') = H.now w in (ok t, w'))

  -- The entry of the symbol, which is made if it is not there.
  unfoldable pub symbol_cache : String → Action (CachingClient H Quote) (QuoteCache Quote)
  symbol_cache symbol s =
      let entry = found_or_empty (find symbol s.cache) in
      (ok entry, record s { cache = put symbol entry s.cache })

  abbrev pub store : String → Quote → Action (CachingClient H Quote) (Option Quote)
  store symbol quote = do
    now ← clock
    modify λ s. record s {
      cache = put symbol (record { quote = some quote; updated = some now }) s.cache;
    }
    pure (some quote)

  abbrev pub fetch : String → Action (CachingClient H Quote) (Option Quote)
  fetch symbol = do quote ← outside (client symbol); store symbol quote

  -- By the time at which the entry was last updated.
  abbrev pub cached_or_fetch :
      String → QuoteCache Quote → Option ℕ → Action (CachingClient H Quote) (Option Quote)
  cached_or_fetch symbol entry none = fetch symbol
  cached_or_fetch symbol entry (some updated) = do
    now ← clock
    choose (ltb now (updated + expiry)) (pure entry.quote) (fetch symbol)

  unfoldable pub get_quote : String → Action (CachingClient H Quote) (Option Quote)
  unfolding symbol_cache
  get_quote symbol = do entry ← symbol_cache symbol; cached_or_fetch symbol entry entry.updated
