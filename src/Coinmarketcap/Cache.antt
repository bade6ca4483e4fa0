-- ===== src/Coinmarketcap/Cache.antt =====
-- pkg/coinmarketcap/caching_client.go: what GetQuote serves, and what it leaves in the cache.
use crypto_batch_payment.Base.{
  ℕ, ◌+◌, ◌<◌, ◌≤◌, String, false, Option, none, some, ◌≡◌, refl, inl, inr, ◌⊎◌, List, [], ◌∷◌,
  str_eq, eq_iff, ltb, Result, ◌∙◌, ok, err, Action, pure, ap, sym, arith,
}
use crypto_batch_payment.Base.Rules.{bind_rule, choose_rule}
use crypto_batch_payment.Host.{Host}
use crypto_batch_payment.Coinmarketcap.{
  QuoteCache, CachingClient, find, put, found_or_empty, symbol_cache, outside, store, fetch,
  cached_or_fetch, get_quote,
}

module _ {V : Type 0} where
  find-put : (k : String) (v : V) (m : List (String × V)) → find k (put k v m) ≡ some v
  find-put k v [] = ground (arith, eq_iff k k)
  find-put k v ((j, w) ∷ m) = ground (arith, find-put k v m)

  find-put_other :
      (i k : String) (v : V) (m : List (String × V))
      → str_eq k i ≡ false
      → find i (put k v m) ≡ find i m
  find-put_other i k v [] e = ground arith
  find-put_other i k v ((j, w) ∷ m) e = ground (arith, eq_iff j k, find-put_other i k v m e)

module _ (H : Host) {Quote : Type 0} (client : String → Action H.World Quote) (expiry : ℕ) where
  abbrev pub entry_of : String → CachingClient H Quote → QuoteCache Quote
  entry_of symbol s = found_or_empty (find symbol s.cache)

  -- The quote of an entry that has not expired at the time of the call; the entry stays.
  abbrev pub FromCache : String → CachingClient H Quote → QuoteCache Quote → Option Quote → Type 0
  FromCache symbol s entry q =
      (t : ℕ) × (entry.updated ≡ some t)
      × ((H.now s.world).0 < t + expiry)
      × (q ≡ entry.quote)
      × (entry ≡ entry_of symbol s)

  -- The world in which a call asks the client: the clock has been read if the entry has a time.
  abbrev pub asked_at : Option ℕ → H.World → H.World
  asked_at none w = w
  asked_at (some t) w = (H.now w).1

  -- Whether an entry is too old, or has no time.
  abbrev pub Stale : Option ℕ → H.World → Type 0
  Stale none w = Unit
  Stale (some t) w = t + expiry ≤ (H.now w).0

  -- What the client answered in this call, at a time after the answer; the entry was too old.
  abbrev pub FromClient : String → CachingClient H Quote → QuoteCache Quote → Option Quote → Type 0
  FromClient symbol s entry q =
      let u = (entry_of symbol s).updated in
      let w = asked_at u s.world in
      (x : Quote) × Stale u s.world
      × ((client symbol w).0 ≡ ok x)
      × (q ≡ some x)
      × (entry ≡ record { quote = some x; updated = some (H.now (client symbol w).1).0 })

  abbrev pub Served :
      String
      → String
      → CachingClient H Quote
      → Result (Option Quote) × CachingClient H Quote
      → Type 0
  Served symbol other s (err e, s') =
      (entry_of symbol s' ≡ entry_of symbol s) × (find other s'.cache ≡ find other s.cache)
  Served symbol other s (ok q, s') =
      (FromCache symbol s (entry_of symbol s') q ⊎ FromClient symbol s (entry_of symbol s') q)
      × (find other s'.cache ≡ find other s.cache)

  fetch-Served :
      (symbol other : String) (s s1 : CachingClient H Quote)
      → str_eq symbol other ≡ false
      → entry_of symbol s1 ≡ entry_of symbol s
      → find other s1.cache ≡ find other s.cache
      → Stale (entry_of symbol s).updated s.world
      → s1.world ≡ asked_at (entry_of symbol s).updated s.world
      → Served symbol other s (fetch H client expiry symbol s1)
  fetch-Served symbol other s s1 differ mine others stale asked =
      bind_rule (Served symbol other s) (outside H client expiry (client symbol))
        (store H client expiry symbol) s1 (λ e h. (mine, others))
        λ x h.
          let now = (H.now (client symbol s1.world).1).0 in
          let answered : (client symbol s1.world).0 ≡ ok x = h in
          let kept : QuoteCache Quote = record { quote = some x; updated = some now } in
          (
            inr (
              x,
              stale,
              ap (λ w. (client symbol w).0) (sym asked) ∙ answered,
              refl,
              ap found_or_empty (find-put symbol kept s1.cache)
                  ∙ ap
                      (λ w. record { quote = some x; updated = some (H.now (client symbol w).1).0 })
                      asked,
            ),
            find-put_other other symbol kept s1.cache differ ∙ others,
          )

  get_quote_after :
      (symbol other : String) (s s1 : CachingClient H Quote) (u : Option ℕ)
      → (entry_of symbol s).updated ≡ u
      → s1.world ≡ s.world
      → str_eq symbol other ≡ false
      → entry_of symbol s1 ≡ entry_of symbol s
      → find other s1.cache ≡ find other s.cache
      → Served symbol other s (cached_or_fetch H client expiry symbol (entry_of symbol s) u s1)
  get_quote_after symbol other s s1 none e w differ mine others =
      fetch-Served symbol other s s1 differ mine others (rw e tt) (w ∙ rw e refl)
  get_quote_after symbol other s s1 (some t) e w differ mine others =
      choose_rule (Served symbol other s) (ltb (H.now s1.world).0 (t + expiry))
        (pure (entry_of symbol s).quote) (fetch H client expiry symbol) s2
        (λ early. (
          inl (
            t,
            ap (λ x. x.updated) mine ∙ e,
            rw (sym w) (ground (arith, early)),
            sym (ap (λ x. x.quote) mine),
            mine,
          ),
          others,
        ))
        λ late.
          fetch-Served symbol other s s2 differ mine others (rw e (ground (arith, late, w)))
            (rw (e, w) refl)
    where
      s2 : CachingClient H Quote
      s2 = record s1 { world = (H.now s1.world).1 }

  -- A quote that GetQuote returns is the one in the cache, which has not expired when it is asked
  -- for, and the entry stays; or there was none or it has expired, and the quote is the client's
  -- answer to this call, and the entry has it, with the time that the clock says after it. When there
  -- is an error the entry keeps its quote and its time.
  -- Either way, the entry of any other symbol stays as it was.
  pub get_quote-Served :
      (symbol other : String) (s : CachingClient H Quote)
      → str_eq symbol other ≡ false
      → Served symbol other s (get_quote H client expiry symbol s)
  unfolding get_quote symbol_cache
  get_quote-Served symbol other s differ =
      get_quote_after symbol other s (record s { cache = put symbol entry s.cache }) entry.updated
        refl refl differ (ap found_or_empty (find-put symbol entry s.cache))
        (find-put_other other symbol entry s.cache differ)
    where
      entry : QuoteCache Quote
      entry = entry_of symbol s
