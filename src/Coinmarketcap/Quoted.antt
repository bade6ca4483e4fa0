-- ===== src/Coinmarketcap/Quoted.antt =====
-- pkg/coinmarketcap/client.go: which replies of the price service are quotes.
use crypto_batch_payment.Base.{
  ℕ, String, Bool, true, false, ◌==◌, ◌≡◌, ◌↔◌, refl, sym, ◌∙◌, subst, Option, none, some, List,
  Result, ok, err, or_error, Error, arith, no_data, bad_json, no_quote, price_missing, bad_time,
  service_error, if◌then◌else◌, Action, of_result, bad_status, ==_iff,
}
use crypto_batch_payment.Base.Bind.{◌>>=◌, bind_ok, result_rule}
use crypto_batch_payment.Base.Rules.{bind_rule}
use crypto_batch_payment.Base.Int.{pos, ltb_ℤ}
use crypto_batch_payment.Host.{Host}
use crypto_batch_payment.Coinmarketcap.Client.{
  Client, Url, latest_quote_path, client_quote, QuoteData, Reply, Quote, at_key, time_of,
  quote_data, quote_of, of_body, of_response,
}

given : {A : Type 0} (o : Option A) (e : Error) (a : A) → or_error o e ≡ ok a → o ≡ some a
given none e a h = cc
given (some b) e a h = ground (arith, h)

module _ (H : Host) (parse_time : String → Option ℕ) where
  abbrev pub SaysTime : Option String → Option ℕ → Type 0
  SaysTime none last = last ≡ none
  SaysTime (some text) last = (t : ℕ) × (parse_time text ≡ some t) × (last ≡ some t)

  -- The reply has a quote of the symbol in USD, with a price and, if there is a time, one that can
  -- be read.
  abbrev pub Says : String → Reply H → Quote H → Type 0
  Says symbol reply q =
      (ltb_ℤ (pos 0) reply.error_code ≡ false)
      × (quotes : List (String × Option (QuoteData H))) × (at_key symbol reply.symbols
          ≡ some quotes)
      × (d : QuoteData H) × (at_key "USD" quotes ≡ some d)
      × (d.price ≡ some q.price)
      × SaysTime d.last_updated q.last_updated

  said_time :
      (text : Option String) (last : Option ℕ)
      → time_of H parse_time text ≡ ok last
      → SaysTime text last
  said_time none last h = ground (arith, h)
  said_time (some text) last h =
      let (t, read, e) = bind_ok (or_error (parse_time text) bad_time) (λ t. ok (some t)) last h in
      (t, given (parse_time text) bad_time t read, ground (arith, e))

  read_time :
      (text : Option String) (last : Option ℕ)
      → SaysTime text last
      → time_of H parse_time text ≡ ok last
  read_time none last e = rw e refl
  read_time (some text) last (t, read, e) = rw (read, e) refl

  abbrev SaysIn : String → Reply H → Result (Quote H) → Type 0
  SaysIn symbol reply (ok q) = Says symbol reply q
  SaysIn symbol reply (err e) = Unit

  found_in :
      (symbol : String) (reply : Reply H)
      → ltb_ℤ (pos 0) reply.error_code ≡ false
      → SaysIn symbol reply (
          or_error (at_key symbol reply.symbols) no_data >>= λ quotes.
          quote_data H parse_time (at_key "USD" quotes))
  found_in symbol reply fine =
      result_rule Q (or_error (at_key symbol reply.symbols) no_data)
        (λ quotes. quote_data H parse_time (at_key "USD" quotes)) (λ e. tt)
        λ quotes there.
          result_rule Q (or_error (at_key "USD" quotes) no_quote) _ (λ e. tt)
            λ d found.
              result_rule Q (or_error d.price price_missing) _ (λ e. tt)
                λ price priced.
                  result_rule Q (time_of H parse_time d.last_updated) _ (λ e. tt)
                    λ last timed. (
                      fine,
                      quotes,
                      given (at_key symbol reply.symbols) no_data quotes there,
                      d,
                      given (at_key "USD" quotes) no_quote d found,
                      given d.price price_missing price priced,
                      said_time d.last_updated last timed,
                    )
    where
      Q : Result (Quote H) → Type 0
      Q = SaysIn symbol reply

  quote_of-SaysIn :
      (symbol : String) (reply : Reply H) → SaysIn symbol reply (quote_of H parse_time symbol reply)
  unfolding quote_of
  quote_of-SaysIn symbol reply = go (ltb_ℤ (pos 0) reply.error_code) refl
    where
      rest : Result (Quote H)
      rest = or_error (at_key symbol reply.symbols) no_data >>= λ quotes.
          quote_data H parse_time (at_key "USD" quotes)

      go :
          (b : Bool)
          → ltb_ℤ (pos 0) reply.error_code ≡ b
          → SaysIn symbol reply (if b then err service_error else rest)
      go true e = tt
      go false e = found_in symbol reply e

  read_quote :
      (symbol : String) (reply : Reply H) (q : Quote H)
      → Says symbol reply q
      → quote_of H parse_time symbol reply ≡ ok q
  unfolding quote_of
  read_quote symbol reply q (fine, quotes, there, d, found, priced, timed) =
      rw (fine, there, found, priced, read_time d.last_updated q.last_updated timed) refl

module _ (H : Host) (request : Url → (api_key symbol : String) → Action H.World (ℕ × String))
    (decode : String → Option (Reply H)) (parse_time : String → Option ℕ) where
  abbrev asked : Client → String → H.World → Result (ℕ × String)
  asked cli symbol w =
      (request (record (cli.base_url) { path = latest_quote_path }) cli.api_key symbol w).0

  -- The service has answered with a quote.
  abbrev pub Answered : Client → String → H.World → Quote H → Type 0
  Answered cli symbol w q =
      (body : String) × (reply : Reply H) × (asked cli symbol w ≡ ok (200, body))
      × (decode body ≡ some reply)
      × Says H parse_time symbol reply q

  of_body-Answered :
      (cli : Client) (symbol : String) (w : H.World) (q : Quote H) (body : String)
      → asked cli symbol w ≡ ok (200, body)
      → of_body H request decode parse_time symbol body ≡ ok q
      → Answered cli symbol w q
  of_body-Answered cli symbol w q body a h =
      let (reply, read, e) =
        bind_ok (or_error (decode body) bad_json) (quote_of H parse_time symbol) q h in
      (
        body,
        reply,
        a,
        given (decode body) bad_json reply read,
        subst (SaysIn H parse_time symbol reply) e (quote_of-SaysIn H parse_time symbol reply),
      )

  of_response-Answered :
      (cli : Client) (symbol : String) (w : H.World) (q : Quote H) (status : ℕ) (body : String)
      → asked cli symbol w ≡ ok (status, body)
      → of_response H request decode parse_time symbol (status, body) ≡ ok q
      → Answered cli symbol w q
  of_response-Answered cli symbol w q status body a h = go (status == 200) refl h
    where
      go :
          (b : Bool)
          → (status == 200) ≡ b
          → (if b then of_body H request decode parse_time symbol body else err bad_status) ≡ ok q
          → Answered cli symbol w q
      go true e k =
          of_body-Answered cli symbol w q body
            (subst (λ n. asked cli symbol w ≡ ok (n, body)) ((==_iff status 200).0 e) a) k
      go false e k = cc

  answered :
      (cli : Client) (symbol : String) (w : H.World) (q : Quote H)
      → (client_quote H request decode parse_time cli symbol w).0 ≡ ok q
      → Answered cli symbol w q
  unfolding client_quote
  answered cli symbol w q =
      bind_rule Q (request (record (cli.base_url) { path = latest_quote_path }) cli.api_key symbol)
        (λ response. of_result (of_response H request decode parse_time symbol response)) w
        (λ e h k. cc) λ (status, body) h k. of_response-Answered cli symbol w q status body h k
    where
      Q : Result (Quote H) × H.World → Type 0
      Q (r, w') = r ≡ ok q → Answered cli symbol w q

  answer :
      (cli : Client) (symbol : String) (w : H.World) (q : Quote H)
      → Answered cli symbol w q
      → (client_quote H request decode parse_time cli symbol w).0 ≡ ok q
  unfolding client_quote
  answer cli symbol w q (body, reply, a, read, says) =
      bind_rule (λ (r, w'). r ≡ ok q)
        (request (record (cli.base_url) { path = latest_quote_path }) cli.api_key symbol)
        (λ response. of_result (of_response H request decode parse_time symbol response)) w
        (λ e h. cc)
        λ response h.
          subst Quotes (sym a ∙ h) (rw read (read_quote H parse_time symbol reply q says))
    where
      Quotes : Result (ℕ × String) → Type 0
      Quotes (ok response) = of_response H request decode parse_time symbol response ≡ ok q
      Quotes (err e) = Unit

  -- GetQuote returns a quote just if the service answers the one request with status 200 and a reply
  -- without an error code, which has a quote of the symbol in USD with a price and, if there is a
  -- time, one that can be read; and it returns that price and time.
  pub client_quote-Answered :
      (cli : Client) (symbol : String) (w : H.World) (q : Quote H)
      → ((client_quote H request decode parse_time cli symbol w).0 ≡ ok q) ↔ Answered cli symbol w q
  client_quote-Answered cli symbol w q = (answered cli symbol w q, answer cli symbol w q)
