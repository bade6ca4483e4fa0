-- ===== src/Coinmarketcap/Client.antt =====
-- pkg/coinmarketcap/client.go: the client of the price service. The HTTP request and the readers of
-- URLs, JSON and times are parameters.
use crypto_batch_payment.Base.{
  ℕ, String, Bool, true, not, ◌&&◌, ◌||◌, ◌==◌, str_eq, if◌then◌else◌, Option, none, some, List,
  Result, ok, err, or_error, url_missing, bad_url, key_missing, bad_status, bad_json, service_error,
  no_data, no_quote, price_missing, bad_time, Action, of_result, raise_if,
}
use crypto_batch_payment.Base
use crypto_batch_payment.Base.Bind.{◌>>=◌}
use crypto_batch_payment.Base.Int.{ℤ, pos, ltb_ℤ}
use crypto_batch_payment.Host.{Host}
use crypto_batch_payment.Coinmarketcap.{find}

pub record Url : Type 0 where
  pub scheme : String
  pub has_user : Bool
  pub host : String
  pub path : String
  pub raw_query : String
  pub fragment : String

-- The `switch` of parseAPIURL.
abbrev pub usable : Url → Bool
usable u =
    (str_eq u.scheme "http" || str_eq u.scheme "https")
    && not u.has_user
    && not (str_eq u.host "")
    && (str_eq u.path "" || str_eq u.path "/")
    && str_eq u.raw_query ""
    && str_eq u.fragment ""

unfoldable pub parse_api_url : (parse_url : String → Option Url) → String → Result Url
parse_api_url parse_url s =
    if str_eq s ""
    then err url_missing
    else do u ← or_error (parse_url s) bad_url; if usable u then ok u else err bad_url

-- `Client`
pub record Client : Type 0 where
  pub api_key : String
  pub base_url : Url

unfoldable pub new_client : (parse_url : String → Option Url) → String → String → Result Client
new_client parse_url api_url api_key = do
  u ← parse_api_url parse_url api_url
  if str_eq api_key "" then err key_missing else ok (record { api_key = api_key; base_url = u })

-- The JSON of a quote; a pointer that is nil is `none`.
pub record QuoteData (H : Host) : Type 0 where
  pub price : Option H.Decimal
  pub last_updated : Option String

pub record Reply (H : Host) : Type 0 where
  pub error_code : ℤ
  pub symbols : List (String × Option (List (String × Option (QuoteData H))))

-- `Quote`; Go's zero time is `none`.
pub record Quote (H : Host) : Type 0 where
  pub price : H.Decimal
  pub last_updated : Option ℕ

-- A key that is missing, or whose value is null, has none.
abbrev pub at_key : {V : Type 0} → String → List (String × Option V) → Option V
at_key k m = elim (find k m) [ none ↦ none | some v ↦ v ]

module _ (H : Host) (parse_time : String → Option ℕ) where
  abbrev pub time_of : Option String → Result (Option ℕ)
  time_of none = ok none
  time_of (some text) = do t ← or_error (parse_time text) bad_time; ok (some t)

  abbrev pub quote_data : Option (QuoteData H) → Result (Quote H)
  quote_data found = do
    q ← or_error found no_quote
    price ← or_error q.price price_missing
    last ← time_of q.last_updated
    ok (record { price = price; last_updated = last })

  unfoldable pub quote_of : String → Reply H → Result (Quote H)
  quote_of symbol reply = if ltb_ℤ (pos 0) reply.error_code then err service_error else do
    quotes ← or_error (at_key symbol reply.symbols) no_data
    quote_data (at_key "USD" quotes)

abbrev pub latest_quote_path : String
latest_quote_path = "/v1/cryptocurrency/quotes/latest"

module _ (H : Host) (request : Url → (api_key symbol : String) → Action H.World (ℕ × String))
    (decode : String → Option (Reply H)) (parse_time : String → Option ℕ) where
  abbrev pub of_body : String → String → Result (Quote H)
  of_body symbol body = do
    reply ← or_error (decode body) bad_json
    quote_of H parse_time symbol reply

  -- What is made of the status of the response and its body.
  abbrev pub of_response : String → ℕ × String → Result (Quote H)
  of_response symbol (status, body) = if status == 200 then of_body symbol body else err bad_status

  -- `GetQuote`, with USD as the currency.
  unfoldable pub client_quote : Client → String → Action H.World (Quote H)
  client_quote cli symbol =
      Base.◌>>=◌ (request (record (cli.base_url) { path = latest_quote_path }) cli.api_key symbol)
        λ response. of_result (of_response symbol response)
