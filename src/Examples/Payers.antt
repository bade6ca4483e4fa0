-- ===== src/Examples/Payers.antt =====
-- Settings of a payer, a payer that waits, a price, and the theorems at these.
use crypto_batch_payment.Base.{
  ℕ, suc, ◌≡◌, ◌↔◌, false, String, true, none, some, Option, Bool, [], ◌∷◌, ltb, if◌then◌else◌,
  refl, ok, pure,
}
use crypto_batch_payment.Base.Int.{ℤ, pos}
use crypto_batch_payment.Helpers.{address_from_string}
use crypto_batch_payment.Payer.{Payer, IsSound}
use crypto_batch_payment.Eth.{eth_payer}
use crypto_batch_payment.Pipeline.Send.{wait_preconditions}
use crypto_batch_payment.Pipeline.Waiting.{MetWithin, wait_preconditions-MetWithin}
use crypto_batch_payment.Coinmarketcap.Client.{
  Url, Client, new_client, parse_api_url, Reply, Quote, client_quote,
}
use crypto_batch_payment.Coinmarketcap.Quoted.{Answered, client_quote-Answered}
use crypto_batch_payment.Factory.{PayerConfig, Settings, Outside, read_settings}
use crypto_batch_payment.Factory.Creating.{create_payer}
use crypto_batch_payment.Factory.Limits.{Accepted, read_settings-Accepted}
use crypto_batch_payment.Factory.Sound.{MadeBy, create_payer-MadeBy}
use crypto_batch_payment.Examples.{host, sim, quoter, cfg, node, zk_client, digit}

-- The gas is too dear until the third second.
abbrev dear : Payer host
dear = record sim { check_preconditions = λ w. (ok (if ltb w 3 then "gas" ∷ [] else []), suc w) }

wait_preconditions-MetWithin_example :
    ((wait_preconditions dear quoter 1 cfg 2 1).0 ≡ ok tt) ↔ MetWithin dear 2 1
wait_preconditions-MetWithin_example = wait_preconditions-MetWithin dear quoter 1 cfg 2 1

abbrev config : PayerConfig
config = record {
  payer_type = "eth";
  contract_address = "3";
  owner = "";
  max_gas = "2";
  max_fee = "";
  gas_tip_cap = "";
  paymaster_address = "";
  paymaster_payload = "";
}

abbrev whole : String → Option (ℤ × Bool)
whole s = some (pos 1, true)

abbrev outside : Outside host ℕ
outside = record {
  to_lower = λ s. s;
  parse_float = whole;
  load_key = λ path. pure (7, 1);
  dial_eth = λ address. pure (record {
    client = λ contract key chain. node;
    suggest_gas_tip_cap = pure (pos 1);
    token_decimals = λ contract. pure 8;
  });
  dial_zksync_era = λ address key st c. pure zk_client;
  random_address = pure 1;
  random_hash = λ w. (ok (digit w), suc w);
  wrap_hash = λ h. h;
}

abbrev made_payer : Payer host
made_payer =
    eth_payer node
      (record { owner = 1; from = 1; gas_tip_cap = pos 1; max_gas = pos 2; token_decimals = 8 })

create_payer-MadeBy_example :
    ((create_payer outside "node" config "1" "key" 1).0 ≡ ok made_payer)
    ↔ (MadeBy outside "node" config "1" "key" 1 made_payer × IsSound made_payer)
create_payer-MadeBy_example = create_payer-MadeBy outside "node" config "1" "key" 1 made_payer

abbrev settings : Settings
settings = record {
  max_gas = pos 2;
  owner = 1;
  contract_address = 3;
  chain_id = pos 1;
  max_fee = none;
  gas_tip_cap = none;
}

settings_read : read_settings host whole 1 config "1" ≡ ok settings
unfolding read_settings address_from_string
settings_read = refl

read_settings-Accepted_example : Accepted host whole 1 config "1" settings
read_settings-Accepted_example =
    read_settings-Accepted host whole 1 config "1" settings settings_read

abbrev api : Url
api = record {
  scheme = "https";
  has_user = false;
  host = "pro-api.coinmarketcap.com";
  path = "";
  raw_query = "";
  fragment = "";
}

abbrev prices_client : Client
prices_client = record { api_key = "key"; base_url = api }

made : new_client (λ s. some api) "https://pro-api.coinmarketcap.com" "key" ≡ ok prices_client
unfolding new_client parse_api_url
made = refl

abbrev reply : Reply host
reply = record {
  error_code = pos 0;
  symbols =
      ("STORJ", some (("USD", some (record { price = some 2; last_updated = none })) ∷ [])) ∷ [];
}

abbrev price : Quote host
price = record { price = 2; last_updated = none }

client_quote-Answered_example :
    ((client_quote host
        (λ u key symbol. pure (200, "body"))
        (λ body. some reply)
        (λ text. none)
        prices_client
        "STORJ"
        1).0
      ≡ ok price)
    ↔ Answered host
        (λ u key symbol. pure (200, "body"))
        (λ body. some reply)
        (λ text. none)
        prices_client
        "STORJ"
        1
        price
client_quote-Answered_example =
    client_quote-Answered host (λ u key symbol. pure (200, "body")) (λ body. some reply)
      (λ text. none) prices_client "STORJ" 1 price
