-- ===== src/Factory/Creating.antt =====
-- cmd/crybapy/factory_payer.go: CreatePayer; and NewPayer of pkg/eth/payer.go and of
-- pkg/zksyncera/payer.go, and NewSimPayer of pkg/payer/sim.go. Deferred closing is left out.
use crypto_batch_payment.Base.{ℕ, String, Option, none, some, Action, ◌>>=◌, pure, of_result}
use crypto_batch_payment.Base.Int.{ℤ}
use crypto_batch_payment.Host.{Host}
use crypto_batch_payment.Payer.{Payer}
use crypto_batch_payment.Payer.Sim.{sim_payer}
use crypto_batch_payment.Payer.Types.{PayerType, eth, sim, zksync_era, polygon, type_from_string}
use crypto_batch_payment.Eth.{Account, eth_payer}
use crypto_batch_payment.Zksyncera
use crypto_batch_payment.Zksyncera.{zksyncera_payer}
use crypto_batch_payment.Factory.{PayerConfig, Settings, Node, Outside, read_settings}

unfoldable pub new_zksyncera_payer : {H : Host} → Zksyncera.Client H → ℕ → Action H.World (Payer H)
new_zksyncera_payer C from = do decimals ← C.decimals; pure (zksyncera_payer C decimals from)

module _ {H : Host} {Key : Type 0} where
  -- A tip that is not set is the one that the node suggests.
  abbrev pub tip_or_suggested : Node H Key → Option ℤ → Action H.World ℤ
  tip_or_suggested N none = N.suggest_gas_tip_cap
  tip_or_suggested N (some tip) = pure tip

  abbrev pub with_account : Node H Key → Key → ℕ → Settings → ℤ → ℕ → Action H.World (Payer H)
  with_account N key from st tip decimals =
      let account : Account = record {
        owner = st.owner;
        from = from;
        gas_tip_cap = tip;
        max_gas = st.max_gas;
        token_decimals = decimals;
      } in
      pure (eth_payer (N.client st.contract_address key st.chain_id) account)

  unfoldable pub new_eth_payer : Node H Key → Key → ℕ → Settings → Action H.World (Payer H)
  new_eth_payer N key from st = do
    tip ← tip_or_suggested N st.gas_tip_cap
    decimals ← N.token_decimals st.contract_address
    with_account N key from st tip decimals

  unfoldable pub new_sim_payer : Outside H Key → Action H.World (Payer H)
  new_sim_payer O = do from ← O.random_address; pure (sim_payer O.random_hash O.wrap_hash from)

module _ {H : Host} {Key : Type 0} (O : Outside H Key) (node_address : String)
    (config : PayerConfig) where
  abbrev pub dial_and_make : Key → ℕ → Settings → Action H.World (Payer H)
  dial_and_make key from st = do N ← O.dial_eth node_address; new_eth_payer N key from st

  -- The `switch` on the payment method.
  unfoldable pub make_payer : Key → ℕ → Settings → PayerType → Action H.World (Payer H)
  make_payer key from st eth = dial_and_make key from st
  make_payer key from st polygon = dial_and_make key from st
  make_payer key from st zksync_era = do
    C ← O.dial_zksync_era node_address key st config
    new_zksyncera_payer C from
  make_payer key from st sim = new_sim_payer O

  abbrev pub read_and_make : String → Key × ℕ → Action H.World (Payer H)
  read_and_make chain (key, spender) = do
    st ← of_result (read_settings H O.parse_float spender config chain)
    type ← of_result (type_from_string O.to_lower config.payer_type)
    make_payer key spender st type

  unfoldable pub create_payer : (chain key_path : String) → Action H.World (Payer H)
  create_payer chain key_path = do loaded ← O.load_key key_path; read_and_make chain loaded
