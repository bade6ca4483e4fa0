-- ===== src/Factory.antt =====
-- cmd/crybapy/factory_payer.go: what CreatePayer reads of the command's settings. Dialing, keys and
-- contracts are parameters.
pub mod Creating
pub mod Limits
pub mod Dialed
pub mod Sound
use crypto_batch_payment.Base.{
  ℕ, String, Bool, str_eq, if◌then◌else◌, Option, none, some, Result, ok, err, or_error,
  bad_max_gas, bad_chain_id, bad_max_fee, bad_gas_tip_cap, tip_too_high, tip_negligible, Action,
}
use crypto_batch_payment.Base.Bind.{◌>>=◌}
use crypto_batch_payment.Base.Int.{ℤ, pos, ltb_ℤ}
use crypto_batch_payment.Host.{Host}
use crypto_batch_payment.Helpers.{address_from_string}
use crypto_batch_payment.Eth
use crypto_batch_payment.Zksyncera

-- The settings, as texts.
pub record PayerConfig : Type 0 where
  pub payer_type : String
  pub contract_address : String
  pub owner : String
  pub max_gas : String
  pub max_fee : String
  pub gas_tip_cap : String
  pub paymaster_address : String
  pub paymaster_payload : String

-- What CreatePayer reads of them.
pub record Settings : Type 0 where
  pub max_gas : ℤ
  pub owner : ℕ
  pub contract_address : ℕ
  pub chain_id : ℤ
  pub max_fee : Option ℤ
  pub gas_tip_cap : Option ℤ

-- A node of Ethereum that has been dialed. The client signs with a key for a chain, and calls a
-- token contract.
pub record Node (H : Host) (Key : Type 0) : Type 0 where
  pub client : (contract : ℕ) → Key → (chain_id : ℤ) → Eth.Client H
  pub suggest_gas_tip_cap : Action H.World ℤ
  pub token_decimals : (contract : ℕ) → Action H.World ℕ

-- What the command uses and does not implement. `load_key` is loadETHKey with the address of the
-- key; `parse_float` is the integer part of a big.Float, with whether it is exact; `dial_zksync_era`
-- makes the wallet and the client.
pub record Outside (H : Host) (Key : Type 0) : Type 0 where
  pub to_lower : String → String
  pub parse_float : String → Option (ℤ × Bool)
  pub load_key : String → Action H.World (Key × ℕ)
  pub dial_eth : String → Action H.World (Node H Key)
  pub dial_zksync_era :
      (node_address : String) → Key → Settings → PayerConfig → Action H.World (Zksyncera.Client H)
  pub random_address : Action H.World ℕ
  pub random_hash : Action H.World String
  pub wrap_hash : String → H.RawTx

-- `convertInt`
abbrev pub exact_int : Option (ℤ × Bool) → Result ℤ
exact_int none = err bad_chain_id
exact_int (some (i, exact)) = if exact then ok i else err bad_chain_id

-- The two limits of the gas tip, in wei.
unfoldable pub check_tip : ℤ → Result (Option ℤ)
check_tip tip =
    if ltb_ℤ (pos 30000000000) tip
    then err tip_too_high
    else if ltb_ℤ tip (pos 100)
    then err tip_negligible
    else ok (some tip)

module _ (H : Host) where
  -- A fee that may be left empty.
  abbrev pub optional_fee : String → Result (Option ℤ)
  optional_fee s =
      if str_eq s ""
      then ok none
      else do fee ← or_error (H.int_from_string s) bad_max_fee; ok (some fee)

  abbrev pub optional_tip : String → Result (Option ℤ)
  optional_tip s =
      if str_eq s ""
      then ok none
      else do tip ← or_error (H.int_from_string s) bad_gas_tip_cap; check_tip tip

  -- The owner is the spender unless there is another.
  abbrev pub owner_or : ℕ → String → Result ℕ
  owner_or spender s = if str_eq s "" then ok spender else address_from_string H s

  unfoldable pub read_settings :
      (parse_float : String → Option (ℤ × Bool)) (spender : ℕ)
      → PayerConfig
      → String
      → Result Settings
  read_settings parse_float spender config chain = do
    max_gas ← or_error (H.int_from_string config.max_gas) bad_max_gas
    owner ← owner_or spender config.owner
    contract ← address_from_string H config.contract_address
    chain_id ← exact_int (parse_float chain)
    max_fee ← optional_fee config.max_fee
    tip ← optional_tip config.gas_tip_cap
    ok (record {
      max_gas = max_gas;
      owner = owner;
      contract_address = contract;
      chain_id = chain_id;
      max_fee = max_fee;
      gas_tip_cap = tip;
    })
