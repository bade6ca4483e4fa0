-- ===== src/Txstatus.antt =====
-- pkg/pipelinedb/txstatus.go: the states of a transaction and their texts.
pub mod Texts
use crypto_batch_payment.Base.{String, Bool, true, false, Option, none, some, str_eq, if◌then◌else◌}
use crypto_batch_payment.Host.{Host}

pub data TxState : Type 0 where
  pending dropped failed_tx confirmed : TxState

pub TxState-discrete : Discrete TxState
TxState-discrete = hlevel

-- `string(state)`
unfoldable pub tx_state_string : TxState → String
tx_state_string pending = "pending"
tx_state_string dropped = "dropped"
tx_state_string failed_tx = "failed"
tx_state_string confirmed = "confirmed"

-- `TxStateFromString`; `none` is its false.
unfoldable pub tx_state_from_string : String → Option TxState
tx_state_from_string s =
    if str_eq s "pending"
    then some pending
    else if str_eq s "dropped"
    then some dropped
    else if str_eq s "failed"
    then some failed_tx
    else if str_eq s "confirmed"
    then some confirmed
    else none

abbrev pub is_confirmed : TxState → Bool
is_confirmed confirmed = true
is_confirmed _ = false

abbrev pub is_dropped : TxState → Bool
is_dropped dropped = true
is_dropped _ = false

-- `receipt` is `none` where the Go pointer is nil.
pub record TxStatus (H : Host) : Type 0 where
  pub hash : String
  pub state : TxState
  pub receipt : Option H.Receipt
