-- ===== src/Payer/Types.antt =====
-- pkg/payer/types.go: the payment methods and their names.
pub mod Names
use crypto_batch_payment.Base.{String, ◌||◌, str_eq, if◌then◌else◌, Result, ok, err, bad_payer_type}

-- `Type`, which has these four values wherever it comes from TypeFromString.
pub data PayerType : Type 0 where
  eth sim zksync_era polygon : PayerType

unfoldable pub type_string : PayerType → String
type_string eth = "eth"
type_string sim = "sim"
type_string zksync_era = "zksync-era"
type_string polygon = "polygon"

-- The `switch` of TypeFromString, on the text in lower case.
unfoldable pub type_of_name : String → Result PayerType
type_of_name s =
    if str_eq s "eth"
    then ok eth
    else if str_eq s "polygon"
    then ok polygon
    else if str_eq s "zksync-era" || str_eq s "zksync2"
    then ok zksync_era
    else if str_eq s "sim"
    then ok sim
    else err bad_payer_type

-- `TypeFromString`; `to_lower` is strings.ToLower.
unfoldable pub type_from_string : (to_lower : String → String) → String → Result PayerType
type_from_string to_lower s = type_of_name (to_lower s)
