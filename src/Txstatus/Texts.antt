-- ===== src/Txstatus/Texts.antt =====
-- pkg/pipelinedb/txstatus.go: a state and its text.
use crypto_batch_payment.Base.{String, ◌≡◌, refl, subst, some, eq_iff, ◌↔◌, arith}
use crypto_batch_payment.Txstatus.{
  TxState, pending, dropped, failed_tx, confirmed, tx_state_string, tx_state_from_string,
}

state_of_string : (s : TxState) → tx_state_from_string (tx_state_string s) ≡ some s
unfolding tx_state_from_string tx_state_string
state_of_string pending = refl
state_of_string dropped = refl
state_of_string failed_tx = refl
state_of_string confirmed = refl

string_of_state :
    (text : String) (s : TxState) → tx_state_from_string text ≡ some s → tx_state_string s ≡ text
unfolding tx_state_from_string tx_state_string
string_of_state text s h = ground (
  arith,
  eq_iff text "pending",
  eq_iff text "dropped",
  eq_iff text "failed",
  eq_iff text "confirmed",
)

-- A text is read as a state just if it is the text of that state.
pub tx_state_from_string-tx_state_string :
    (text : String) (s : TxState)
    → (tx_state_from_string text ≡ some s) ↔ (tx_state_string s ≡ text)
tx_state_from_string-tx_state_string text s = (
  string_of_state text s,
  λ e. subst (λ t. tx_state_from_string t ≡ some s) e (state_of_string s),
)
