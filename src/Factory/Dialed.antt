-- ===== src/Factory/Dialed.antt =====
-- pkg/eth/payer.go: the payer that NewPayer makes on a node which has been dialed.
use crypto_batch_payment.Base.{
  ℕ, ◌≡◌, ◌↔◌, refl, sym, subst, Option, none, some, ok, Action, ◌>>=◌, arith,
}
use crypto_batch_payment.Base.Int.{ℤ}
use crypto_batch_payment.Base.Rules.{bind_made, bind_inv}
use crypto_batch_payment.Host.{Host}
use crypto_batch_payment.Payer.{Payer, IsSound}
use crypto_batch_payment.Eth.{eth_payer}
use crypto_batch_payment.Eth.Sound.{eth_payer-IsSound}
use crypto_batch_payment.Factory.{Settings, Node}
use crypto_batch_payment.Factory.Creating.{tip_or_suggested, with_account, new_eth_payer}

module _ {H : Host} {Key : Type 0} where
  -- The tip is the one that is set, or else the node's suggestion.
  abbrev pub TipOf : Node H Key → Option ℤ → ℤ → H.World → Type 0
  TipOf N none tip w = (N.suggest_gas_tip_cap w).0 ≡ ok tip
  TipOf N (some set) tip w = tip ≡ set

  abbrev pub after_tip : Node H Key → Option ℤ → H.World → H.World
  after_tip N none w = (N.suggest_gas_tip_cap w).1
  after_tip N (some set) w = w

  -- The payer on a node, with the key, the settings, and the decimals of the token contract.
  abbrev pub OnNode : Node H Key → Key → ℕ → Settings → H.World → Payer H → Type 0
  OnNode N key from st w P =
      (tip : ℤ) × (decimals : ℕ) × TipOf N st.gas_tip_cap tip w
      × ((N.token_decimals st.contract_address (after_tip N st.gas_tip_cap w)).0 ≡ ok decimals)
      × (P
          ≡ eth_payer (N.client st.contract_address key st.chain_id) (record {
            owner = st.owner;
            from = from;
            gas_tip_cap = tip;
            max_gas = st.max_gas;
            token_decimals = decimals;
          }))

  tipped :
      (N : Node H Key) (set : Option ℤ) (k : ℤ → Action H.World (Payer H)) (w : H.World)
      (P : Payer H)
      → ((tip_or_suggested N set >>= k) w).0 ≡ ok P
      → (tip : ℤ) × TipOf N set tip w × ((k tip (after_tip N set w)).0 ≡ ok P)
  tipped N none k w P h = bind_inv N.suggest_gas_tip_cap k w P h
  tipped N (some set) k w P h = (set, refl, h)

  untipped :
      (N : Node H Key) (set : Option ℤ) (k : ℤ → Action H.World (Payer H)) (w : H.World)
      (P : Payer H) (tip : ℤ)
      → TipOf N set tip w
      → (k tip (after_tip N set w)).0 ≡ ok P
      → ((tip_or_suggested N set >>= k) w).0 ≡ ok P
  untipped N none k w P tip said h = bind_made N.suggest_gas_tip_cap k w tip P said h
  untipped N (some set) k w P tip said h = subst (λ t. (k t w).0 ≡ ok P) said h

  pub new_eth_payer-OnNode :
      (N : Node H Key) (key : Key) (from : ℕ) (st : Settings) (w : H.World) (P : Payer H)
      → ((new_eth_payer N key from st w).0 ≡ ok P) ↔ OnNode N key from st w P
  unfolding new_eth_payer
  new_eth_payer-OnNode N key from st w P = (
    λ h.
        let (tip, said, h1) =
          tipped N st.gas_tip_cap
            (λ tip. N.token_decimals st.contract_address >>= with_account N key from st tip) w P
            h in
        let (decimals, d, h2) =
          bind_inv (N.token_decimals st.contract_address) (with_account N key from st tip)
            (after_tip N st.gas_tip_cap w) P h1 in
        (tip, decimals, said, d, ground (arith, h2)),
    λ (tip, decimals, said, d, e).
        untipped N st.gas_tip_cap
          (λ tip. N.token_decimals st.contract_address >>= with_account N key from st tip) w P tip
          said
          (bind_made (N.token_decimals st.contract_address) (with_account N key from st tip)
            (after_tip N st.gas_tip_cap w) decimals P d (ground (arith, e))),
  )

  pub OnNode-IsSound :
      (N : Node H Key) (key : Key) (from : ℕ) (st : Settings) (w : H.World) (P : Payer H)
      → OnNode N key from st w P
      → IsSound P
  OnNode-IsSound N key from st w P (tip, decimals, said, d, e) =
      subst IsSound (sym e) (eth_payer-IsSound (N.client st.contract_address key st.chain_id) _)
