-- ===== src/Factory/Sound.antt =====
-- cmd/crybapy/factory_payer.go: which payer CreatePayer makes, and that it gives what the pipeline
-- relies on.
use crypto_batch_payment.Base.{
  ℕ, String, ◌≡◌, ◌↔◌, sym, subst, ok, Action, ◌>>=◌, pure, of_result, arith,
}
use crypto_batch_payment.Base.Rules.{bind_made, bind_inv}
use crypto_batch_payment.Host.{Host}
use crypto_batch_payment.Payer.{Payer, IsSound}
use crypto_batch_payment.Payer.Sim.{sim_payer, sim_payer-IsSound}
use crypto_batch_payment.Payer.Types.{PayerType, eth, sim, zksync_era, polygon, type_from_string}
use crypto_batch_payment.Zksyncera
use crypto_batch_payment.Zksyncera.{zksyncera_payer}
use crypto_batch_payment.Zksyncera.Sound.{zksyncera_payer-IsSound}
use crypto_batch_payment.Factory.{PayerConfig, Settings, Node, Outside, read_settings}
use crypto_batch_payment.Factory.Creating.{
  new_eth_payer, new_zksyncera_payer, new_sim_payer, dial_and_make, make_payer, read_and_make,
  create_payer,
}
use crypto_batch_payment.Factory.Dialed.{OnNode, new_eth_payer-OnNode, OnNode-IsSound}

module _ {H : Host} {Key : Type 0} (O : Outside H Key) (node_address : String)
    (config : PayerConfig) where
  -- The payer that a payment method stands for: the node is dialed at the address of the command.
  abbrev pub OfType : PayerType → Key → ℕ → Settings → H.World → Payer H → Type 0
  OfType eth key from st w P =
      (N : Node H Key) × ((O.dial_eth node_address w).0 ≡ ok N)
      × OnNode N key from st (O.dial_eth node_address w).1 P
  OfType polygon key from st w P =
      (N : Node H Key) × ((O.dial_eth node_address w).0 ≡ ok N)
      × OnNode N key from st (O.dial_eth node_address w).1 P
  OfType zksync_era key from st w P =
      let dial : Action H.World (Zksyncera.Client H) =
        O.dial_zksync_era node_address key st config in
      (C : Zksyncera.Client H) × ((dial w).0 ≡ ok C)
      × (decimals : ℕ) × ((C.decimals (dial w).1).0 ≡ ok decimals)
      × (P ≡ zksyncera_payer C decimals from)
  OfType sim key from st w P =
      (address : ℕ) × ((O.random_address w).0 ≡ ok address)
      × (P ≡ sim_payer {H = H} O.random_hash O.wrap_hash address)

  OfType-IsSound :
      (type : PayerType) (key : Key) (from : ℕ) (st : Settings) (w : H.World) (P : Payer H)
      → OfType type key from st w P
      → IsSound P
  OfType-IsSound eth key from st w P (N, dialed, made) = OnNode-IsSound N key from st _ P made
  OfType-IsSound polygon key from st w P (N, dialed, made) = OnNode-IsSound N key from st _ P made
  OfType-IsSound zksync_era key from st w P (C, dialed, decimals, d, e) =
      subst IsSound (sym e) (zksyncera_payer-IsSound C decimals from)
  OfType-IsSound sim key from st w P (address, a, e) =
      subst IsSound (sym e) (sim_payer-IsSound {H = H} O.random_hash O.wrap_hash address)

  dial_and_make-OfType :
      (key : Key) (from : ℕ) (st : Settings) (w : H.World) (P : Payer H)
      → ((dial_and_make O node_address config key from st w).0 ≡ ok P) ↔ OfType eth key from st w P
  dial_and_make-OfType key from st w P =
      let after = (O.dial_eth node_address w).1 in
      (
        λ h.
            let (N, dialed, h1) =
              bind_inv (O.dial_eth node_address) (λ N. new_eth_payer N key from st) w P h in
            (N, dialed, (new_eth_payer-OnNode N key from st after P).0 h1),
        λ (N, dialed, made).
            bind_made (O.dial_eth node_address) (λ N. new_eth_payer N key from st) w N P dialed
              ((new_eth_payer-OnNode N key from st after P).1 made),
      )

  dial_zksync_era-OfType :
      (key : Key) (from : ℕ) (st : Settings) (w : H.World) (P : Payer H)
      → ((make_payer O node_address config key from st zksync_era w).0 ≡ ok P)
        ↔ OfType zksync_era key from st w P
  unfolding make_payer new_zksyncera_payer
  dial_zksync_era-OfType key from st w P = (
    λ h.
        let (C, dialed, h1) = bind_inv dial (λ C. new_zksyncera_payer C from) w P h in
        let (decimals, d, h2) =
          bind_inv C.decimals (λ n. pure (zksyncera_payer C n from)) (dial w).1 P h1 in
        (C, dialed, decimals, d, ground (arith, h2)),
    λ (C, dialed, decimals, d, e).
        bind_made dial (λ C. new_zksyncera_payer C from) w C P dialed
          (bind_made C.decimals (λ n. pure (zksyncera_payer C n from)) (dial w).1 decimals P d
            (ground (arith, e))),
  )
    where
      dial : Action H.World (Zksyncera.Client H)
      dial = O.dial_zksync_era node_address key st config

  new_sim_payer-OfType :
      (key : Key) (from : ℕ) (st : Settings) (w : H.World) (P : Payer H)
      → ((new_sim_payer O w).0 ≡ ok P) ↔ OfType sim key from st w P
  unfolding new_sim_payer
  new_sim_payer-OfType key from st w P = (
    λ h.
        let (address, a, h1) = bind_inv O.random_address simulated w P h in
        (address, a, ground (arith, h1)),
    λ (address, a, e). bind_made O.random_address simulated w address P a (ground (arith, e)),
  )
    where
      simulated : ℕ → Action H.World (Payer H)
      simulated address = pure (sim_payer {H = H} O.random_hash O.wrap_hash address)

  make_payer-OfType :
      (type : PayerType) (key : Key) (from : ℕ) (st : Settings) (w : H.World) (P : Payer H)
      → ((make_payer O node_address config key from st type w).0 ≡ ok P)
        ↔ OfType type key from st w P
  unfolding make_payer
  make_payer-OfType eth key from st w P = dial_and_make-OfType key from st w P
  make_payer-OfType polygon key from st w P = dial_and_make-OfType key from st w P
  make_payer-OfType zksync_era key from st w P = dial_zksync_era-OfType key from st w P
  make_payer-OfType sim key from st w P = new_sim_payer-OfType key from st w P

  -- The key is loaded, the settings and the payment method are read, and the payer is the one that
  -- the method stands for.
  abbrev pub MadeBy : (chain key_path : String) → H.World → Payer H → Type 0
  MadeBy chain key_path w P =
      (key : Key) × (from : ℕ) × (st : Settings) × (type : PayerType) × ((O.load_key key_path w).0
        ≡ ok (key, from))
      × (read_settings H O.parse_float from config chain ≡ ok st)
      × (type_from_string O.to_lower config.payer_type ≡ ok type)
      × OfType type key from st (O.load_key key_path w).1 P

  read_and_make-OfType :
      (chain : String) (key : Key) (from : ℕ) (w : H.World) (P : Payer H)
      → ((read_and_make O node_address config chain (key, from) w).0 ≡ ok P) ↔ (
          (st : Settings) × (type : PayerType) × (read_settings H O.parse_float from config chain
            ≡ ok st)
          × (type_from_string O.to_lower config.payer_type ≡ ok type)
          × OfType type key from st w P)
  read_and_make-OfType chain key from w P = (
    λ h.
        let (st, s, h1) = bind_inv settings by_settings w P h in
        let (type, t, h2) = bind_inv method (make_payer O node_address config key from st) w P h1 in
        (st, type, s, t, (make_payer-OfType type key from st w P).0 h2),
    λ (st, type, s, t, made). bind_made settings by_settings w st P s (
        bind_made method (make_payer O node_address config key from st) w type P t
          ((make_payer-OfType type key from st w P).1 made)),
  )
    where
      settings : Action H.World Settings
      settings = of_result (read_settings H O.parse_float from config chain)

      method : Action H.World PayerType
      method = of_result (type_from_string O.to_lower config.payer_type)

      by_settings : Settings → Action H.World (Payer H)
      by_settings st = method >>= make_payer O node_address config key from st

  -- CreatePayer returns a payer just if the key is loaded, the settings and the payment method are
  -- read, and the calls that make the method's payer succeed, which it then returns: on Ethereum and
  -- Polygon the payer on the dialed node, with the owner, the limit of the gas and the tip of the
  -- settings, or else the tip that the node suggests; on zkSync Era the one on the dialed client; or
  -- the simulated one. And that payer gives what the pipeline relies on.
  pub create_payer-MadeBy :
      (chain key_path : String) (w : H.World) (P : Payer H)
      → ((create_payer O node_address config chain key_path w).0 ≡ ok P)
        ↔ (MadeBy chain key_path w P × IsSound P)
  unfolding create_payer
  create_payer-MadeBy chain key_path w P = (
    λ h.
        let ((key, from), k, h1) = bind_inv (O.load_key key_path) make w P h in
        let (st, type, s, t, made) = (read_and_make-OfType chain key from after P).0 h1 in
        ((key, from, st, type, k, s, t, made), OfType-IsSound type key from st after P made),
    λ ((key, from, st, type, k, s, t, made), sound).
        bind_made (O.load_key key_path) make w (key, from) P k
          ((read_and_make-OfType chain key from after P).1 (st, type, s, t, made)),
  )
    where
      make : Key × ℕ → Action H.World (Payer H)
      make = read_and_make O node_address config chain

      after : H.World
      after = (O.load_key key_path w).1
