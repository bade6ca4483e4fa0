-- ===== src/Factory/Limits.antt =====
-- cmd/crybapy/factory_payer.go: the settings that CreatePayer accepts.
use crypto_batch_payment.Base.{
  ℕ, String, Bool, true, false, Error, eq_iff, str_eq, if◌then◌else◌, ◌≡◌, ◌⊎◌, subst, Option, none,
  some, Result, ok, err, or_error, bad_max_gas, bad_gas_tip_cap, arith,
}
use crypto_batch_payment.Base.Bind.{◌>>=◌, bind_ok, result_rule}
use crypto_batch_payment.Base.Int.{ℤ, pos, ◌≤ℤ◌}
use crypto_batch_payment.Host.{Host}
use crypto_batch_payment.Helpers.{address_from_string}
use crypto_batch_payment.Factory.{
  PayerConfig, Settings, check_tip, optional_fee, optional_tip, exact_int, owner_or, read_settings,
}

-- At least 100 wei and at most 30 gwei; or it is not set.
abbrev pub TipWithin : Option ℤ → Type 0
TipWithin none = Unit
TipWithin (some tip) = (pos 100 ≤ℤ tip) × (tip ≤ℤ pos 30000000000)

check_tip-TipWithin : (t : ℤ) (tip : Option ℤ) → check_tip t ≡ ok tip → TipWithin tip
unfolding check_tip
check_tip-TipWithin t none h = tt
check_tip-TipWithin t (some tip) h = ground arith

module _ (H : Host) where
  optional_tip-TipWithin : (s : String) (tip : Option ℤ) → optional_tip H s ≡ ok tip → TipWithin tip
  optional_tip-TipWithin s tip h = go (str_eq s "") h
    where
      read : Result (Option ℤ)
      read = or_error (H.int_from_string s) bad_gas_tip_cap >>= check_tip

      go : (b : Bool) → (if b then ok none else read) ≡ ok tip → TipWithin tip
      go true e = ground (arith, e)
      go false e =
          let (t, _, checked) =
            bind_ok (or_error (H.int_from_string s) bad_gas_tip_cap) check_tip tip e in
          check_tip-TipWithin t tip checked

  exact_int_lem : (n : Option (ℤ × Bool)) (i : ℤ) → exact_int n ≡ ok i → n ≡ some (i, true)
  exact_int_lem none i h = cc
  exact_int_lem (some (j, true)) i h = ground (arith, h)
  exact_int_lem (some (j, false)) i h = cc

  owner_or_lem :
      (spender : ℕ) (s : String) (owner : ℕ)
      → owner_or H spender s ≡ ok owner
      → ((s ≡ "") × (owner ≡ spender)) ⊎ (address_from_string H s ≡ ok owner)
  owner_or_lem spender s owner h = ground (arith, eq_iff s "", h)

  or_error_lem : (o : Option ℤ) (e : Error) (i : ℤ) → or_error o e ≡ ok i → o ≡ some i
  or_error_lem none e i h = cc
  or_error_lem (some j) e i h = ground (arith, h)

  -- What is read of the settings: the gas tip is within its limits, the chain is a whole number, and
  -- the owner is the spender where no other is given.
  abbrev pub Accepted : (String → Option (ℤ × Bool)) → ℕ → PayerConfig → String → Settings → Type 0
  Accepted parse_float spender config chain st =
      TipWithin st.gas_tip_cap
      × (parse_float chain ≡ some (st.chain_id, true))
      × (H.int_from_string config.max_gas ≡ some st.max_gas)
      × (((config.owner ≡ "") × (st.owner ≡ spender))
          ⊎ (address_from_string H config.owner ≡ ok st.owner))

  -- Settings that are accepted, or an error.
  abbrev AcceptedIn :
      (String → Option (ℤ × Bool)) → ℕ → PayerConfig → String → Result Settings → Type 0
  AcceptedIn parse_float spender config chain (ok st) = Accepted parse_float spender config chain st
  AcceptedIn parse_float spender config chain (err e) = Unit

  read_settings-AcceptedIn :
      (parse_float : String → Option (ℤ × Bool)) (spender : ℕ) (config : PayerConfig)
      (chain : String)
      → AcceptedIn parse_float spender config chain
          (read_settings H parse_float spender config chain)
  unfolding read_settings
  read_settings-AcceptedIn parse_float spender config chain =
      result_rule Q (or_error (H.int_from_string config.max_gas) bad_max_gas) _ (λ e. tt)
        λ max_gas gas.
          result_rule Q (owner_or H spender config.owner) _ (λ e. tt)
            λ owner own.
              result_rule Q (address_from_string H config.contract_address) _ (λ e. tt)
                λ contract _.
                  result_rule Q (exact_int (parse_float chain)) _ (λ e. tt)
                    λ chain_id exact.
                      result_rule Q (optional_fee H config.max_fee) _ (λ e. tt)
                        λ max_fee _.
                          result_rule Q (optional_tip H config.gas_tip_cap) _ (λ e. tt)
                            λ tip within. (
                              optional_tip-TipWithin config.gas_tip_cap tip within,
                              exact_int_lem (parse_float chain) chain_id exact,
                              or_error_lem (H.int_from_string config.max_gas) bad_max_gas max_gas
                                  gas,
                              owner_or_lem spender config.owner owner own,
                            )
    where
      Q : Result Settings → Type 0
      Q = AcceptedIn parse_float spender config chain

  -- Settings that are read have a gas tip within the limits of 100 wei and 30 gwei, or none; a whole
  -- number as chain; the gas limit that is written; and the spender as owner, if no other is
  -- written.
  pub read_settings-Accepted :
      (parse_float : String → Option (ℤ × Bool)) (spender : ℕ) (config : PayerConfig)
      (chain : String) (st : Settings)
      → read_settings H parse_float spender config chain ≡ ok st
      → Accepted parse_float spender config chain st
  read_settings-Accepted parse_float spender config chain st h =
      subst (AcceptedIn parse_float spender config chain) h
        (read_settings-AcceptedIn parse_float spender config chain)
