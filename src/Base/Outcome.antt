-- ===== src/Base/Outcome.antt =====
-- The result of a Go function that returns a value and an error, and a state monad over it.
use Prim.Native.Nat.{ℕ}
use mathlib.Core.Path.{◌≡◌, refl}
use mathlib.Core.Logic.{◌⊎◌, inl, inr}
use mathlib.Core.Bool.{Bool, true, false}
use mathlib.Core.Option.{Option, none, some}

-- What is wrong with a record of a CSV file.
pub data LineError : Type 0 where
  wrong_fields bad_header bad_payee bad_amount amount_not_positive : LineError
  empty_kind bad_mandatory bad_sanctioned bad_bonus : LineError

-- `failed n` is an error that a library or a remote service returned, `not_found` is
-- go-ethereum's sentinel; `out_of_fuel` is the model's own, for a loop that has not ended within
-- the fuel, as `still_waiting` is for the wait on a payer's preconditions. `on_line` numbers the
-- record of a CSV file that is refused. The line of `nil_dereference` lists panics, and that of
-- `no_table` what SQLite says of a schema. The others are the errors that the program itself makes.
pub data Error : Type 0 where
  failed : ℕ → Error
  on_line : ℕ → LineError → Error
  not_found canceled out_of_fuel still_waiting : Error
  nil_dereference few_decimals division_by_zero index_out_of_range : Error
  unique_violation foreign_key_violation no_rows : Error
  spender_changed owner_changed : Error
  bad_hash bad_address bad_usd bad_gas_price bad_storj_price bad_tokens bad_receipt bad_state :
      Error
  no_table table_exists no_column query_only unable_to_open : Error
  database_exists file_missing file_exists version_in_future no_migration metadata_missing : Error
  no_extension already_imported group_mismatch : Error
  used_nonce no_payouts tokens_not_positive not_enough_balance transactions_failed : Error
  multitransfer not_enough_allowance unsupported_transaction unexpected_state : Error
  resend_aborted not_one_transaction hash_mismatch unknown_status bad_payer_type : Error
  bad_max_gas bad_chain_id bad_max_fee bad_gas_tip_cap tip_too_high tip_negligible : Error
  url_missing bad_url key_missing bad_status bad_json service_error : Error
  no_data no_quote price_missing bad_time : Error

pub data Result {ℓ} (A : Type ℓ) : Type ℓ where
  ok : A → Result A
  err : Error → Result A

abbrev pub is_err {ℓ} : {A : Type ℓ} → Result A → Bool
is_err (ok a) = false
is_err (err e) = true

pub Result-cases {ℓ} :
    {A : Type ℓ} (r : Result A) → ((a : A) × (r ≡ ok a)) ⊎ ((e : Error) × (r ≡ err e))
Result-cases (ok a) = inl (a, refl)
Result-cases (err e) = inr (e, refl)

-- A call on a state: what was written stays written when the call fails.
abbrev pub Action {ℓ κ} : Type ℓ → Type κ → Type (ℓ ⊔ κ)
Action S A = S → Result A × S

module _ {ℓ} {S : Type ℓ} where
  infixl 5 ◌>>=◌ ◌>>◌
  abbrev pub ◌>>=◌ {κ μ} : {A : Type κ} {B : Type μ} → Action S A → (A → Action S B) → Action S B
  ◌>>=◌ m f s = let (r, s') = m s in elim r [ ok a ↦ f a s' | err e ↦ (err e, s') ]

  abbrev pub ◌>>◌ {κ} : {B : Type κ} → Action S (Unit {0}) → Action S B → Action S B
  m >> k = m >>= λ _. k

  abbrev pub pure {κ} : {A : Type κ} → A → Action S A
  pure a s = (ok a, s)

  abbrev pub raise {κ} : {A : Type κ} → Error → Action S A
  raise e s = (err e, s)

  abbrev pub gets {κ} : {A : Type κ} → (S → A) → Action S A
  gets f s = (ok (f s), s)

  abbrev pub modify : (S → S) → Action S (Unit {0})
  modify f s = (ok tt, f s)

  abbrev pub raise_if : Bool → Error → Action S (Unit {0})
  raise_if true e s = (err e, s)
  raise_if false e s = (ok tt, s)

  -- An `if` with no `else`.
  abbrev pub when : Bool → Action S (Unit {0}) → Action S (Unit {0})
  when true m s = m s
  when false m s = (ok tt, s)

  -- An `if` between two calls.
  abbrev pub choose {κ} : {A : Type κ} → Bool → Action S A → Action S A → Action S A
  choose true m k s = m s
  choose false m k s = k s

  -- A pure result, as a call.
  abbrev pub of_result {κ} : {A : Type κ} → Result A → Action S A
  of_result r s = (r, s)

abbrev pub or_error {ℓ} : {A : Type ℓ} → Option A → Error → Result A
or_error none e = err e
or_error (some a) e = ok a
