-- ===== src/Base/Bind.antt =====
-- Go's `if err != nil { return nil, err }` between calls that change no state.
use mathlib.Core.Path.{◌≡◌, refl}
use crypto_batch_payment.Base.Outcome.{Result, ok, err, Error}

module _ {ℓ κ} {A : Type ℓ} {B : Type κ} where
  infixl 5 ◌>>=◌
  abbrev pub ◌>>=◌ : Result A → (A → Result B) → Result B
  ◌>>=◌ (err e) next = err e
  ◌>>=◌ (ok value) next = next value

module _ {A B : Type 0} where
  -- A chain that ends without an error has had a first value.
  pub bind_ok :
      (r : Result A) (f : A → Result B) (b : B)
      → r >>= f ≡ ok b
      → (a : A) × (r ≡ ok a) × (f a ≡ ok b)
  bind_ok (err e) f b h = cc
  bind_ok (ok a) f b h = (a, refl, h)

  -- What holds of each error, and of what follows each value, holds of a chain.
  pub result_rule :
      (Q : Result B → Type 0) (r : Result A) (f : A → Result B)
      → ((e : Error) → Q (err e))
      → ((a : A) → r ≡ ok a → Q (f a))
      → Q (r >>= f)
  result_rule Q (err e) f failed rest = failed e
  result_rule Q (ok a) f failed rest = rest a refl
