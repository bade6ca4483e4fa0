-- ===== src/Base/Rules.antt =====
-- How to reason about a chain of calls: by the case in which each of them fails, and the rest.
use mathlib.Core.Path.{◌≡◌, refl, sym, ◌∙◌}
use mathlib.Core.Bool.{Bool, true, false}
use crypto_batch_payment.Base.Outcome.{
  Result, ok, err, Error, Action, ◌>>=◌, raise_if, when, choose,
}

module _ {S A B : Type 0} (Q : Result B × S → Type 0) where
  pub bind_rule :
      (m : Action S A) (f : A → Action S B) (s : S)
      → ((e : Error) → (m s).0 ≡ err e → Q (err e, (m s).1))
      → ((a : A) → (m s).0 ≡ ok a → Q (f a (m s).1))
      → Q ((m >>= f) s)
  bind_rule m f s failed rest = go (m s).0 failed rest
    where
      go :
          (r : Result A)
          → ((e : Error) → r ≡ err e → Q (err e, (m s).1))
          → ((a : A) → r ≡ ok a → Q (f a (m s).1))
          → Q (elim r [ ok a ↦ f a (m s).1 | err e ↦ (err e, (m s).1) ])
      go (ok a) failed rest = rest a refl
      go (err e) failed rest = failed e refl

module _ {S B : Type 0} (Q : Result B × S → Type 0) where
  pub raise_if_rule :
      (test : Bool) (e : Error) (rest : Unit {0} → Action S B) (s : S)
      → (test ≡ true → Q (err e, s))
      → (test ≡ false → Q (rest tt s))
      → Q ((raise_if test e >>= rest) s)
  raise_if_rule true e rest s refused passed = refused refl
  raise_if_rule false e rest s refused passed = passed refl

  pub choose_rule :
      (test : Bool) (m k : Action S B) (s : S)
      → (test ≡ true → Q (m s))
      → (test ≡ false → Q (k s))
      → Q (choose test m k s)
  choose_rule true m k s passed refused = passed refl
  choose_rule false m k s passed refused = refused refl

module _ {S : Type 0} (Q : Result (Unit {0}) × S → Type 0) where
  pub when_rule :
      (test : Bool) (m : Action S (Unit {0})) (s : S)
      → (test ≡ true → Q (m s))
      → (test ≡ false → Q (ok tt, s))
      → Q (when test m s)
  when_rule true m s done idle = done refl
  when_rule false m s done idle = idle refl

module _ {S A B : Type 0} where
  -- Two ways to go on that agree where the first call succeeds.
  pub bind_cong :
      (m : Action S A) (f g : A → Action S B) (s : S)
      → ((a : A) → (m s).0 ≡ ok a → f a (m s).1 ≡ g a (m s).1)
      → (m >>= f) s ≡ (m >>= g) s
  bind_cong m f g s same = go (m s).0 same
    where
      go :
          (r : Result A)
          → ((a : A) → r ≡ ok a → f a (m s).1 ≡ g a (m s).1)
          → elim r [ ok a ↦ f a (m s).1 | err e ↦ (err e, (m s).1) ]
            ≡ elim r [ ok a ↦ g a (m s).1 | err e ↦ (err e, (m s).1) ]
      go (ok a) same = same a refl
      go (err e) same = refl

module _ {S B : Type 0} where
  pub choose_cong :
      (test : Bool) (m n k : Action S B) (s : S)
      → (test ≡ true → m s ≡ n s)
      → choose test m k s ≡ choose test n k s
  choose_cong true m n k s same = same refl
  choose_cong false m n k s same = refl

module _ {S A B : Type 0} where
  -- A chain of two calls returns a value just if both return one.
  pub bind_made :
      (m : Action S A) (f : A → Action S B) (s : S) (a : A) (b : B)
      → (m s).0 ≡ ok a
      → (f a (m s).1).0 ≡ ok b
      → ((m >>= f) s).0 ≡ ok b
  bind_made m f s a b one two =
      bind_rule (λ (r, s'). r ≡ ok b) m f s (λ e h. cc)
        λ a' h. let same : ok a' ≡ ok a = sym h ∙ one in cc

  pub bind_inv :
      (m : Action S A) (f : A → Action S B) (s : S) (b : B)
      → ((m >>= f) s).0 ≡ ok b
      → (a : A) × ((m s).0 ≡ ok a) × ((f a (m s).1).0 ≡ ok b)
  bind_inv m f s b =
      bind_rule (λ (r, s'). r ≡ ok b → (a : A) × ((m s).0 ≡ ok a) × ((f a (m s).1).0 ≡ ok b)) m f s
        (λ e h failed. cc) λ a h there. (a, h, there)
