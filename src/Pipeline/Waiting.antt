-- ===== src/Pipeline/Waiting.antt =====
-- pkg/pipeline/pipeline.go: the wait of sendTransaction for the payer's preconditions.
use crypto_batch_payment.Base.{
  ℕ, zero, suc, ◌<◌, refl, ◌≡◌, ◌↔◌, String, Bool, true, false, List, [], ◌∷◌, Result, ok, err,
  Action, arith,
}
use crypto_batch_payment.Host.{Host}
use crypto_batch_payment.Payer.{Payer}
use crypto_batch_payment.Pipeline.{Config}
use crypto_batch_payment.Pipeline.Send.{wait_preconditions}

module _ {H : Host} (P : Payer H) where
  -- The world after a number of questions, with a pause of five seconds after each.
  abbrev pub world_at : ℕ → H.World → H.World
  world_at zero w = w
  world_at (suc k) w = world_at k (H.sleep_canceled 5000000000 (P.check_preconditions w).1).1

  -- A question in this world is answered with unmet preconditions, and the pause is not cancelled.
  abbrev pub Unmet : H.World → Type 0
  Unmet w =
      (x : String) × (xs : List String) × ((P.check_preconditions w).0 ≡ ok (x ∷ xs))
      × ((H.sleep_canceled 5000000000 (P.check_preconditions w).1).0 ≡ false)

  -- One of the first `n` questions is answered with no unmet precondition, and all before with some.
  abbrev pub MetWithin : ℕ → H.World → Type 0
  MetWithin n w =
      (k : ℕ) × (k < n)
      × ((P.check_preconditions (world_at k w)).0 ≡ ok [])
      × ((j : ℕ) → j < k → Unmet (world_at j w))

  later :
      (n : ℕ) (w : H.World)
      → Unmet w
      → MetWithin n (H.sleep_canceled 5000000000 (P.check_preconditions w).1).1
      → MetWithin (suc n) w
  later n w first (k, lt, met, unmet) = (suc k, omega arith, met, before)
    where
      before : (j : ℕ) → j < suc k → Unmet (world_at j w)
      before zero le = first
      before (suc j) le = unmet j (omega arith)

module _ {H : Host} (P : Payer H) (quoter : Action H.World H.Decimal) (fuel : ℕ)
    (cfg : Config) where
  only_met :
      (n : ℕ) (w : H.World) → (wait_preconditions P quoter fuel cfg n w).0 ≡ ok tt → MetWithin P n w
  unfolding wait_preconditions
  only_met zero w h = cc
  only_met (suc n) w h = answered (only_met n _) (P.check_preconditions w).0 refl
    where
      w1 : H.World
      w1 = (P.check_preconditions w).1

      Rest : Type 0
      Rest =
          (wait_preconditions P quoter fuel cfg n (H.sleep_canceled 5000000000 w1).1).0 ≡ ok tt
          → MetWithin P n (H.sleep_canceled 5000000000 w1).1

      slept :
          Rest
          → (x : String) (xs : List String) (stopped : Bool)
          → (P.check_preconditions w).0 ≡ ok (x ∷ xs)
          → (H.sleep_canceled 5000000000 w1).0 ≡ stopped
          → MetWithin P (suc n) w
      slept rest x xs true asked s = ground arith
      slept rest x xs false asked s = later P n w (x, xs, asked, s) (rest (ground arith))

      answered :
          Rest
          → (r : Result (List String)) → (P.check_preconditions w).0 ≡ r
          → MetWithin P (suc n) w
      answered rest (err e) asked = ground arith
      answered rest (ok []) asked = (zero, omega arith, asked, λ j le. absurd (omega (arith, le)))
      answered rest (ok (x ∷ xs)) asked =
          slept rest x xs (H.sleep_canceled 5000000000 w1).0 asked refl

  met_only :
      (n : ℕ) (w : H.World) → MetWithin P n w → (wait_preconditions P quoter fuel cfg n w).0 ≡ ok tt
  unfolding wait_preconditions
  met_only zero w (k, lt, met, unmet) = absurd (omega (arith, lt))
  met_only (suc n) w (zero, lt, met, unmet) = ground arith
  met_only (suc n) w (suc k, lt, met, unmet) =
      let (x, xs, asked, slept) = unmet zero (omega arith) in
      let rest : (wait_preconditions P quoter fuel cfg n
            (H.sleep_canceled 5000000000 (P.check_preconditions w).1).1).0
          ≡ ok tt =
        met_only n _ (k, omega (arith, lt), met, λ j le. unmet (suc j) (omega (arith, le))) in
      ground (arith, asked, slept, rest)

  -- With fuel for `n` questions the wait ends without an error just if one of the first `n`
  -- questions, five seconds apart, is answered with no unmet precondition, and before it each is
  -- answered with some, and no pause is cancelled.
  pub wait_preconditions-MetWithin :
      (n : ℕ) (w : H.World)
      → ((wait_preconditions P quoter fuel cfg n w).0 ≡ ok tt) ↔ MetWithin P n w
  wait_preconditions-MetWithin n w = (only_met n w, met_only n w)
