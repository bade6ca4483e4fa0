-- ===== src/Payer/Sim.antt =====
-- pkg/payer/sim.go: the simulated payer. Its random hashes come from the world.
use crypto_batch_payment.Base.{
  ℕ, String, List, [], ◌∷◌, ◌≡◌, refl, none, Result, ok, err, Action, pure, not_one_transaction,
  arith,
}
use crypto_batch_payment.Base.Int.{pos}
use crypto_batch_payment.Host.{Host}
use crypto_batch_payment.Txstatus.{TxState, TxStatus, confirmed}
use crypto_batch_payment.Pipelinedb.{Transaction, NonceGroup}
use crypto_batch_payment.Payer.{Payer, Sound, IsSound}

module _ {H : Host} where
  -- The group must have one transaction, which is confirmed.
  abbrev pub confirm_only : List (Transaction H) → Result (TxState × List (TxStatus H))
  confirm_only [] = err not_one_transaction
  confirm_only (x ∷ []) =
      ok (confirmed, record { hash = x.hash; state = confirmed; receipt = none } ∷ [])
  confirm_only (x ∷ y ∷ xs) = err not_one_transaction

  -- `random_hash` stands for crypto/rand, and `wrap` for the map that holds the hash.
  unfoldable pub sim_payer : Action H.World String → (String → H.RawTx) → ℕ → Payer H
  sim_payer random_hash wrap from = record {
    next_nonce = pure 0;
    check_preconditions = pure [];
    get_token_balance = pure (pos 1000000000000);
    get_token_decimals = pure 8;
    create_raw_transaction = λ payouts nonce price w.
        let (r, w') = random_hash w in
        elim r [
          | ok h ↦ (ok (record { hash = h; nonce = nonce; raw = wrap h }, from), w')
          | err e ↦ (err e, w')
        ];
    send_transaction = λ tx. pure tt;
    check_nonce_group = λ g check_only w. (confirm_only g.txs, w);
  }

  confirm_only-Sound :
      (g : NonceGroup H) (xs : List (Transaction H)) → g.txs ≡ xs → Sound g (confirm_only xs)
  confirm_only-Sound g [] e = tt
  confirm_only-Sound g (x ∷ []) e = ground arith
  confirm_only-Sound g (x ∷ y ∷ xs) e = tt

  -- The simulated payer answers as the pipeline relies on: a group that it calls confirmed has a
  -- confirmed status for its transaction, and a transaction has the nonce that was asked for.
  pub sim_payer-IsSound :
      (random_hash : Action H.World String) (wrap : String → H.RawTx) (from : ℕ)
      → IsSound (sim_payer random_hash wrap from)
  unfolding sim_payer
  sim_payer-IsSound random_hash wrap from = record {
    sound = λ g check_only w. confirm_only-Sound g g.txs refl;
    nonce_kept = λ payouts nonce price w {raw} {from = f} h. ground arith;
  }
