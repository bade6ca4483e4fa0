-- ===== src/Payoutdb/Atomic.antt =====
-- pkg/payoutdb/common.go: WithTx leaves all of the work or none.
use crypto_batch_payment.Base.{◌≡◌, ok, err, Error, Action, arith}
use crypto_batch_payment.Host.{Host}
use crypto_batch_payment.Payoutdb.{Conn, with_tx}

module _ {H : Host} {A : Type 0} where
  -- Whatever `fn` does, and whichever statement the disk refuses, BEGIN and COMMIT included: if
  -- `WithTx` returns an error, the tables are as they were.
  pub with_tx_atomic :
      (fn : Action (Conn H) A) (c : Conn H) {e : Error}
      → (with_tx fn c).0 ≡ err e
      → (with_tx fn c).1.tables ≡ c.tables
  unfolding with_tx
  with_tx_atomic fn c h = ground arith

  -- If it does not, the tables are those that `fn` has left.
  pub with_tx_done :
      (fn : Action (Conn H) A) (c : Conn H) {a : A}
      → (with_tx fn c).0 ≡ ok a
      → let begun = record c { world = (H.statement_fault c.world).1 } in
        ((fn begun).0 ≡ ok a) × ((with_tx fn c).1.tables ≡ (fn begun).1.tables)
  unfolding with_tx
  with_tx_done fn c h = ground arith
