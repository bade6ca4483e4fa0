-- ===== src/Pipeline/Invariant/Sends.antt =====
-- pkg/pipeline/pipeline.go: sendTransaction keeps the invariant, however far it gets.
use crypto_batch_payment.Base.{
  ℕ, true, ◌≡◌, refl, inl, inr, List, [], ◌∷◌, All, is_err, eq_iff, Result, ok, err, Action, arith,
}
use crypto_batch_payment.Host.{Host}
use crypto_batch_payment.Payoutdb.{TransactionRow, Tables}
use crypto_batch_payment.Payoutdb.Rows.{hash_known, has_pending, insert_transaction}
use crypto_batch_payment.Payoutdb.Inserted.{
  insert_shape, insert-hash_known, insert-hash_known_self, insert-has_pending_self,
  insert-stolen_self,
}
use crypto_batch_payment.Pipelinedb.{Transaction, NonceGroup}
use crypto_batch_payment.Pipelinedb.Frame.{pending_row}
use crypto_batch_payment.Payer.{Payer, RawTransaction}
use crypto_batch_payment.Pipeline.{Config, Run}
use crypto_batch_payment.Pipeline.Send.{send_transaction}
use crypto_batch_payment.Pipeline.Sending.{
  Left, nothing, recorded, submitted, send_transaction-LeftBy,
}
use crypto_batch_payment.Pipeline.Invariant.{TxOk, InvOf, InvOf-cast, All-GroupOk-insert}

module _ {H : Host} where
  All-known-insert :
      (x : TransactionRow) (t : Tables) (pk : ℕ) (t' : Tables) (sent : List (RawTransaction H))
      → insert_transaction x t ≡ ok (pk, t')
      → All (λ raw. hash_known raw.hash t ≡ true) sent
      → All (λ raw. hash_known raw.hash t' ≡ true) sent
  All-known-insert x t pk t' [] i a = tt
  All-known-insert x t pk t' (raw ∷ sent) i a =
      (insert-hash_known x t i raw.hash a.0, All-known-insert x t pk t' sent i a.1)

  InvOf-insert :
      (x : TransactionRow) (t : Tables) (pk : ℕ) (t' : Tables) (sent : List (RawTransaction H))
      (gs : List (NonceGroup H))
      → insert_transaction x t ≡ ok (pk, t')
      → InvOf t sent gs
      → InvOf t' sent gs
  InvOf-insert x t pk t' sent gs i inv = record {
    write_ahead = All-known-insert x t pk t' sent i inv.write_ahead;
    groups_ok = All-GroupOk-insert x t pk t' gs i inv.groups_ok;
    keyed = rw ((insert_shape x t i).2) inv.keyed;
    distinct = inv.distinct;
  }

  InvOf-submit :
      (x : TransactionRow) (t : Tables) (pk : ℕ) (t' : Tables) (raw : RawTransaction H)
      (sent : List (RawTransaction H)) (gs : List (NonceGroup H))
      → insert_transaction x t ≡ ok (pk, t')
      → x.hash ≡ raw.hash
      → InvOf t sent gs
      → InvOf t' (raw ∷ sent) gs
  InvOf-submit x t pk t' raw sent gs i e inv =
      let after = InvOf-insert x t pk t' sent gs i inv in
      record {
        write_ahead = (rw (← e) (insert-hash_known_self x t i), after.write_ahead);
        groups_ok = after.groups_ok;
        keyed = after.keyed;
        distinct = after.distinct;
      }

  -- What a call may leave keeps the invariant.
  Left-InvOf :
      (t : Tables) (sent : List (RawTransaction H)) (r : Result (Transaction H)) (s' : Run H)
      (tx : Transaction H) (raw : RawTransaction H) (gs : List (NonceGroup H))
      → tx.hash ≡ raw.hash
      → Left t sent r s' tx raw
      → InvOf t sent gs
      → InvOf s'.conn.tables s'.sent gs
  Left-InvOf t sent r s' tx raw gs e (nothing p q _) inv = InvOf-cast p q refl inv
  Left-InvOf t sent r s' tx raw gs e (recorded now pk i q _) inv =
      InvOf-cast refl q refl (InvOf-insert (pending_row tx now) t pk s'.conn.tables sent gs i inv)
  Left-InvOf t sent r s' tx raw gs e (submitted now pk i q _) inv =
      InvOf-cast refl q refl
        (InvOf-submit (pending_row tx now) t pk s'.conn.tables raw sent gs i e inv)

  -- What is known of the transaction that a call returns.
  abbrev pub Attached : ℕ → Tables → Result (Transaction H) → Type 0
  Attached id t (err e) = Unit
  Attached id t (ok row) = TxOk t.tx id row × (has_pending t.tx id ≡ true)

  Left-Attached :
      (t : Tables) (sent : List (RawTransaction H)) (r : Result (Transaction H)) (s' : Run H)
      (tx : Transaction H) (raw : RawTransaction H) (id : ℕ)
      → tx.payout_group_id ≡ id
      → Left t sent r s' tx raw
      → Attached id s'.conn.tables r
  Left-Attached t sent (err e) s' tx raw id g left = tt
  Left-Attached t sent (ok row) s' tx raw id g (nothing _ _ e) = cc
  Left-Attached t sent (ok row) s' tx raw id g (recorded _ _ _ _ e) = cc
  Left-Attached t sent (ok row) s' tx raw id g (submitted now pk i _ back) =
      let x : TransactionRow = pending_row tx now in
      rw (back.0, ← g)
        (
          (insert-hash_known_self x t i, insert-stolen_self x t i),
          insert-has_pending_self x t i (ground (arith, eq_iff "pending" "pending")),
        )

module _ {H : Host} (P : Payer H) (quoter : Action H.World H.Decimal) (fuel : ℕ)
    (cfg : Config) where
  -- What has been sent is still recorded and the groups are still as they should be.
  pub send_transaction-InvOf :
      (id nonce : ℕ) (gs : List (NonceGroup H)) (s : Run H)
      → InvOf s.conn.tables s.sent gs
      → let s' = (send_transaction P quoter fuel cfg id nonce s).1 in
        InvOf s'.conn.tables s'.sent gs
  send_transaction-InvOf id nonce gs s inv =
      elim (send_transaction-LeftBy P quoter fuel cfg id nonce s) [
        | inl (p, q, _) ↦ InvOf-cast p q refl inv
        | inr (tx, raw, _, hash, left) ↦ Left-InvOf s.conn.tables s.sent _ _ tx raw gs hash left inv
      ]

  pub send_transaction-Attached :
      (id nonce : ℕ) (s : Run H)
      → let (r, s') = send_transaction P quoter fuel cfg id nonce s in Attached id s'.conn.tables r
  send_transaction-Attached id nonce s =
      elim (send_transaction-LeftBy P quoter fuel cfg id nonce s) [
        | inl (_, _, e) ↦
            failed_Attached (send_transaction P quoter fuel cfg id nonce s).1.conn.tables _ e
        | inr (tx, raw, group, _, left) ↦
            Left-Attached s.conn.tables s.sent _ _ tx raw id group left
      ]
    where
      failed_Attached :
          (t : Tables) (r : Result (Transaction H)) → is_err r ≡ true → Attached id t r
      failed_Attached t (err e) h = tt
      failed_Attached t (ok row) h = cc
