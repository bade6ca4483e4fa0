-- ===== src/Pipelinedb/Groups.antt =====
-- pkg/pipelinedb/db.go: the loop that sorts transactions, by nonce, into nonce groups.
use crypto_batch_payment.Base.{
  List, [], ◌∷◌, ◌++◌, ◌==◌, if◌then◌else◌, Result, ok, err, group_mismatch,
}
use crypto_batch_payment.Base.Bind.{◌>>=◌}
use crypto_batch_payment.Host.{Host}
use crypto_batch_payment.Pipelinedb.{Transaction, NonceGroup}

module _ {H : Host} where
  abbrev pub new_group : Transaction H → NonceGroup H
  new_group tx = record { nonce = tx.nonce; payout_group_id = tx.payout_group_id; txs = tx ∷ [] }

  -- One round: the transaction joins the last group if the nonces match.
  unfoldable pub add_to_groups : Transaction H → List (NonceGroup H) → Result (List (NonceGroup H))
  add_to_groups tx [] = ok (new_group tx ∷ [])
  add_to_groups tx (g ∷ []) =
      if g.nonce == tx.nonce
      then (if g.payout_group_id == tx.payout_group_id
          then ok (record g { txs = g.txs ++ tx ∷ [] } ∷ [])
          else err group_mismatch)
      else ok (g ∷ new_group tx ∷ [])
  add_to_groups tx (g ∷ h ∷ gs) = do rest ← add_to_groups tx (h ∷ gs); ok (g ∷ rest)

  unfoldable pub sort_into_groups :
      List (NonceGroup H) → List (Transaction H) → Result (List (NonceGroup H))
  unfolding add_to_groups
  sort_into_groups groups [] = ok groups
  sort_into_groups groups (tx ∷ txs) = do
    groups' ← add_to_groups tx groups
    sort_into_groups groups' txs
