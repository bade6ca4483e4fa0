-- ===== src/Pipeline/Invariant/Loop.antt =====
-- pkg/pipeline/pipeline.go: the nonce groups while checkNonceGroups goes through them.
use crypto_batch_payment.Base.{
  true, false, ◌≡◌, refl, ◌⊎◌, inl, inr, List, [], ◌∷◌, ◌++◌, All, Result,
}
use crypto_batch_payment.Host.{Host}
use crypto_batch_payment.Payoutdb.Rows.{has_pending}
use crypto_batch_payment.Pipelinedb.{Transaction, NonceGroup}
use crypto_batch_payment.Pipeline.{Run}
use crypto_batch_payment.Pipeline.Send.{is_empty}
use crypto_batch_payment.Pipeline.Check.{finished_group}
use crypto_batch_payment.Pipeline.Invariant.{
  TxOk, GroupOk, InvOf, Inv, InvOf-cast, All-replace, Distinct-replace,
}

module _ {H : Host} where
  abbrev pub Finished : NonceGroup H → Type 0
  Finished g = is_empty g.txs ≡ true

  abbrev pub Live : NonceGroup H → Type 0
  Live g = is_empty g.txs ≡ false

  -- The finished groups come first.
  abbrev pub FinishedFirst : List (NonceGroup H) → Type 0
  FinishedFirst [] = Unit
  FinishedFirst (g ∷ gs) = (Finished g × FinishedFirst gs) ⊎ All Live (g ∷ gs)

  pub Live-FinishedFirst : (gs : List (NonceGroup H)) → All Live gs → FinishedFirst gs
  Live-FinishedFirst [] a = tt
  Live-FinishedFirst (g ∷ gs) a = inr a

  pub append-FinishedFirst :
      (before after : List (NonceGroup H))
      → All Finished before
      → All Live after
      → FinishedFirst (before ++ after)
  append-FinishedFirst [] after f l = Live-FinishedFirst after l
  append-FinishedFirst (b ∷ before) after f l = inl (f.0, append-FinishedFirst before after f.1 l)

  pub All-snoc-Finished :
      (before : List (NonceGroup H)) (g : NonceGroup H)
      → All Finished before
      → All Finished (before ++ finished_group g ∷ [])
  All-snoc-Finished [] g f = (refl, tt)
  All-snoc-Finished (b ∷ before) g f = (f.0, All-snoc-Finished before g f.1)

  -- The groups of a run, looked at up to `after`.
  abbrev pub At : List (NonceGroup H) → List (NonceGroup H) → Run H → Type 0
  At before after s =
      (s.nonce_groups ≡ before ++ after)
      × All Finished before
      × All Live after
      × InvOf s.conn.tables s.sent (before ++ after)

  abbrev pub Kept : Run H → Type 0
  Kept s = Inv s × FinishedFirst s.nonce_groups

  -- A call leaves a run that has all this, whether it fails or not.
  abbrev pub KeptBy : {A : Type 0} → Result A × Run H → Type 0
  KeptBy (r, s) = Kept s

  pub At-Kept : (before after : List (NonceGroup H)) (s : Run H) → At before after s → Kept s
  At-Kept before after s (e, f, l, inv) =
      (InvOf-cast refl refl e inv, rw e (append-FinishedFirst before after f l))

  All-TxOk-snoc :
      (g : NonceGroup H) (s : Run H) (row : Transaction H) (xs : List (Transaction H))
      → All (TxOk s.conn.tables.tx g.payout_group_id) xs
      → TxOk s.conn.tables.tx g.payout_group_id row
      → All (TxOk s.conn.tables.tx g.payout_group_id) (xs ++ row ∷ [])
  All-TxOk-snoc g s row [] a p = (p, tt)
  All-TxOk-snoc g s row (x ∷ xs) a p = (a.0, All-TxOk-snoc g s row xs a.1 p)

  -- A group that has got another transaction.
  pub resent-InvOf :
      (before : List (NonceGroup H)) (g : NonceGroup H) (after : List (NonceGroup H)) (s : Run H)
      (row : Transaction H)
      → Live g
      → TxOk s.conn.tables.tx g.payout_group_id row
      → has_pending s.conn.tables.tx g.payout_group_id ≡ true
      → InvOf s.conn.tables s.sent (before ++ g ∷ after)
      → InvOf s.conn.tables s.sent (before ++ record g { txs = g.txs ++ row ∷ [] } ∷ after)
  resent-InvOf before g after s row live p q inv = record {
    write_ahead = inv.write_ahead;
    groups_ok =
        All-replace (GroupOk s.conn.tables.tx) before g _ after
          (λ ok_g. (All-TxOk-snoc g s row g.txs ok_g.0 p, inr q)) inv.groups_ok;
    distinct = Distinct-replace before g _ after (refl, inr live) inv.distinct;
    keyed = inv.keyed;
  }
