-- ===== src/Pipeline/Invariant/Checks.antt =====
-- pkg/pipeline/pipeline.go: checkNonceGroups keeps the invariant; and the groups that it finishes
-- come before those that it does not.
use crypto_batch_payment.Base.{
  ℕ, String, true, false, ◌≡◌, refl, inl, inr, List, [], ◌∷◌, ◌++◌, map, All, eq_iff, arith, subst,
}
use crypto_batch_payment.Host.{Host}
use crypto_batch_payment.Txstatus.{TxStatus}
use crypto_batch_payment.Payoutdb.{TransactionRow, Tables}
use crypto_batch_payment.Payoutdb.Rows.{hash_known}
use crypto_batch_payment.Payoutdb.Same.{
  contains, stolen, SameBut, SameBut-hash_known, SameBut-stolen, SameBut-has_pending,
}
use crypto_batch_payment.Payoutdb.Keys.{UniquePks}
use crypto_batch_payment.Pipelinedb.{Transaction, NonceGroup}
use crypto_batch_payment.Payer.{RawTransaction}
use crypto_batch_payment.Pipeline.Send.{is_empty}
use crypto_batch_payment.Pipeline.Check.{finished_group}
use crypto_batch_payment.Pipeline.Invariant.{
  TxOk, GroupOk, Apart, Distinct, InvOf, Other, All-Other, All-replace, Distinct-replace,
}

module _ {H : Host} where
  All-middle :
      (P : NonceGroup H → Type 0) (before : List (NonceGroup H)) (g : NonceGroup H)
      (after : List (NonceGroup H))
      → All P (before ++ g ∷ after)
      → P g
  All-middle P [] g after a = a.0
  All-middle P (b ∷ before) g after a = All-middle P before g after a.1

  -- The groups beside one that is not finished are for other payout groups.
  All-Other_beside :
      (before : List (NonceGroup H)) (g : NonceGroup H) (after : List (NonceGroup H))
      → is_empty g.txs ≡ false
      → Distinct (before ++ g ∷ after)
      → All (Other g.payout_group_id) (before ++ finished_group g ∷ after)
  All-Other_beside [] g after e d = (inl refl, All-Other g after e d.0)
  All-Other_beside (b ∷ before) g after e d = (
    ground (arith, All-middle (Apart b) before g after d.0),
    All-Other_beside before g after e d.1,
  )

  All-TxOk-SameBut :
      (hs : List String) (xs ys : List TransactionRow) (id : ℕ) (txs : List (Transaction H))
      → SameBut hs xs ys
      → All (TxOk xs id) txs
      → All (TxOk ys id) txs
  All-TxOk-SameBut hs xs ys id [] p a = tt
  All-TxOk-SameBut hs xs ys id (x ∷ txs) p a = (
    (
      rw (SameBut-hash_known hs x.hash xs ys p) a.0.0,
      rw (SameBut-stolen hs x.hash id xs ys p) a.0.1,
    ),
    All-TxOk-SameBut hs xs ys id txs p a.1,
  )

  -- When rows of one payout group change their states, the groups for others stay as they should
  -- be.
  GroupOk-SameBut :
      (hs : List String) (id : ℕ) (xs ys : List TransactionRow) (h : NonceGroup H)
      → SameBut hs xs ys
      → All (λ k. stolen k id xs ≡ false) hs
      → Other id h
      → GroupOk xs h
      → GroupOk ys h
  GroupOk-SameBut hs id xs ys h p owned o a = (
    All-TxOk-SameBut hs xs ys h.payout_group_id h.txs p a.0,
    elim o [
      | inl e ↦ inl e
      | inr ne ↦ elim a.1 [
        | inl e ↦ inl e
        | inr e ↦ inr (SameBut-has_pending hs id h.payout_group_id xs ys p owned ne e)
      ]
    ],
  )

  All-GroupOk-SameBut :
      (hs : List String) (id : ℕ) (xs ys : List TransactionRow) (gs : List (NonceGroup H))
      → SameBut hs xs ys
      → All (λ k. stolen k id xs ≡ false) hs
      → All (Other id) gs
      → All (GroupOk xs) gs
      → All (GroupOk ys) gs
  All-GroupOk-SameBut hs id xs ys [] p owned o a = tt
  All-GroupOk-SameBut hs id xs ys (h ∷ gs) p owned o a = (
    GroupOk-SameBut hs id xs ys h p owned o.0 a.0,
    All-GroupOk-SameBut hs id xs ys gs p owned o.1 a.1,
  )

  All-known-SameBut :
      (hs : List String) (t t' : Tables) (sent : List (RawTransaction H))
      → SameBut hs t.tx t'.tx
      → All (λ raw. hash_known raw.hash t ≡ true) sent
      → All (λ raw. hash_known raw.hash t' ≡ true) sent
  All-known-SameBut hs t t' [] p a = tt
  All-known-SameBut hs t t' (raw ∷ sent) p a =
      (rw (SameBut-hash_known hs raw.hash t.tx t'.tx p) a.0, All-known-SameBut hs t t' sent p a.1)

  abbrev pub hashes : NonceGroup H → List String
  hashes g = map (λ x. x.hash) g.txs

  All-owned :
      (rows : List TransactionRow) (id : ℕ) (txs : List (Transaction H))
      → All (TxOk rows id) txs
      → All (λ k. stolen k id rows ≡ false) (map (λ x. x.hash) txs)
  All-owned rows id [] a = tt
  All-owned rows id (x ∷ txs) a = (a.0.1, All-owned rows id txs a.1)

  -- A group that is finished, when only the states of its own rows have changed.
  pub finish-InvOf :
      (t t' : Tables) (sent : List (RawTransaction H)) (before : List (NonceGroup H))
      (g : NonceGroup H) (after : List (NonceGroup H))
      → is_empty g.txs ≡ false
      → SameBut (hashes g) t.tx t'.tx
      → UniquePks t'.payout_group
      → InvOf t sent (before ++ g ∷ after)
      → InvOf t' sent (before ++ finished_group g ∷ after)
  finish-InvOf t t' sent before g after live p keyed inv = record {
    write_ahead = All-known-SameBut (hashes g) t t' sent p inv.write_ahead;
    groups_ok =
        All-GroupOk-SameBut (hashes g) g.payout_group_id t.tx t'.tx _ p
          (All-owned t.tx g.payout_group_id g.txs
            (All-middle (GroupOk t.tx) before g after inv.groups_ok).0)
          (All-Other_beside before g after live inv.distinct)
          (All-replace (GroupOk t.tx) before g (finished_group g) after (λ _. (tt, inl refl))
            inv.groups_ok);
    distinct = Distinct-replace before g (finished_group g) after (refl, inl refl) inv.distinct;
    keyed = keyed;
  }

  -- The statuses for the transactions of a group have their hashes.
  All-contains :
      (ks : List String) (all : List (TxStatus H))
      → ((h : String) → contains (map (λ st. st.hash) all) h ≡ true → contains ks h ≡ true)
      → All (λ st. contains ks st.hash ≡ true) all
  All-contains ks [] f = tt
  All-contains ks (st ∷ all) f = (
    f st.hash (ground (arith, eq_iff st.hash st.hash)),
    All-contains ks all (λ h e. f h (ground arith)),
  )

  pub statuses-contains :
      (g : NonceGroup H) (all : List (TxStatus H))
      → map (λ st. st.hash) all ≡ hashes g
      → All (λ st. contains (hashes g) st.hash ≡ true) all
  statuses-contains g all e =
      All-contains (hashes g) all (λ h c. subst (λ ks. contains ks h ≡ true) e c)
