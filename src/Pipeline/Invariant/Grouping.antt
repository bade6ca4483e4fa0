-- ===== src/Pipeline/Invariant/Grouping.antt =====
-- pkg/pipeline/pipeline.go: the nonce groups that are made of known transactions.
use crypto_batch_payment.Base.{
  ℕ, ◌<◌, Bool, true, false, ◌≡◌, refl, sym, inr, List, [], ◌∷◌, ◌++◌, ◌==◌, All, Result, ok, err,
  arith,
}
use crypto_batch_payment.Base.Bind.{◌>>=◌}
use crypto_batch_payment.Host.{Host}
use crypto_batch_payment.Payoutdb.{TransactionRow}
use crypto_batch_payment.Pipelinedb.{Transaction, NonceGroup}
use crypto_batch_payment.Pipelinedb.Groups.{add_to_groups, sort_into_groups}
use crypto_batch_payment.Pipelinedb.Sorted.{all_txs, Of, After, WellGrouped}
use crypto_batch_payment.Pipeline.Send.{is_empty}
use crypto_batch_payment.Pipeline.Invariant.{TxOk, GroupOk, Apart, Distinct}
use crypto_batch_payment.Pipeline.Invariant.Loop.{Live}
use crypto_batch_payment.Pipeline.Invariant.Starts.{
  has_nonce, has_other_nonce, one_nonce, has_nonce-has_pending, KnownTx,
}

module _ {H : Host} where
  abbrev pub LiveGroups : Result (List (NonceGroup H)) → Type 0
  LiveGroups (err e) = Unit
  LiveGroups (ok gs) = All Live gs

  cons-LiveGroups :
      (g : NonceGroup H) (r : Result (List (NonceGroup H)))
      → Live g
      → LiveGroups r
      → LiveGroups (do rest ← r; ok (g ∷ rest))
  cons-LiveGroups g (err e) l a = tt
  cons-LiveGroups g (ok gs) l a = (l, a)

  snoc_Live : (xs : List (Transaction H)) (x : Transaction H) → is_empty (xs ++ x ∷ []) ≡ false
  snoc_Live [] x = refl
  snoc_Live (y ∷ xs) x = refl

  last-LiveGroups :
      (x : Transaction H) (g : NonceGroup H) (same_nonce same_group : Bool)
      → (g.nonce == x.nonce) ≡ same_nonce
      → (g.payout_group_id == x.payout_group_id) ≡ same_group
      → Live g
      → LiveGroups (add_to_groups x (g ∷ []))
  unfolding add_to_groups
  last-LiveGroups x g true true n p l = rw (n, p) (snoc_Live g.txs x, tt)
  last-LiveGroups x g true false n p l = rw (n, p) tt
  last-LiveGroups x g false b n p l = rw n (l, (refl, tt))

  add_to_groups-LiveGroups :
      (x : Transaction H) (gs : List (NonceGroup H)) → All Live gs → LiveGroups (add_to_groups x gs)
  unfolding add_to_groups
  add_to_groups-LiveGroups x [] a = (refl, tt)
  add_to_groups-LiveGroups x (g ∷ []) a = last-LiveGroups x g _ _ refl refl a.0
  add_to_groups-LiveGroups x (g ∷ h ∷ gs) a =
      cons-LiveGroups g (add_to_groups x (h ∷ gs)) a.0 (add_to_groups-LiveGroups x (h ∷ gs) a.1)

  step-LiveGroups :
      (txs : List (Transaction H)) (r : Result (List (NonceGroup H)))
      → LiveGroups r
      → ((gs : List (NonceGroup H)) → All Live gs → LiveGroups (sort_into_groups gs txs))
      → LiveGroups (do gs ← r; sort_into_groups gs txs)
  step-LiveGroups txs (err e) a go = tt
  step-LiveGroups txs (ok gs) a go = go gs a

  pub sort_into_groups-LiveGroups :
      (acc : List (NonceGroup H)) (txs : List (Transaction H))
      → All Live acc
      → LiveGroups (sort_into_groups acc txs)
  unfolding sort_into_groups
  sort_into_groups-LiveGroups acc [] a = a
  sort_into_groups-LiveGroups acc (x ∷ txs) a =
      step-LiveGroups txs (add_to_groups x acc) (add_to_groups-LiveGroups x acc a)
        λ gs live. sort_into_groups-LiveGroups gs txs live

  All-append_left :
      (P : Transaction H → Type 0) (xs ys : List (Transaction H)) → All P (xs ++ ys) → All P xs
  All-append_left P [] ys a = tt
  All-append_left P (x ∷ xs) ys a = (a.0, All-append_left P xs ys a.1)

  All-append_right :
      (P : Transaction H → Type 0) (xs ys : List (Transaction H)) → All P (xs ++ ys) → All P ys
  All-append_right P [] ys a = a
  All-append_right P (x ∷ xs) ys a = All-append_right P xs ys a.1

  All-TxOk :
      (rows : List TransactionRow) (g : NonceGroup H) (xs : List (Transaction H))
      → All (Of g) xs
      → All (KnownTx rows) xs
      → All (TxOk rows g.payout_group_id) xs
  All-TxOk rows g [] o k = tt
  All-TxOk rows g (x ∷ xs) o k = ((k.0.0, rw (sym (o.0.1)) (k.0.1)), All-TxOk rows g xs o.1 k.1)

  -- A group of known transactions has a pending row with its nonce, and none with another.
  abbrev pub KnownGroup : List TransactionRow → NonceGroup H → Type 0
  KnownGroup rows g =
      (has_nonce g.payout_group_id g.nonce rows ≡ true)
      × (has_other_nonce g.payout_group_id g.nonce rows ≡ false)

  known_group :
      (rows : List TransactionRow) (g : NonceGroup H) (xs : List (Transaction H))
      → is_empty xs ≡ false
      → All (Of g) xs
      → All (KnownTx rows) xs
      → KnownGroup rows g
  known_group rows g [] l o k = cc
  known_group rows g (x ∷ xs) l o k = rw (sym (o.0.0), sym (o.0.1)) (k.0.2, k.0.3)

  group_ok :
      (rows : List TransactionRow) (g : NonceGroup H)
      → KnownGroup rows g
      → All (Of g) g.txs
      → All (KnownTx rows) g.txs
      → GroupOk rows g
  group_ok rows g kg o k =
      (All-TxOk rows g g.txs o k, inr (has_nonce-has_pending g.payout_group_id g.nonce rows kg.0))

  later :
      (n : ℕ) (h : NonceGroup H) (hs : List (NonceGroup H))
      → n < h.nonce
      → WellGrouped (h ∷ hs)
      → All (λ k. n < k.nonce) (h ∷ hs)
  later n h [] lt w = (lt, tt)
  later n h (k ∷ ks) lt w = (lt, later n k ks (omega (arith, lt, w.1)) w.2)

  later_than :
      (g : NonceGroup H) (gs : List (NonceGroup H))
      → After g gs
      → WellGrouped gs
      → All (λ k. g.nonce < k.nonce) gs
  later_than g [] a w = tt
  later_than g (h ∷ hs) a w = later g.nonce h hs a w

  -- A later group is for another payout group.
  later-Apart :
      (rows : List TransactionRow) (g h : NonceGroup H)
      → g.nonce < h.nonce
      → KnownGroup rows g
      → KnownGroup rows h
      → Apart g h
  later-Apart rows g h lt kg kh = inr (inr (λ same. differ same))
    where
      differ : g.payout_group_id ≡ h.payout_group_id → ⊥
      differ same =
          let equal : g.nonce ≡ h.nonce =
            one_nonce h.payout_group_id g.nonce h.nonce rows (rw (sym same) (kg.0)) (kh.1) in
          omega (arith, lt, equal)

  later-Apart_each :
      (rows : List TransactionRow) (g : NonceGroup H) (hs : List (NonceGroup H))
      → All (λ k. g.nonce < k.nonce) hs
      → KnownGroup rows g
      → All (KnownGroup rows) hs
      → All (Apart g) hs
  later-Apart_each rows g [] lt kg kh = tt
  later-Apart_each rows g (h ∷ hs) lt kg kh =
      (later-Apart rows g h lt.0 kg kh.0, later-Apart_each rows g hs lt.1 kg kh.1)

  pub groups_ok :
      (rows : List TransactionRow) (gs : List (NonceGroup H))
      → WellGrouped gs
      → All Live gs
      → All (KnownTx rows) (all_txs gs)
      → All (KnownGroup rows) gs × All (GroupOk rows) gs × Distinct gs
  groups_ok rows [] w l k = (tt, tt, tt)
  groups_ok rows (g ∷ gs) w l k =
      let mine : All (KnownTx rows) g.txs = All-append_left (KnownTx rows) g.txs (all_txs gs) k in
      let (kgs, oks, d) =
        groups_ok rows gs w.2 l.1 (All-append_right (KnownTx rows) g.txs (all_txs gs) k) in
      let kg : KnownGroup rows g = known_group rows g g.txs l.0 w.0 mine in
      (
        (kg, kgs),
        (group_ok rows g kg w.0 mine, oks),
        (later-Apart_each rows g gs (later_than g gs w.1 w.2) kg kgs, d),
      )
