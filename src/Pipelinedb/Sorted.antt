-- ===== src/Pipelinedb/Sorted.antt =====
-- pkg/pipelinedb/db.go: the nonce groups that FetchUnfinishedTransactionsSortedIntoNonceGroups makes.
use crypto_batch_payment.Base.{
  ℕ, ◌≤◌, ◌<◌, Bool, true, false, ◌≡◌, ◌∙◌, refl, sym, ap, subst, List, [], ◌∷◌, ◌++◌, append_assoc,
  append-nil, ◌==◌, All, Result, ok, err, arith,
}
use crypto_batch_payment.Base.Bind.{◌>>=◌}
use crypto_batch_payment.Host.{Host}
use crypto_batch_payment.Pipelinedb.{Transaction, NonceGroup}
use crypto_batch_payment.Pipelinedb.Groups.{add_to_groups, sort_into_groups}

module _ {H : Host} where
  abbrev pub all_txs : List (NonceGroup H) → List (Transaction H)
  all_txs [] = []
  all_txs (g ∷ gs) = g.txs ++ all_txs gs

  abbrev pub Of : NonceGroup H → Transaction H → Type 0
  Of g x = (x.nonce ≡ g.nonce) × (x.payout_group_id ≡ g.payout_group_id)

  abbrev pub After : NonceGroup H → List (NonceGroup H) → Type 0
  After g [] = Unit
  After g (h ∷ hs) = g.nonce < h.nonce

  -- Each transaction has its group's nonce and payout group, and the nonces ascend.
  abbrev pub WellGrouped : List (NonceGroup H) → Type 0
  WellGrouped [] = Unit
  WellGrouped (g ∷ gs) = All (Of g) g.txs × After g gs × WellGrouped gs

  abbrev pub Sorted : List (Transaction H) → Type 0
  Sorted [] = Unit
  Sorted (x ∷ []) = Unit
  Sorted (x ∷ y ∷ ys) = (x.nonce ≤ y.nonce) × Sorted (y ∷ ys)

  -- No group has a nonce after `n`, in groups whose nonces ascend.
  abbrev pub Upto : ℕ → List (NonceGroup H) → Type 0
  Upto n [] = Unit
  Upto n (g ∷ gs) = (g.nonce ≤ n) × Upto n gs

  All-Of_snoc :
      (g : NonceGroup H) (xs : List (Transaction H)) (x : Transaction H)
      → All (Of g) xs
      → Of g x
      → All (Of g) (xs ++ x ∷ [])
  All-Of_snoc g [] x a o = (o, tt)
  All-Of_snoc g (y ∷ xs) x a o = (a.0, All-Of_snoc g xs x a.1 o)

  -- The first group keeps its nonce.
  abbrev First : List (NonceGroup H) → List (NonceGroup H) → Type 0
  First [] gs = Unit
  First (h ∷ hs) [] = ⊥
  First (h ∷ hs) (g ∷ gs) = g.nonce ≡ h.nonce

  abbrev Added : Transaction H → List (NonceGroup H) → Result (List (NonceGroup H)) → Type 0
  Added x gs (err e) = Unit
  Added x gs (ok gs') =
      (all_txs gs' ≡ all_txs gs ++ x ∷ []) × WellGrouped gs' × Upto x.nonce gs' × First gs gs'

  last-Added :
      (x : Transaction H) (g : NonceGroup H) (same_nonce same_group : Bool)
      → (g.nonce == x.nonce) ≡ same_nonce
      → (g.payout_group_id == x.payout_group_id) ≡ same_group
      → WellGrouped (g ∷ [])
      → Upto x.nonce (g ∷ [])
      → Added x (g ∷ []) (add_to_groups x (g ∷ []))
  unfolding add_to_groups
  last-Added x g true true n p well upto =
      rw (n, p)
        (
          append_assoc g.txs (x ∷ []) [] ∙ sym (append_assoc g.txs [] (x ∷ [])),
          (All-Of_snoc g g.txs x well.0 (ground arith), tt, tt),
          (upto.0, tt),
          refl,
        )
  last-Added x g true false n p well upto = rw (n, p) tt
  last-Added x g false b n p well upto = rw n (
    sym (append_assoc g.txs [] (x ∷ [])),
    (well.0, ground arith, (((refl, refl), tt), tt, tt)),
    (upto.0, (omega arith, tt)),
    refl,
  )

  cons-Added :
      (x : Transaction H) (g h : NonceGroup H) (gs : List (NonceGroup H))
      (r : Result (List (NonceGroup H)))
      → WellGrouped (g ∷ h ∷ gs)
      → Upto x.nonce (g ∷ h ∷ gs)
      → Added x (h ∷ gs) r
      → Added x (g ∷ h ∷ gs) (do rest ← r; ok (g ∷ rest))
  cons-Added x g h gs (err e) well upto a = tt
  cons-Added x g h gs (ok []) well upto a = absurd a.3
  cons-Added x g h gs (ok (h' ∷ gs')) well upto a = (
    ap (λ xs. g.txs ++ xs) (a.0) ∙ sym (append_assoc g.txs (all_txs (h ∷ gs)) (x ∷ [])),
    (well.0, rw (a.3) well.1, a.1),
    (upto.0, a.2),
    refl,
  )

  add_to_groups-Added :
      (x : Transaction H) (gs : List (NonceGroup H))
      → WellGrouped gs
      → Upto x.nonce gs
      → Added x gs (add_to_groups x gs)
  unfolding add_to_groups
  add_to_groups-Added x [] well upto = (refl, (((refl, refl), tt), tt, tt), (omega arith, tt), tt)
  add_to_groups-Added x (g ∷ []) well upto = last-Added x g _ _ refl refl well upto
  add_to_groups-Added x (g ∷ h ∷ gs) well upto =
      cons-Added x g h gs (add_to_groups x (h ∷ gs)) well upto
        (add_to_groups-Added x (h ∷ gs) well.2 upto.1)

  Upto-mono : (m n : ℕ) (gs : List (NonceGroup H)) → m ≤ n → Upto m gs → Upto n gs
  Upto-mono m n [] le u = tt
  Upto-mono m n (g ∷ gs) le u = (omega (arith, u.0, le), Upto-mono m n gs le u.1)

  abbrev pub UptoFirst : List (NonceGroup H) → List (Transaction H) → Type 0
  UptoFirst gs [] = Unit
  UptoFirst gs (x ∷ xs) = Upto x.nonce gs

  abbrev pub Grouped : List (Transaction H) → Result (List (NonceGroup H)) → Type 0
  Grouped txs (err e) = Unit
  Grouped txs (ok gs) = (all_txs gs ≡ txs) × WellGrouped gs

  step-Grouped :
      (acc : List (NonceGroup H)) (x : Transaction H) (txs : List (Transaction H))
      (r : Result (List (NonceGroup H)))
      → Added x acc r
      → ((gs : List (NonceGroup H))
          → WellGrouped gs
          → Upto x.nonce gs
          → Grouped (all_txs gs ++ txs) (sort_into_groups gs txs))
      → Grouped (all_txs acc ++ x ∷ txs) (do gs ← r; sort_into_groups gs txs)
  step-Grouped acc x txs (err e) a go = tt
  step-Grouped acc x txs (ok gs) a go =
      subst (λ ts. Grouped ts (sort_into_groups gs txs))
        (ap (λ ts. ts ++ txs) (a.0) ∙ append_assoc (all_txs acc) (x ∷ []) txs) (go gs a.1 a.2)

  next-UptoFirst :
      (x : Transaction H) (txs : List (Transaction H)) (gs : List (NonceGroup H))
      → Sorted (x ∷ txs)
      → Upto x.nonce gs
      → UptoFirst gs txs × Sorted txs
  next-UptoFirst x [] gs sorted upto = (tt, tt)
  next-UptoFirst x (y ∷ txs) gs sorted upto = (Upto-mono x.nonce y.nonce gs sorted.0 upto, sorted.1)

  -- The groups hold the transactions, in order.
  pub sort_into_groups-Grouped :
      (acc : List (NonceGroup H)) (txs : List (Transaction H))
      → WellGrouped acc
      → UptoFirst acc txs
      → Sorted txs
      → Grouped (all_txs acc ++ txs) (sort_into_groups acc txs)
  unfolding sort_into_groups
  sort_into_groups-Grouped acc [] well upto sorted = (sym (append-nil (all_txs acc)), well)
  sort_into_groups-Grouped acc (x ∷ txs) well upto sorted =
      step-Grouped acc x txs (add_to_groups x acc) (add_to_groups-Added x acc well upto)
        λ gs well' upto'.
          let next = next-UptoFirst x txs gs sorted upto' in
          sort_into_groups-Grouped gs txs well' next.0 next.1
