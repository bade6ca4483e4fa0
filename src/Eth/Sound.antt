-- ===== src/Eth/Sound.antt =====
-- pkg/eth/payer.go: the payer answers about a nonce group as the pipeline relies on.
use crypto_batch_payment.Base.{
  ℕ, String, Bool, true, false, not, ◌≡◌, refl, sym, ap, ◌∙◌, List, [], ◌∷◌, map, filter, any, All,
  eq_iff, ◌<◌, length, inl, inr, Error, Result, ok, err, ◌>>=◌, pure, of_result, subst, arith,
}
use crypto_batch_payment.Base.Rules.{bind_rule}
use crypto_batch_payment.Host.{Host}
use crypto_batch_payment.Helpers.{hash_from_string}
use crypto_batch_payment.Txstatus.{
  TxState, TxStatus, pending, dropped, failed_tx, confirmed, is_dropped, is_confirmed,
}
use crypto_batch_payment.Pipelinedb.{Payout, Transaction, NonceGroup}
use crypto_batch_payment.Payer.{
  RawTransaction, is_settled, Sound, IsSound, left_over, Exact, IsExact,
}
use crypto_batch_payment.Eth.{
  Client, Account, GroupStatuses, add_status, state_verdict, verdict, get_transaction_status,
  get_nonce_group_tx_status, check_nonce_group, create_raw_transaction, eth_payer,
}

module _ {H : Host} (C : Client H) where
  status_hash :
      (text : String) (w : H.World) (st : TxStatus H)
      → (get_transaction_status C text w).0 ≡ ok st
      → st.hash ≡ text
  unfolding get_transaction_status hash_from_string
  status_hash text w st h = ground (arith, eq_iff (H.hash_hex (H.hex_to_hash text)) text)

  abbrev Lists : List (Transaction H) → Result (GroupStatuses H) → Type 0
  Lists xs (err e) = Unit
  Lists xs (ok sts) =
      (map (λ st. st.hash) sts.all ≡ map (λ x. x.hash) xs)
      × (sts.other ≡ filter (λ st. not (is_dropped st.state)) sts.all)

  add_status-Lists :
      (x : Transaction H) (xs : List (Transaction H)) (st : TxStatus H) (rest : GroupStatuses H)
      → st.hash ≡ x.hash
      → Lists xs (ok rest)
      → Lists (x ∷ xs) (ok (add_status st rest))
  add_status-Lists x xs st rest e lists = ground (arith, lists.0, lists.1)

  statuses-Lists :
      (xs : List (Transaction H)) (w : H.World) → Lists xs (get_nonce_group_tx_status C xs w).0
  unfolding get_nonce_group_tx_status
  statuses-Lists [] w = (refl, refl)
  statuses-Lists (x ∷ xs) w =
      bind_rule (λ (r, w'). Lists (x ∷ xs) r) (get_transaction_status C x.hash)
        (λ st. get_nonce_group_tx_status C xs >>= λ rest. pure (add_status st rest)) w (λ e h. tt)
        λ st h.
          bind_rule (λ (r, w'). Lists (x ∷ xs) r) (get_nonce_group_tx_status C xs)
            (λ rest. pure (add_status st rest)) w1 (λ e k. tt)
            λ rest k.
              add_status-Lists x xs st rest (status_hash x.hash w st h)
                (subst (Lists xs) k (statuses-Lists xs w1))
    where
      w1 : H.World
      w1 = (get_transaction_status C x.hash w).1

  -- Where all are dropped, and where all but one are.
  none_left :
      (all : List (TxStatus H))
      → filter (λ s. not (is_dropped s.state)) all ≡ []
      → All (λ s. is_settled s.state ≡ true) all × (any (λ s. is_confirmed s.state) all ≡ false)
  none_left [] e = (tt, refl)
  none_left (st ∷ all) e = ground (arith, none_left all)

  one_left :
      (all : List (TxStatus H)) (st : TxStatus H)
      → filter (λ s. not (is_dropped s.state)) all ≡ st ∷ []
      → is_settled st.state ≡ true
      → All (λ s. is_settled s.state ≡ true) all
        × (any (λ s. is_confirmed s.state) all ≡ is_confirmed st.state)
  one_left [] st e settled = cc
  one_left (x ∷ all) st e settled = ground (arith, none_left all, one_left all st)

  -- What an answer rests on.
  abbrev answer : List (TxStatus H) → Result TxState → Result (TxState × List (TxStatus H))
  answer all r = elim r [ ok state ↦ ok (state, all) | err e ↦ err e ]

  one-Sound :
      (g : NonceGroup H) (all : List (TxStatus H)) (st : TxStatus H) (state : TxState)
      → st.state ≡ state
      → map (λ s. s.hash) all ≡ map (λ x. x.hash) g.txs
      → filter (λ s. not (is_dropped s.state)) all ≡ st ∷ []
      → Sound g (answer all (state_verdict state))
  one-Sound g all st pending e hs other = tt
  one-Sound g all st dropped e hs other = tt
  one-Sound g all st failed_tx e hs other =
      let (settled, one) = one_left all st other (rw e refl) in
      (hs, settled, one ∙ ap is_confirmed e)
  one-Sound g all st confirmed e hs other =
      let (settled, one) = one_left all st other (rw e refl) in
      (hs, settled, one ∙ ap is_confirmed e)

  answer-Sound :
      (g : NonceGroup H) (check_only : Bool) (all other : List (TxStatus H))
      → map (λ s. s.hash) all ≡ map (λ x. x.hash) g.txs
      → other ≡ filter (λ s. not (is_dropped s.state)) all
      → Sound g (answer all (verdict check_only other))
  unfolding verdict
  answer-Sound g true all [] hs e = tt
  answer-Sound g false all [] hs e = tt
  answer-Sound g check_only all (st ∷ []) hs e = one-Sound g all st st.state refl hs (sym e)
  answer-Sound g check_only all (st ∷ st' ∷ sts) hs e = tt

  answered :
      (all : List (TxStatus H)) (r : Result TxState) (w : H.World)
      → ((of_result r >>= λ state. pure (state, all)) w).0 ≡ answer all r
  answered all (ok state) w = refl
  answered all (err e) w = refl

  -- What holds of an answer for a group: it is an error, or rests on the statuses.
  answer_rule :
      (Q : Result (TxState × List (TxStatus H)) → Type 0) (g : NonceGroup H) (check_only : Bool)
      (w : H.World)
      → ((e : Error) → Q (err e))
      → ((all other : List (TxStatus H))
          → map (λ s. s.hash) all ≡ map (λ x. x.hash) g.txs
          → other ≡ filter (λ s. not (is_dropped s.state)) all
          → Q (answer all (verdict check_only other)))
      → Q (check_nonce_group C g check_only w).0
  unfolding check_nonce_group
  answer_rule Q g check_only w failed rests =
      bind_rule (λ (r, w'). Q r) (get_nonce_group_tx_status C g.txs)
        (λ txs. of_result (verdict check_only txs.other) >>= λ state. pure (state, txs.all)) w
        (λ e h. failed e)
        λ sts h.
          let (hs, other) = subst (Lists g.txs) h (statuses-Lists g.txs w) in
          rw
            (answered sts.all (verdict check_only sts.other)
              (get_nonce_group_tx_status C g.txs w).1)
            (rests sts.all sts.other hs other)

  pub check_nonce_group-Sound :
      (g : NonceGroup H) (check_only : Bool) (w : H.World)
      → Sound g (check_nonce_group C g check_only w).0
  check_nonce_group-Sound g check_only w =
      answer_rule (Sound g) g check_only w (λ e. tt) (answer-Sound g check_only)

  All-dropped :
      (all : List (TxStatus H)) → left_over all ≡ [] → All (λ s. is_dropped s.state ≡ true) all
  All-dropped [] e = tt
  All-dropped (st ∷ all) e = ground (arith, All-dropped all)

  one-Exact :
      (g : NonceGroup H) (check_only : Bool) (all : List (TxStatus H)) (st : TxStatus H)
      (state : TxState)
      → st.state ≡ state
      → map (λ s. s.hash) all ≡ map (λ x. x.hash) g.txs
      → left_over all ≡ st ∷ []
      → Exact g check_only (answer all (state_verdict state))
  one-Exact g check_only all st pending e hs other = (hs, inl (st, other, e))
  one-Exact g check_only all st dropped e hs other = tt
  one-Exact g check_only all st failed_tx e hs other = (hs, (st, other, e))
  one-Exact g check_only all st confirmed e hs other = (hs, (st, other, e))

  answer-Exact :
      (g : NonceGroup H) (check_only : Bool) (all other : List (TxStatus H))
      → map (λ s. s.hash) all ≡ map (λ x. x.hash) g.txs
      → other ≡ left_over all
      → Exact g check_only (answer all (verdict check_only other))
  unfolding verdict
  answer-Exact g true all [] hs e = tt
  answer-Exact g false all [] hs e = (hs, All-dropped all (sym e), refl)
  answer-Exact g check_only all (st ∷ []) hs e =
      one-Exact g check_only all st st.state refl hs (sym e)
  answer-Exact g check_only all (st ∷ st' ∷ sts) hs e =
      (hs, inr (subst (λ xs. 1 < length xs) e (omega arith)))

  created_nonce :
      (A : Account) (payouts : List (Payout H)) (nonce : ℕ) (price : H.Decimal) (w : H.World)
      (raw : RawTransaction H) (from : ℕ)
      → (create_raw_transaction C A payouts nonce price w).0 ≡ ok (raw, from)
      → raw.nonce ≡ nonce
  unfolding create_raw_transaction
  created_nonce A [] nonce price w raw from h = cc
  created_nonce A (p ∷ []) nonce price w raw from h = ground arith
  created_nonce A (p ∷ q ∷ ps) nonce price w raw from h = cc

  pub eth_payer-IsSound : (A : Account) → IsSound (eth_payer C A)
  unfolding eth_payer
  eth_payer-IsSound A = record {
    sound = check_nonce_group-Sound;
    nonce_kept =
        λ payouts nonce price w {raw} {from} h. created_nonce A payouts nonce price w raw from h;
  }

  -- An answer has a status for each transaction of the group, in order. A group that is said to be
  -- confirmed or failed has one transaction that is not dropped, and that one is confirmed or has
  -- failed; of one that is said to be pending, that one is pending, or there are several; of one that
  -- is said to be dropped all are, and it may be sent again. A transaction that is made has the nonce
  -- that was asked for.
  pub eth_payer-IsExact : (A : Account) → IsExact (eth_payer C A)
  unfolding eth_payer
  eth_payer-IsExact A = record {
    is_sound = eth_payer-IsSound A;
    exact = λ g check_only w.
        answer_rule (Exact g check_only) g check_only w (λ e. tt) (answer-Exact g check_only);
  }
