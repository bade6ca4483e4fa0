-- ===== src/Pipeline/Sending.antt =====
-- pkg/pipeline/pipeline.go: what sendTransaction has done, by where it stopped.
use crypto_batch_payment.Base.{
  ℕ, true, ◌≡◌, refl, ◌⊎◌, inl, inr, List, ◌∷◌, map, is_err, no_payouts, Result-cases, Result, ok,
  err, Action, ◌>>=◌, subst, arith,
}
use crypto_batch_payment.Base.Rules.{bind_rule, raise_if_rule}
use crypto_batch_payment.Host.{Host}
use crypto_batch_payment.Payoutdb.{Tables, next_pk}
use crypto_batch_payment.Payoutdb.Rows.{insert_transaction}
use crypto_batch_payment.Pipelinedb.{Payout, Transaction}
use crypto_batch_payment.Pipelinedb.Operations.{fetch_payout_group_payouts, create_transaction}
use crypto_batch_payment.Pipelinedb.Frame.{
  fetch_payout_group_payouts_frame, pending_row, time_of, create_transaction_cases,
}
use crypto_batch_payment.Pipelinedb.Created.{
  transaction_from_row_fields, create_transaction_returns,
}
use crypto_batch_payment.Payer.{Payer, RawTransaction}
use crypto_batch_payment.Pipeline.{Config, Run, on_db, on_world}
use crypto_batch_payment.Pipeline.Send.{
  is_empty, sign, prepare, record_and_submit, send_payouts, send_transaction,
}

module _ {H : Host} (P : Payer H) (quoter : Action H.World H.Decimal) (fuel : ℕ)
    (cfg : Config) where
  -- A transaction that is prepared has the hash and nonce of the signed one.
  pub prepare_fields :
      (id nonce : ℕ) (payouts : List (Payout H)) (w : H.World) {tx : Transaction H}
      {raw : RawTransaction H}
      → (prepare P quoter fuel cfg id nonce payouts w).0 ≡ ok (tx, raw)
      → (tx.hash ≡ raw.hash) × (tx.payout_group_id ≡ id) × (tx.nonce ≡ raw.nonce)
  unfolding prepare sign
  prepare_fields id nonce payouts w h = ground arith

abbrev pk_of : {H : Host} → Run H → ℕ
pk_of s = next_pk (map (λ y. y.pk) s.conn.tables.tx)

-- A call that succeeds returns the transaction that it has recorded.
abbrev pub Returned : {H : Host} → Transaction H → Result (Transaction H) → Type 0
Returned tx (err e) = Unit
Returned tx (ok row) =
    (row.hash ≡ tx.hash) × (row.nonce ≡ tx.nonce) × (row.payout_group_id ≡ tx.payout_group_id)

-- What is left of a call: nothing; a pending row whose transaction is not sent, since the row
-- could not be read back; or a row and a transaction given to the payer.
module _ {H : Host} (t : Tables) (sent : List (RawTransaction H)) (r : Result (Transaction H))
    (s' : Run H) where
  pub data Left (tx : Transaction H) (raw : RawTransaction H) : Type 0 where
    nothing : s'.conn.tables ≡ t → s'.sent ≡ sent → is_err r ≡ true → Left tx raw
    recorded :
        (now pk : ℕ)
        → insert_transaction (pending_row tx now) t ≡ ok (pk, s'.conn.tables)
        → s'.sent ≡ sent
        → is_err r ≡ true
        → Left tx raw
    submitted :
        (now pk : ℕ)
        → insert_transaction (pending_row tx now) t ≡ ok (pk, s'.conn.tables)
        → s'.sent ≡ raw ∷ sent
        → Returned tx r
        → Left tx raw

  -- A call leaves nothing, or what there is to leave for a transaction of the group that it was
  -- called for.
  abbrev pub LeftBy : ℕ → Type 0
  LeftBy id =
      ((s'.conn.tables ≡ t) × (s'.sent ≡ sent) × (is_err r ≡ true))
      ⊎ ((tx : Transaction H) × (raw : RawTransaction H) × (tx.payout_group_id ≡ id)
          × (tx.hash ≡ raw.hash)
          × Left tx raw)

abbrev pub LeftFrom :
    {H : Host} → ℕ → Tables → List (RawTransaction H) → Result (Transaction H) × Run H → Type 0
LeftFrom id t sent (r, s') = LeftBy t sent r s' id

module _ {H : Host} (P : Payer H) where
  pub record_and_submit_frame :
      (tx : Transaction H) (raw : RawTransaction H) (s : Run H)
      → ((record_and_submit P (tx, raw) s).1.nonce_groups ≡ s.nonce_groups)
        × ((record_and_submit P (tx, raw) s).1.expected_nonce ≡ s.expected_nonce)
  unfolding record_and_submit
  record_and_submit_frame tx raw s = ground arith

  pub record_and_submit-Left :
      (tx : Transaction H) (raw : RawTransaction H) (s : Run H)
      → let (r, s') = record_and_submit P (tx, raw) s in Left s.conn.tables s.sent r s' tx raw
  unfolding record_and_submit
  record_and_submit-Left tx raw s = elim (create_transaction_cases tx s.conn) [
    | inl same ↦ nothing (ground arith) (ground arith) (ground arith)
    | inr inserted ↦ elim (Result-cases (create_transaction H tx s.conn).0) [
      | inl (row, e) ↦
          submitted (time_of s.conn) (pk_of s) (ground arith) (ground arith)
            (ground (arith, transaction_from_row_fields _ (create_transaction_returns tx s.conn e)))
      | inr (x, e) ↦
          recorded (time_of s.conn) (pk_of s) (ground arith) (ground arith) (ground arith)
    ]
  ]

module _ {H : Host} (P : Payer H) (quoter : Action H.World H.Decimal) (fuel : ℕ)
    (cfg : Config) where
  abbrev Framed : Run H → Result (Transaction H) × Run H → Type 0
  Framed s (r, s') = (s'.nonce_groups ≡ s.nonce_groups) × (s'.expected_nonce ≡ s.expected_nonce)

  pub send_payouts_frame :
      (id nonce : ℕ) (payouts : List (Payout H)) (s : Run H)
      → let s' = (send_payouts P quoter fuel cfg id nonce payouts s).1 in
        (s'.nonce_groups ≡ s.nonce_groups) × (s'.expected_nonce ≡ s.expected_nonce)
  unfolding send_payouts
  send_payouts_frame id nonce payouts s =
      raise_if_rule (Framed s) (is_empty payouts) no_payouts
        (λ _. on_world H (prepare P quoter fuel cfg id nonce payouts) >>= record_and_submit P) s
        (λ _. (refl, refl))
        λ _.
          bind_rule (Framed s) (on_world H (prepare P quoter fuel cfg id nonce payouts))
            (record_and_submit P) s (λ e h. (refl, refl)) λ p h. record_and_submit_frame P p.0 p.1 _

  pub send_transaction_frame :
      (id nonce : ℕ) (s : Run H)
      → let s' = (send_transaction P quoter fuel cfg id nonce s).1 in
        (s'.nonce_groups ≡ s.nonce_groups) × (s'.expected_nonce ≡ s.expected_nonce)
  unfolding send_transaction
  send_transaction_frame id nonce s = grind (arith, send_payouts_frame)

  send_payouts-LeftBy :
      (id nonce : ℕ) (payouts : List (Payout H)) (s : Run H)
      → LeftFrom id s.conn.tables s.sent (send_payouts P quoter fuel cfg id nonce payouts s)
  unfolding send_payouts
  send_payouts-LeftBy id nonce payouts s =
      raise_if_rule (LeftFrom id s.conn.tables s.sent) (is_empty payouts) no_payouts
        (λ _. on_world H (prepare P quoter fuel cfg id nonce payouts) >>= record_and_submit P) s
        (λ _. inl (refl, refl, refl))
        λ _.
          bind_rule (LeftFrom id s.conn.tables s.sent)
            (on_world H (prepare P quoter fuel cfg id nonce payouts)) (record_and_submit P) s
            (λ e h. inl (refl, refl, refl))
            λ p h.
              let (hash, group, _) = prepare_fields P quoter fuel cfg id nonce payouts _ h in
              inr (p.0, p.1, group, hash, record_and_submit-Left P p.0 p.1 _)

  -- Wherever sendTransaction stops, it has left one of: nothing new, with an error; one new pending
  -- row of the payout group whose transaction has not been sent, with an error; or one such row,
  -- with its transaction given to the payer.
  pub send_transaction-LeftBy :
      (id nonce : ℕ) (s : Run H)
      → LeftFrom id s.conn.tables s.sent (send_transaction P quoter fuel cfg id nonce s)
  unfolding send_transaction
  send_transaction-LeftBy id nonce s =
      bind_rule (LeftFrom id s.conn.tables s.sent) (on_db (fetch_payout_group_payouts H id))
        (send_payouts P quoter fuel cfg id nonce) s (λ e h. inl (same, refl, refl))
        λ payouts h.
          subst (λ t. LeftFrom id t s.sent (send_payouts P quoter fuel cfg id nonce payouts s1))
            same (send_payouts-LeftBy id nonce payouts s1)
    where
      s1 : Run H
      s1 = (on_db (fetch_payout_group_payouts H id) s).1

      same : s1.conn.tables ≡ s.conn.tables
      same = fetch_payout_group_payouts_frame id s.conn
