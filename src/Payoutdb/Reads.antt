-- ===== src/Payoutdb/Reads.antt =====
-- pkg/payoutdb/payoutdb.dbx.go and payout_group.go: the methods that read rows. A query without
-- ORDER BY returns the rows in the order of their ids, which is the order of the lists.
use crypto_batch_payment.Base.{
  ℕ, String, Bool, ◌&&◌, Option, none, some, List, [], ◌∷◌, ◌==◌, str_eq, any, filter, find, length,
  Result, ok, err, no_rows, Action, ◌>>=◌, pure,
}
use crypto_batch_payment.Host.{Host}
use crypto_batch_payment.Payoutdb.{
  MetadataRow, PayoutGroupRow, PayoutRow, TransactionRow, Tables, Conn, statement, query,
}
use crypto_batch_payment.Payoutdb.Rows.{is_unfinished, is_unfinished_unattached, order_by_nonce}

abbrev pub head? {ℓ} : {A : Type ℓ} → List A → Option A
head? [] = none
head? (x ∷ xs) = some x

-- `JOIN payout_group ON payout.payout_group_id = payout_group.id`; ids are unique, so a payout
-- has one row in the join.
abbrev pub of_unfinished_group : Tables → PayoutRow → Bool
of_unfinished_group t p = any (λ g. g.id == p.payout_group_id && is_unfinished g) t.payout_group

abbrev pub group_by_pk : ℕ → Tables → Result (PayoutGroupRow × Tables)
group_by_pk pk t = elim (find (λ g. g.pk == pk) t.payout_group) [
  | none ↦ err no_rows
  | some g ↦ ok (g, t)
]

module _ {H : Host} where
  unfoldable pub all_payout : Action (Conn H) (List PayoutRow)
  all_payout = query (λ t. t.payout)

  unfoldable pub all_payout_by_group : ℕ → Action (Conn H) (List PayoutRow)
  all_payout_by_group id = query (λ t. filter (λ p. p.payout_group_id == id) t.payout)

  unfoldable pub count_payout_by_group : ℕ → Action (Conn H) ℕ
  count_payout_by_group id = query (λ t. length (filter (λ p. p.payout_group_id == id) t.payout))

  unfoldable pub all_payout_unfinished : Action (Conn H) (List PayoutRow)
  all_payout_unfinished = query (λ t. filter (of_unfinished_group t) t.payout)

  unfoldable pub count_payout_group : Action (Conn H) ℕ
  count_payout_group = query (λ t. length t.payout_group)

  unfoldable pub count_payout_group_unfinished : Action (Conn H) ℕ
  count_payout_group_unfinished = query (λ t. length (filter is_unfinished t.payout_group))

  -- `ErrNoRows` is an error here, and no row elsewhere.
  unfoldable pub get_payout_group_by_pk : ℕ → Action (Conn H) PayoutGroupRow
  get_payout_group_by_pk pk = statement (group_by_pk pk)

  unfoldable pub find_payout_group_by_id : ℕ → Action (Conn H) (Option PayoutGroupRow)
  find_payout_group_by_id id = query (λ t. find (λ g. g.id == id) t.payout_group)

  unfoldable pub all_transaction : Action (Conn H) (List TransactionRow)
  all_transaction = query (λ t. t.tx)

  unfoldable pub all_transaction_by_group : ℕ → Action (Conn H) (List TransactionRow)
  all_transaction_by_group id = query (λ t. filter (λ x. x.payout_group_id == id) t.tx)

  unfoldable pub count_transaction : Action (Conn H) ℕ
  count_transaction = query (λ t. length t.tx)

  unfoldable pub count_transaction_by_state : String → Action (Conn H) ℕ
  count_transaction_by_state state = query (λ t. length (filter (λ x. str_eq x.state state) t.tx))

  unfoldable pub all_transaction_by_state_ordered : String → Action (Conn H) (List TransactionRow)
  all_transaction_by_state_ordered state =
      query (λ t. order_by_nonce (filter (λ x. str_eq x.state state) t.tx))

  unfoldable pub find_transaction_by_hash : String → Action (Conn H) (Option TransactionRow)
  find_transaction_by_hash hash = query (λ t. find (λ x. str_eq x.hash hash) t.tx)

  unfoldable pub first_metadata : Action (Conn H) (Option MetadataRow)
  first_metadata = query (λ t. head? t.metadata)

  abbrev reload_group : Option PayoutGroupRow → Action (Conn H) (Option PayoutGroupRow)
  reload_group none = pure none
  reload_group (some g) = do row ← get_payout_group_by_pk g.pk; pure (some row)

  -- The row id of the first group that is open, and then the row by that id.
  unfoldable pub first_unfinished_unattached : Action (Conn H) (Option PayoutGroupRow)
  unfolding get_payout_group_by_pk
  first_unfinished_unattached = do
    found ← query (λ t. find (is_unfinished_unattached t) t.payout_group)
    reload_group found

  unfoldable pub count_unfinished_unattached : Action (Conn H) ℕ
  count_unfinished_unattached =
      query (λ t. length (filter (is_unfinished_unattached t) t.payout_group))
