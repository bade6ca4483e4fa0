-- ===== src/Payoutdb/Rows.antt =====
-- pkg/payoutdb/payoutdb.dbx.go and payout_group.go: what the SQL of each statement does to the
-- tables, the constraints of the schema included.
use crypto_batch_payment.Base.{
  ℕ, String, Bool, not, ◌&&◌, Option, none, some, List, [], ◌∷◌, ◌++◌, map, ◌==◌, leb, str_eq,
  if◌then◌else◌, is_some, any, Result, ok, err, unique_violation, foreign_key_violation,
}
use crypto_batch_payment.Payoutdb.{
  MetadataRow, PayoutGroupRow, PayoutRow, TransactionRow, Tables, next_pk,
}

abbrev pub group_known : ℕ → Tables → Bool
group_known id t = any (λ g. g.id == id) t.payout_group

abbrev pub hash_known : String → Tables → Bool
hash_known h t = any (λ x. str_eq x.hash h) t.tx

-- `final_tx_hash IS NULL`
abbrev pub is_unfinished : PayoutGroupRow → Bool
is_unfinished g = not (is_some g.final_tx_hash)

-- `state == 'pending'`
abbrev pub is_pending_row : TransactionRow → Bool
is_pending_row x = str_eq x.state "pending"

-- `id IN (SELECT payout_group_id FROM tx WHERE state == 'pending')`
abbrev pub has_pending : List TransactionRow → ℕ → Bool
has_pending txs id = any (λ x. is_pending_row x && x.payout_group_id == id) txs

-- The constant `unfinishedUnattachedConditional`.
abbrev pub is_unfinished_unattached : Tables → PayoutGroupRow → Bool
is_unfinished_unattached t g = is_unfinished g && not (has_pending t.tx g.id)

-- `ORDER BY tx.nonce`, rows of one nonce in the order of their ids.
unfoldable pub insert_by_nonce : TransactionRow → List TransactionRow → List TransactionRow
insert_by_nonce x [] = x ∷ []
insert_by_nonce x (y ∷ ys) = if leb x.nonce y.nonce then x ∷ y ∷ ys else y ∷ insert_by_nonce x ys

unfoldable pub order_by_nonce : List TransactionRow → List TransactionRow
unfolding insert_by_nonce
order_by_nonce [] = []
order_by_nonce (x ∷ xs) = insert_by_nonce x (order_by_nonce xs)

abbrev pub new_group_row : ℕ → ℕ → Tables → PayoutGroupRow
new_group_row now id t = record {
  pk = next_pk (map (λ g. g.pk) t.payout_group);
  created_at = now;
  updated_at = now;
  id = id;
  final_tx_hash = none;
}

unfoldable pub insert_payout_group : ℕ → ℕ → Tables → Result (Unit {0} × Tables)
insert_payout_group now id t =
    if group_known id t
    then err unique_violation
    else ok (tt, record t { payout_group = t.payout_group ++ new_group_row now id t ∷ [] })

abbrev pub new_payout_row : ℕ → ℕ → String → String → ℕ → Tables → PayoutRow
new_payout_row now csv_line payee usd group_id t = record {
  pk = next_pk (map (λ p. p.pk) t.payout);
  created_at = now;
  csv_line = csv_line;
  payee = payee;
  usd = usd;
  payout_group_id = group_id;
}

unfoldable pub insert_payout : ℕ → ℕ → String → String → ℕ → Tables → Result (Unit {0} × Tables)
insert_payout now csv_line payee usd group_id t =
    if group_known group_id t
    then ok (
      tt,
      record t { payout = t.payout ++ new_payout_row now csv_line payee usd group_id t ∷ [] },
    )
    else err foreign_key_violation

-- `x` is given without its id; the result is the new id.
unfoldable pub insert_transaction : TransactionRow → Tables → Result (ℕ × Tables)
insert_transaction x t =
    let pk = next_pk (map (λ y. y.pk) t.tx) in
    if hash_known x.hash t
    then err unique_violation
    else if group_known x.payout_group_id t
    then ok (pk, record t { tx = t.tx ++ record x { pk = pk } ∷ [] })
    else err foreign_key_violation

-- The updates, on each row that the WHERE clause selects.
abbrev pub finish_group : ℕ → ℕ → String → PayoutGroupRow → PayoutGroupRow
finish_group now id h g =
    if g.id == id then record g { final_tx_hash = some h; updated_at = now } else g

unfoldable pub update_payout_group : ℕ → ℕ → String → Tables → Tables
update_payout_group now id h t = record t {
  payout_group = map (finish_group now id h) t.payout_group;
}

-- A column that is not set keeps its value.
abbrev pub or_keep {ℓ} : {A : Type ℓ} → Option A → Option A → Option A
or_keep none old = old
or_keep (some a) old = some a

abbrev pub settle : ℕ → String → String → Option String → TransactionRow → TransactionRow
settle now h state receipt x =
    if str_eq x.hash h
    then record x { state = state; receipt = or_keep receipt x.receipt; updated_at = now }
    else x

unfoldable pub update_transaction : ℕ → String → String → Option String → Tables → Tables
update_transaction now h state receipt t = record t { tx = map (settle now h state receipt) t.tx }

abbrev pub start_run : ℕ → ℕ → ℕ → Option String → Option String → MetadataRow → MetadataRow
start_run now pk attempts spender owner m =
    if m.pk == pk
    then record m {
      attempts = attempts;
      spender = or_keep spender m.spender;
      owner = or_keep owner m.owner;
      updated_at = now;
    }
    else m

unfoldable pub update_metadata : ℕ → ℕ → ℕ → Option String → Option String → Tables → Tables
update_metadata now pk attempts spender owner t = record t {
  metadata = map (start_run now pk attempts spender owner) t.metadata;
}
