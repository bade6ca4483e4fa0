-- ===== src/Pipeline/Invariant/Starts.antt =====
-- pkg/pipeline/pipeline.go: the database with which a run begins, and its nonce groups.
use crypto_batch_payment.Base.{
  ℕ, String, Bool, true, false, not, ◌&&◌, ◌||◌, ◌==◌, leb, str_eq, eq_iff, ◌≡◌, inl, inr,
  Bool-cases, List, [], ◌∷◌, ◌++◌, append_assoc, filter, any, All, ok, subst, arith,
}
use crypto_batch_payment.Host.{Host}
use crypto_batch_payment.Payoutdb.{TransactionRow, Tables}
use crypto_batch_payment.Payoutdb.Rows.{
  is_pending_row, has_pending, insert_by_nonce, order_by_nonce,
}
use crypto_batch_payment.Payoutdb.Same.{stolen}
use crypto_batch_payment.Payoutdb.Keys.{UniquePks}
use crypto_batch_payment.Pipelinedb.{Transaction}
use crypto_batch_payment.Pipelinedb.Convert.{transactions_from_rows}
use crypto_batch_payment.Pipelinedb.Created.{transaction_from_row_fields}
use crypto_batch_payment.Pipelinedb.Unfinished.{cons_read}
use crypto_batch_payment.Pipeline.Invariant.{known}

-- Whether a payout group has a pending row with a nonce; and with another nonce.
abbrev pub has_nonce : ℕ → ℕ → List TransactionRow → Bool
has_nonce id n = any (λ y. is_pending_row y && (y.payout_group_id == id && y.nonce == n))

abbrev pub has_other_nonce : ℕ → ℕ → List TransactionRow → Bool
has_other_nonce id n =
    any (λ y. is_pending_row y && (y.payout_group_id == id && not (y.nonce == n)))

-- No other group has a row with the same hash; and if the row is pending, no pending row of its
-- group has another nonce.
abbrev pub RowOk : List TransactionRow → TransactionRow → Type 0
RowOk rows r =
    (stolen r.hash r.payout_group_id rows ≡ false)
    × (is_pending_row r && has_other_nonce r.payout_group_id r.nonce rows ≡ false)

-- A database that a run may begin with.
abbrev pub DbOk : Tables → Type 0
DbOk t = UniquePks t.payout_group × All (RowOk t.tx) t.tx

any-middle :
    (p : TransactionRow → Bool) (xs : List TransactionRow) (x : TransactionRow)
    (ys : List TransactionRow)
    → p x ≡ true
    → any p (xs ++ x ∷ ys) ≡ true
any-middle p [] x ys e = ground arith
any-middle p (z ∷ xs) x ys e = ground (arith, any-middle p xs x ys e)

-- Each row of a list is one that a test on itself finds.
All-any :
    (f : TransactionRow → TransactionRow → Bool) (before rows : List TransactionRow)
    → ((r : TransactionRow) → f r r ≡ true)
    → All (λ r. any (λ y. f y r) (before ++ rows) ≡ true) rows
All-any f before [] h = tt
All-any f before (r ∷ rows) h = (
  any-middle (λ y. f y r) before r rows (h r),
  subst (λ xs. All (λ x. any (λ y. f y x) xs ≡ true) rows) (append_assoc before (r ∷ []) rows)
      (All-any f (before ++ r ∷ []) rows h),
)

-- What is known of a pending row, and of the transaction that is read from it.
abbrev pub Known : List TransactionRow → String → ℕ → ℕ → Type 0
Known rows hash id n =
    (known hash rows ≡ true)
    × (stolen hash id rows ≡ false)
    × (has_nonce id n rows ≡ true)
    × (has_other_nonce id n rows ≡ false)

same_hash : TransactionRow → TransactionRow → Bool
same_hash y r = str_eq y.hash r.hash

same_pending : TransactionRow → TransactionRow → Bool
same_pending y r =
    not (is_pending_row r)
    || (is_pending_row y && (y.payout_group_id == r.payout_group_id && y.nonce == r.nonce))

pending_if :
    (r : TransactionRow) (rows : List TransactionRow)
    → is_pending_row r ≡ true
    → any (λ y. same_pending y r) rows ≡ true
    → has_nonce r.payout_group_id r.nonce rows ≡ true
unfolding same_pending
pending_if r [] p e = cc
pending_if r (y ∷ rows) p e = ground (arith, pending_if r rows p)

All-Known :
    (all rows : List TransactionRow)
    → All (RowOk all) rows
    → All (λ r. any (λ y. same_hash y r) all ≡ true) rows
    → All (λ r. any (λ y. same_pending y r) all ≡ true) rows
    → All (λ r. Known all r.hash r.payout_group_id r.nonce) (filter is_pending_row rows)
unfolding same_hash
All-Known all [] a h p = tt
All-Known all (r ∷ rows) a h p = elim (Bool-cases (is_pending_row r)) [
  | inl e ↦
      rw e ((h.0, a.0.0, pending_if r all e p.0, ground arith), All-Known all rows a.1 h.1 p.1)
  | inr e ↦ rw e (All-Known all rows a.1 h.1 p.1)
]

insert_by_nonce-All :
    (Q : TransactionRow → Type 0) (x : TransactionRow) (ys : List TransactionRow)
    → Q x
    → All Q ys
    → All Q (insert_by_nonce x ys)
unfolding insert_by_nonce
insert_by_nonce-All Q x [] q a = (q, tt)
insert_by_nonce-All Q x (y ∷ ys) q a = elim (Bool-cases (leb x.nonce y.nonce)) [
  | inl e ↦ rw e (q, a)
  | inr e ↦ rw e (a.0, insert_by_nonce-All Q x ys q a.1)
]

order_by_nonce-All :
    (Q : TransactionRow → Type 0) (xs : List TransactionRow) → All Q xs → All Q (order_by_nonce xs)
unfolding order_by_nonce
order_by_nonce-All Q [] a = tt
order_by_nonce-All Q (x ∷ xs) a =
    insert_by_nonce-All Q x (order_by_nonce xs) a.0 (order_by_nonce-All Q xs a.1)

-- The pending rows of such a database.
pub DbOk-Known :
    (t : Tables)
    → DbOk t
    → All
        (λ r. Known t.tx r.hash r.payout_group_id r.nonce)
        (order_by_nonce (filter is_pending_row t.tx))
unfolding same_hash same_pending
DbOk-Known t (_, rows_ok) =
    order_by_nonce-All (λ r. Known t.tx r.hash r.payout_group_id r.nonce)
      (filter is_pending_row t.tx)
      (All-Known t.tx t.tx rows_ok
        (All-any same_hash [] t.tx (λ r. ground (arith, eq_iff r.hash r.hash)))
        (All-any same_pending [] t.tx (λ r. ground arith)))

-- Two pending rows of one group have one nonce.
pub one_nonce :
    (id m n : ℕ) (rows : List TransactionRow)
    → has_nonce id m rows ≡ true
    → has_other_nonce id n rows ≡ false
    → m ≡ n
one_nonce id m n [] h o = cc
one_nonce id m n (y ∷ rows) h o = ground (arith, one_nonce id m n rows)

pub has_nonce-has_pending :
    (id n : ℕ) (rows : List TransactionRow)
    → has_nonce id n rows ≡ true
    → has_pending rows id ≡ true
has_nonce-has_pending id n [] h = cc
has_nonce-has_pending id n (y ∷ rows) h = ground (arith, has_nonce-has_pending id n rows)

module _ {H : Host} where
  abbrev pub KnownTx : List TransactionRow → Transaction H → Type 0
  KnownTx rows x = Known rows x.hash x.payout_group_id x.nonce

  -- The transactions that are read from rows.
  pub read-KnownTx :
      (all rows : List TransactionRow) (txs : List (Transaction H))
      → transactions_from_rows H rows ≡ ok txs
      → All (λ r. Known all r.hash r.payout_group_id r.nonce) rows
      → All (KnownTx all) txs
  read-KnownTx all [] [] e a = tt
  read-KnownTx all [] (x ∷ txs) e a = cc
  read-KnownTx all (r ∷ rows) [] e a = tt
  read-KnownTx all (r ∷ rows) (x ∷ txs) e a =
      let (p, q) = cons_read r rows x txs e in
      let (hash, nonce, group, _, _) = transaction_from_row_fields r p in
      (rw (hash, nonce, group) a.0, read-KnownTx all rows txs q a.1)
