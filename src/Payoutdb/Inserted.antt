-- ===== src/Payoutdb/Inserted.antt =====
-- pkg/payoutdb/payoutdb.dbx.go: the rows of tx after a transaction has been inserted.
use crypto_batch_payment.Base.{
  ℕ, String, Bool, true, false, ◌≡◌, refl, List, [], ◌∷◌, ◌++◌, str_eq, eq_iff, any, ok, arith,
}
use crypto_batch_payment.Payoutdb.{TransactionRow, Tables}
use crypto_batch_payment.Payoutdb.Rows.{hash_known, has_pending, insert_transaction}
use crypto_batch_payment.Payoutdb.Same.{stolen}

pub any-append {ℓ} :
    {A : Type ℓ} (p : A → Bool) (xs ys : List A) → any p xs ≡ true → any p (xs ++ ys) ≡ true
any-append p (x ∷ xs) ys h = ground (arith, any-append p xs ys)
any-append p [] ys h = cc

pub any-append_last {ℓ} :
    {A : Type ℓ} (p : A → Bool) (xs : List A) (x : A) → p x ≡ true → any p (xs ++ x ∷ []) ≡ true
any-append_last p [] x h = ground arith
any-append_last p (y ∷ xs) x h = ground (arith, any-append_last p xs x h)

pub any-append_none {ℓ} :
    {A : Type ℓ} (p : A → Bool) (xs : List A) (x : A)
    → any p xs ≡ false
    → p x ≡ false
    → any p (xs ++ x ∷ []) ≡ false
any-append_none p [] x h e = ground arith
any-append_none p (y ∷ xs) x h e = ground (arith, any-append_none p xs x)

module _ (x : TransactionRow) (t : Tables) {pk : ℕ} {t' : Tables}
    (inserted : insert_transaction x t ≡ ok (pk, t')) where
  -- The tables after an insert: the row is the last of tx, and its hash was not there.
  pub insert_shape :
      (t'.tx ≡ t.tx ++ record x { pk = pk } ∷ [])
      × (hash_known x.hash t ≡ false)
      × (t'.payout_group ≡ t.payout_group)
  unfolding insert_transaction
  insert_shape = ground arith

  pub insert-hash_known : (h : String) → hash_known h t ≡ true → hash_known h t' ≡ true
  insert-hash_known h e = rw (insert_shape.0) (any-append _ t.tx _ e)

  pub insert-hash_known_self : hash_known x.hash t' ≡ true
  insert-hash_known_self =
      rw (insert_shape.0) (any-append_last _ t.tx _ (ground (arith, eq_iff x.hash x.hash)))

  pub insert-has_pending : (id : ℕ) → has_pending t.tx id ≡ true → has_pending t'.tx id ≡ true
  insert-has_pending id e = rw (insert_shape.0) (any-append _ t.tx _ e)

  pub insert-has_pending_self :
      str_eq x.state "pending" ≡ true → has_pending t'.tx x.payout_group_id ≡ true
  insert-has_pending_self e = rw (insert_shape.0) (any-append_last _ t.tx _ (ground arith))

  -- The new row is of its own group, and no old row has its hash.
  stolen_unknown :
      (id : ℕ) (xs : List TransactionRow)
      → any (λ r. str_eq r.hash x.hash) xs ≡ false
      → stolen x.hash id xs ≡ false
  stolen_unknown id [] e = refl
  stolen_unknown id (y ∷ xs) e = ground (arith, stolen_unknown id xs)

  pub insert-stolen_self : stolen x.hash x.payout_group_id t'.tx ≡ false
  insert-stolen_self = rw (insert_shape.0) (
      any-append_none _ t.tx _ (stolen_unknown x.payout_group_id t.tx insert_shape.1)
        (ground arith))

  pub insert-stolen :
      (h : String) (id : ℕ)
      → hash_known h t ≡ true
      → stolen h id t.tx ≡ false
      → stolen h id t'.tx ≡ false
  insert-stolen h id known e =
      rw (insert_shape.0)
        (any-append_none _ t.tx _ e (ground (arith, eq_iff x.hash h, insert_shape.1)))
