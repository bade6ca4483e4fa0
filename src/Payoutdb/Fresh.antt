-- ===== src/Payoutdb/Fresh.antt =====
-- pkg/payoutdb/payoutdb.dbx.go: a row that has just been inserted is the one that its id finds.
use crypto_batch_payment.Base.{
  ℕ, ◌≤◌, ◌<◌, ◌≡◌, some, List, [], ◌∷◌, ◌++◌, map, ◌==◌, find, All, arith,
}
use crypto_batch_payment.Payoutdb.{TransactionRow, next_pk}

next_pk-lt :
    (k : ℕ) (xs : List TransactionRow) → next_pk (map (λ y. y.pk) xs) ≤ k → All (λ y. y.pk < k) xs
unfolding next_pk
next_pk-lt k [] h = tt
next_pk-lt k (x ∷ xs) h = ground (arith, next_pk-lt k xs)

find-append_new :
    (k : ℕ) (xs : List TransactionRow) (x : TransactionRow)
    → All (λ y. y.pk < k) xs
    → x.pk ≡ k
    → find (λ y. y.pk == k) (xs ++ x ∷ []) ≡ some x
find-append_new k [] x h e = ground arith
find-append_new k (y ∷ xs) x h e = ground (arith, find-append_new k xs x h.1 e)

pub find-next_pk :
    (xs : List TransactionRow) (x : TransactionRow)
    → x.pk ≡ next_pk (map (λ y. y.pk) xs)
    → find (λ y. y.pk == next_pk (map (λ y. y.pk) xs)) (xs ++ x ∷ []) ≡ some x
find-next_pk xs x e =
    let k : ℕ = next_pk (map (λ y. y.pk) xs) in
    find-append_new k xs x (next_pk-lt k xs (omega arith)) e
