-- ===== src/Payoutdb/Same.antt =====
-- pkg/payoutdb/payoutdb.dbx.go: what an insert or an update of tx leaves as it was.
use crypto_batch_payment.Base.{
  ℕ, String, Bool, true, false, not, ◌&&◌, ◌∙◌, ◌≡◌, ◌≢◌, refl, ◌⊎◌, inr, Option, List, [], ◌∷◌,
  map, ◌==◌, str_eq, eq_iff, any, All, arith,
}
use crypto_batch_payment.Payoutdb.{TransactionRow}
use crypto_batch_payment.Payoutdb.Rows.{has_pending, settle}

abbrev pub contains : List String → String → Bool
contains hs h = any (λ k. str_eq k h) hs

-- Whether a hash is that of a row of another group.
abbrev pub stolen : String → ℕ → List TransactionRow → Bool
stolen h id = any (λ r. str_eq r.hash h && not (r.payout_group_id == id))

-- The rows of `ys` are those of `xs`, with the same hashes and payout groups; the rest of a row is
-- another at most where the hash is one of `hs`.
abbrev pub SameBut : List String → List TransactionRow → List TransactionRow → Type 0
SameBut hs [] [] = Unit
SameBut hs [] (y ∷ ys) = ⊥
SameBut hs (x ∷ xs) [] = ⊥
SameBut hs (x ∷ xs) (y ∷ ys) =
    (y.hash ≡ x.hash)
    × (y.payout_group_id ≡ x.payout_group_id)
    × ((contains hs x.hash ≡ true) ⊎ (y ≡ x))
    × SameBut hs xs ys

pub SameBut-refl : (hs : List String) (xs : List TransactionRow) → SameBut hs xs xs
SameBut-refl hs [] = tt
SameBut-refl hs (x ∷ xs) = (refl, refl, inr refl, SameBut-refl hs xs)

pub SameBut-trans :
    (hs : List String) (xs ys zs : List TransactionRow)
    → SameBut hs xs ys
    → SameBut hs ys zs
    → SameBut hs xs zs
SameBut-trans hs [] [] [] p q = tt
SameBut-trans hs [] [] (z ∷ zs) p q = absurd q
SameBut-trans hs [] (y ∷ ys) zs p q = absurd p
SameBut-trans hs (x ∷ xs) [] zs p q = absurd p
SameBut-trans hs (x ∷ xs) (y ∷ ys) [] p q = absurd q
SameBut-trans hs (x ∷ xs) (y ∷ ys) (z ∷ zs) p q =
    let rest = SameBut-trans hs xs ys zs p.3 q.3 in (q.0 ∙ p.0, q.1 ∙ p.1, either, rest)
  where
    either : (contains hs x.hash ≡ true) ⊎ (z ≡ x)
    either = ground (arith, p.0, p.2, q.2)

pub SameBut-settle :
    (hs : List String) (now : ℕ) (h state : String) (receipt : Option String)
    (xs : List TransactionRow)
    → contains hs h ≡ true
    → SameBut hs xs (map (settle now h state receipt) xs)
SameBut-settle hs now h state receipt [] e = tt
SameBut-settle hs now h state receipt (x ∷ xs) e =
    ground (arith, eq_iff x.hash h, SameBut-settle hs now h state receipt xs e)

pub SameBut-hash_known :
    (hs : List String) (h : String) (xs ys : List TransactionRow)
    → SameBut hs xs ys
    → any (λ x. str_eq x.hash h) ys ≡ any (λ x. str_eq x.hash h) xs
SameBut-hash_known hs h [] [] p = refl
SameBut-hash_known hs h [] (y ∷ ys) p = absurd p
SameBut-hash_known hs h (x ∷ xs) [] p = absurd p
SameBut-hash_known hs h (x ∷ xs) (y ∷ ys) p = rw (p.0, SameBut-hash_known hs h xs ys p.3)

pub SameBut-stolen :
    (hs : List String) (h : String) (id : ℕ) (xs ys : List TransactionRow)
    → SameBut hs xs ys
    → stolen h id ys ≡ stolen h id xs
SameBut-stolen hs h id [] [] p = refl
SameBut-stolen hs h id [] (y ∷ ys) p = absurd p
SameBut-stolen hs h id (x ∷ xs) [] p = absurd p
SameBut-stolen hs h id (x ∷ xs) (y ∷ ys) p = rw (p.0, p.1, SameBut-stolen hs h id xs ys p.3)

-- A row with one of the hashes is of the group that they belong to.
owner_of_hash :
    (hs : List String) (id : ℕ) (x : TransactionRow) (xs : List TransactionRow)
    → All (λ h. stolen h id (x ∷ xs) ≡ false) hs
    → contains hs x.hash ≡ true
    → x.payout_group_id ≡ id
owner_of_hash [] id x xs owned e = cc
owner_of_hash (h ∷ hs) id x xs owned e =
    ground (arith, eq_iff h x.hash, eq_iff x.hash h, owner_of_hash hs id x xs owned.1)

All-stolen_tail :
    (hs : List String) (id : ℕ) (x : TransactionRow) (xs : List TransactionRow)
    → All (λ h. stolen h id (x ∷ xs) ≡ false) hs
    → All (λ h. stolen h id xs ≡ false) hs
All-stolen_tail [] id x xs owned = tt
All-stolen_tail (h ∷ hs) id x xs owned = ground (arith, All-stolen_tail hs id x xs owned.1)

-- If the hashes belong to one group, another keeps its pending rows.
pub SameBut-has_pending :
    (hs : List String) (id other : ℕ) (xs ys : List TransactionRow)
    → SameBut hs xs ys
    → All (λ h. stolen h id xs ≡ false) hs
    → id ≢ other
    → has_pending xs other ≡ true
    → has_pending ys other ≡ true
SameBut-has_pending hs id other [] [] p owned ne e = e
SameBut-has_pending hs id other [] (y ∷ ys) p owned ne e = absurd p
SameBut-has_pending hs id other (x ∷ xs) [] p owned ne e = absurd p
SameBut-has_pending hs id other (x ∷ xs) (y ∷ ys) p owned ne e = ground (
  arith,
  p.1,
  p.2,
  owner_of_hash hs id x xs owned,
  SameBut-has_pending hs id other xs ys p.3 (All-stolen_tail hs id x xs owned) ne,
)
