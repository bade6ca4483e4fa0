-- ===== src/Payoutdb/Keys.antt =====
-- pkg/payoutdb/payoutdb.dbx.go: payout_group rows have ids of their own, so that a row that a query
-- finds is the one that its id finds.
use crypto_batch_payment.Base.{
  ℕ, String, Bool, true, false, ◌≡◌, refl, inl, inr, some, List, [], ◌∷◌, map, ◌==◌, any, find,
  Bool-cases, arith,
}
use crypto_batch_payment.Payoutdb.{PayoutGroupRow}
use crypto_batch_payment.Payoutdb.Rows.{finish_group}

abbrev pub UniquePks : List PayoutGroupRow → Type 0
UniquePks [] = Unit
UniquePks (g ∷ gs) = (any (λ h. h.pk == g.pk) gs ≡ false) × UniquePks gs

any-finish_group :
    (now id : ℕ) (hash : String) (pk : ℕ) (gs : List PayoutGroupRow)
    → any (λ h. h.pk == pk) (map (finish_group now id hash) gs) ≡ any (λ h. h.pk == pk) gs
any-finish_group now id hash pk [] = refl
any-finish_group now id hash pk (g ∷ gs) = ground (arith, any-finish_group now id hash pk gs)

pub finish_group-UniquePks :
    (now id : ℕ) (hash : String) (gs : List PayoutGroupRow)
    → UniquePks gs
    → UniquePks (map (finish_group now id hash) gs)
finish_group-UniquePks now id hash [] u = tt
finish_group-UniquePks now id hash (g ∷ gs) u = (
  ground (arith, any-finish_group now id hash g.pk gs),
  finish_group-UniquePks now id hash gs u.1,
)

find-other :
    (p : PayoutGroupRow → Bool) (pk : ℕ) (gs : List PayoutGroupRow) (g : PayoutGroupRow)
    → find p gs ≡ some g
    → any (λ h. h.pk == pk) gs ≡ false
    → (g.pk == pk) ≡ false
find-other p pk [] g e n = cc
find-other p pk (x ∷ xs) g e n = ground (arith, find-other p pk xs g)

-- A row that passes a test is found by its id.
pub find-by_pk :
    (p : PayoutGroupRow → Bool) (gs : List PayoutGroupRow) (g : PayoutGroupRow)
    → UniquePks gs
    → find p gs ≡ some g
    → (find (λ h. h.pk == g.pk) gs ≡ some g) × (p g ≡ true)
find-by_pk p [] g u e = cc
find-by_pk p (x ∷ xs) g u e = elim (Bool-cases (p x)) [
  | inl passes ↦ ground arith
  | inr fails ↦ ground (arith, find-by_pk p xs g u.1, find-other p x.pk xs g)
]
