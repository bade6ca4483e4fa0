-- ===== src/Pipeline/Invariant.antt =====
-- pkg/pipeline/pipeline.go: what holds between the database, the nonce groups of a run and what
-- has been sent; and how it survives a change of the rows or of one group.
pub mod Sends
pub mod Checks
pub mod Loop
pub mod Checking
pub mod Fills
pub mod Steps
pub mod Starts
pub mod Grouping
pub mod Process
use crypto_batch_payment.Base.{
  ℕ, String, Bool, true, false, ◌≡◌, ◌≢◌, refl, ◌⊎◌, inl, inr, List, [], ◌∷◌, ◌++◌, map, any, All,
  str_eq, Result, ok, arith,
}
use crypto_batch_payment.Host.{Host}
use crypto_batch_payment.Payoutdb.{TransactionRow, Tables}
use crypto_batch_payment.Payoutdb.Rows.{hash_known, has_pending, insert_transaction}
use crypto_batch_payment.Payoutdb.Same.{
  stolen, SameBut, SameBut-hash_known, SameBut-stolen, SameBut-has_pending,
}
use crypto_batch_payment.Payoutdb.Keys.{UniquePks}
use crypto_batch_payment.Payoutdb.Inserted.{insert-hash_known, insert-has_pending, insert-stolen}
use crypto_batch_payment.Pipelinedb.{Transaction, NonceGroup}
use crypto_batch_payment.Payer.{RawTransaction}
use crypto_batch_payment.Pipeline.{Run}
use crypto_batch_payment.Pipeline.Send.{is_empty}

abbrev pub known : String → List TransactionRow → Bool
known h txs = any (λ r. str_eq r.hash h) txs

module _ {H : Host} where
  -- A transaction of a group has a row, and every row with its hash is of the group.
  abbrev pub TxOk : List TransactionRow → ℕ → Transaction H → Type 0
  TxOk txs id x = (known x.hash txs ≡ true) × (stolen x.hash id txs ≡ false)

  -- A group is finished, or has a pending row.
  abbrev pub GroupOk : List TransactionRow → NonceGroup H → Type 0
  GroupOk txs g =
      All (TxOk txs g.payout_group_id) g.txs
      × ((is_empty g.txs ≡ true) ⊎ (has_pending txs g.payout_group_id ≡ true))

  -- Two groups that are both not finished are for different payout groups.
  abbrev pub Apart : NonceGroup H → NonceGroup H → Type 0
  Apart g h =
      (is_empty g.txs ≡ true) ⊎ (is_empty h.txs ≡ true) ⊎ (g.payout_group_id ≢ h.payout_group_id)

  abbrev pub Distinct : List (NonceGroup H) → Type 0
  Distinct [] = Unit
  Distinct (g ∷ gs) = All (Apart g) gs × Distinct gs

  pub record InvOf (t : Tables) (sent : List (RawTransaction H)) (gs : List (NonceGroup H))
      : Type 0 where
    pub write_ahead : All (λ raw. hash_known raw.hash t ≡ true) sent
    pub groups_ok : All (GroupOk t.tx) gs
    pub distinct : Distinct gs
    pub keyed : UniquePks t.payout_group

  -- What has been sent is recorded, each group is as it should be, no payout group is paid by two
  -- groups, and the ids of the rows of payout_group are of one row each.
  abbrev pub Inv : Run H → Type 0
  Inv s = InvOf s.conn.tables s.sent s.nonce_groups

  pub InvOf-cast :
      {t t' : Tables} {sent sent' : List (RawTransaction H)} {gs gs' : List (NonceGroup H)}
      → t' ≡ t
      → sent' ≡ sent
      → gs' ≡ gs
      → InvOf t sent gs
      → InvOf t' sent' gs'
  InvOf-cast p q r i = rw (p, q, r) i

  -- `g` goes on or is finished as `g'`.
  abbrev pub Follows : NonceGroup H → NonceGroup H → Type 0
  Follows g g' =
      (g'.payout_group_id ≡ g.payout_group_id)
      × ((is_empty g'.txs ≡ true) ⊎ (is_empty g.txs ≡ false))

  Apart-Follows_left : (g g' h : NonceGroup H) → Follows g g' → Apart g h → Apart g' h
  Apart-Follows_left g g' h f a = ground arith

  Apart-Follows_right : (g g' h : NonceGroup H) → Follows g g' → Apart h g → Apart h g'
  Apart-Follows_right g g' h f a = ground arith

  All-Apart-Follows :
      (g g' : NonceGroup H) (hs : List (NonceGroup H))
      → Follows g g'
      → All (Apart g) hs
      → All (Apart g') hs
  All-Apart-Follows g g' [] f a = tt
  All-Apart-Follows g g' (h ∷ hs) f a =
      (Apart-Follows_left g g' h f a.0, All-Apart-Follows g g' hs f a.1)

  pub All-replace :
      (P : NonceGroup H → Type 0) (before : List (NonceGroup H)) (g g' : NonceGroup H)
      (after : List (NonceGroup H))
      → (P g → P g')
      → All P (before ++ g ∷ after)
      → All P (before ++ g' ∷ after)
  All-replace P [] g g' after f a = (f a.0, a.1)
  All-replace P (b ∷ before) g g' after f a = (a.0, All-replace P before g g' after f a.1)

  pub Distinct-replace :
      (before : List (NonceGroup H)) (g g' : NonceGroup H) (after : List (NonceGroup H))
      → Follows g g'
      → Distinct (before ++ g ∷ after)
      → Distinct (before ++ g' ∷ after)
  Distinct-replace [] g g' after f d = (All-Apart-Follows g g' after f d.0, d.1)
  Distinct-replace (b ∷ before) g g' after f d = (
    All-replace (Apart b) before g g' after (Apart-Follows_right g g' b f) d.0,
    Distinct-replace before g g' after f d.1,
  )

  pub All-snoc :
      (P : NonceGroup H → Type 0) (gs : List (NonceGroup H)) (g : NonceGroup H)
      → All P gs
      → P g
      → All P (gs ++ g ∷ [])
  All-snoc P [] g a p = (p, tt)
  All-snoc P (h ∷ gs) g a p = (a.0, All-snoc P gs g a.1 p)

  pub Distinct-append :
      (gs : List (NonceGroup H)) (g : NonceGroup H)
      → All (λ h. Apart h g) gs
      → Distinct gs
      → Distinct (gs ++ g ∷ [])
  Distinct-append [] g a d = (tt, tt)
  Distinct-append (h ∷ gs) g a d = (All-snoc (Apart h) gs g d.0 a.0, Distinct-append gs g a.1 d.1)

  -- Apart from a group that is not finished.
  abbrev pub Other : ℕ → NonceGroup H → Type 0
  Other id h = (is_empty h.txs ≡ true) ⊎ (id ≢ h.payout_group_id)

  pub All-Other :
      (g : NonceGroup H) (hs : List (NonceGroup H))
      → is_empty g.txs ≡ false
      → All (Apart g) hs
      → All (Other g.payout_group_id) hs
  All-Other g [] e a = tt
  All-Other g (h ∷ hs) e a = ground (arith, a.0, All-Other g hs e a.1)

  -- What holds of a group after an insert.
  All-TxOk-insert :
      (x : TransactionRow) (t : Tables) (pk : ℕ) (t' : Tables) (id : ℕ) (txs : List (Transaction H))
      → insert_transaction x t ≡ ok (pk, t')
      → All (TxOk t.tx id) txs
      → All (TxOk t'.tx id) txs
  All-TxOk-insert x t pk t' id [] i a = tt
  All-TxOk-insert x t pk t' id (y ∷ txs) i a = (
    (insert-hash_known x t i y.hash a.0.0, insert-stolen x t i y.hash id a.0.0 a.0.1),
    All-TxOk-insert x t pk t' id txs i a.1,
  )

  pub All-GroupOk-insert :
      (x : TransactionRow) (t : Tables) (pk : ℕ) (t' : Tables) (gs : List (NonceGroup H))
      → insert_transaction x t ≡ ok (pk, t')
      → All (GroupOk t.tx) gs
      → All (GroupOk t'.tx) gs
  All-GroupOk-insert x t pk t' [] i a = tt
  All-GroupOk-insert x t pk t' (g ∷ gs) i a = (
    (All-TxOk-insert x t pk t' g.payout_group_id g.txs i a.0.0, pending_still),
    All-GroupOk-insert x t pk t' gs i a.1,
  )
    where
      pending_still : (is_empty g.txs ≡ true) ⊎ (has_pending t'.tx g.payout_group_id ≡ true)
      pending_still = elim a.0.1 [
        | inl e ↦ inl e
        | inr e ↦ inr (insert-has_pending x t i g.payout_group_id e)
      ]
