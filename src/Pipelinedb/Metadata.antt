-- ===== src/Pipelinedb/Metadata.antt =====
-- pkg/pipelinedb/db.go: RecordStart.
use crypto_batch_payment.Base.{
  inl, inr, ◌⊎◌, true, false, is_err, ℕ, zero, suc, String, ◌≡◌, ◌≢◌, refl, Option, none, some,
  eq_iff, arith,
}
use crypto_batch_payment.Host.{Host}
use crypto_batch_payment.Payoutdb.{MetadataRow, Conn, hooks_now}
use crypto_batch_payment.Payoutdb.Rows.{update_metadata}
use crypto_batch_payment.Payoutdb.Writes.{update_no_return_metadata}
use crypto_batch_payment.Pipelinedb.Operations.{
  start_spender, start_owner, address_text, record_start,
}

start_spender_later :
    (attempts : ℕ) (known : Option String) (spender : String)
    → attempts ≢ 0
    → (is_err (start_spender attempts known spender) ≡ true) ⊎ (known ≡ some spender)
start_spender_later zero known spender later = absurd (later refl)
start_spender_later (suc n) none spender later = inl refl
start_spender_later (suc n) (some old) spender later = ground (arith, eq_iff old spender)

start_owner_later :
    (attempts : ℕ) (known owner : Option String)
    → attempts ≢ 0
    → (is_err (start_owner attempts known owner) ≡ true) ⊎ (owner ≡ known)
start_owner_later zero known owner later = absurd (later refl)
start_owner_later (suc n) none none later = inr refl
start_owner_later (suc n) none (some owner) later = inl refl
start_owner_later (suc n) (some old) none later = inl refl
start_owner_later (suc n) (some old) (some owner) later = ground (arith, eq_iff old owner)

module _ {H : Host} where
  -- After the first attempt, a start is recorded only for the spender and the owner, or none, of
  -- the metadata; a start that is refused leaves the tables as they were.
  pub record_start_lem :
      (metadata : MetadataRow) (spender : ℕ) (owner : Option ℕ) (c : Conn H)
      → metadata.attempts ≢ 0
      → let (r, c') = record_start H metadata spender owner c in
        ((is_err r ≡ true) × (c'.tables ≡ c.tables))
        ⊎ ((is_err r ≡ false)
            × (metadata.spender ≡ some (H.address_string spender))
            × (address_text H owner ≡ metadata.owner))
  unfolding record_start update_no_return_metadata hooks_now update_metadata
  record_start_lem metadata spender owner c later = ground (
    arith,
    start_spender_later metadata.attempts metadata.spender (H.address_string spender) later,
    start_owner_later metadata.attempts metadata.owner (address_text H owner) later,
  )
