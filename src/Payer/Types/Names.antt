-- ===== src/Payer/Types/Names.antt =====
-- pkg/payer/types.go: which names are read as which payment method.
use crypto_batch_payment.Base.{String, eq_iff, ◌≡◌, refl, subst, ◌↔◌, ◌⊎◌, inl, inr, ok, arith}
use crypto_batch_payment.Payer.Types.{
  PayerType, eth, sim, zksync_era, polygon, type_string, type_of_name, type_from_string,
}

-- The names of a payment method, in lower case.
abbrev pub Names : String → PayerType → Type 0
Names s t = (type_string t ≡ s) ⊎ ((s ≡ "zksync2") × (t ≡ zksync_era))

named : (s : String) (t : PayerType) → type_of_name s ≡ ok t → Names s t
unfolding type_of_name type_string
named s t h = ground (
  arith,
  eq_iff s "eth",
  eq_iff s "polygon",
  eq_iff s "zksync-era",
  eq_iff s "zksync2",
  eq_iff s "sim",
)

of_own_name : (t : PayerType) → type_of_name (type_string t) ≡ ok t
unfolding type_of_name type_string
of_own_name eth = refl
of_own_name sim = refl
of_own_name zksync_era = refl
of_own_name polygon = refl

of_name : (s : String) (t : PayerType) → Names s t → type_of_name s ≡ ok t
unfolding type_of_name
of_name s t (inl e) = subst (λ x. type_of_name x ≡ ok t) e (of_own_name t)
of_name s t (inr (e, z)) = rw (e, z) refl

-- A text is read as a payment method just if it is its name in lower case, or the older name of
-- zksync-era.
pub type_from_string-Names :
    (to_lower : String → String) (s : String) (t : PayerType)
    → (type_from_string to_lower s ≡ ok t) ↔ Names (to_lower s) t
unfolding type_from_string
type_from_string-Names to_lower s t = (named (to_lower s) t, of_name (to_lower s) t)
