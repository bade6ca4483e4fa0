-- ===== src/Helpers.antt =====
-- pkg/helpers.go: hashes and addresses from their texts.
use crypto_batch_payment.Base.{
  ℕ, String, str_eq, if◌then◌else◌, Result, ok, err, bad_hash, bad_address,
}
use crypto_batch_payment.Host.{Host}

-- `HexToHash` accepts anything; a text that is not the hash's own is refused.
unfoldable pub hash_from_string : (H : Host) → String → Result ℕ
hash_from_string H s =
    let h = H.hex_to_hash s in if str_eq (H.hash_hex h) s then ok h else err bad_hash

unfoldable pub address_from_string : (H : Host) → String → Result ℕ
address_from_string H s = if H.is_hex_address s then ok (H.hex_to_address s) else err bad_address
