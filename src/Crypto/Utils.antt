-- ===== src/Crypto/Utils.antt =====
-- crypto/crypto_utils.py.
use custom_vpn_implementatio.Common.{
  ℕ, ◌+◌, Bool, not, Option, none, some, Bytes, length, take, drop, codes, bytes_eq, ◌==◌,
}
use custom_vpn_implementatio.Common.Exec.{
  ◌>>=◌, ◌>>◌, pure, raise, raise_if, value_error, bad_key_size, bad_nonce_size, invalid_tag,
}
use custom_vpn_implementatio.World.{Action, urandom}
use custom_vpn_implementatio.Crypto.{Primitives}

abbrev pub aes_key_size : ℕ
aes_key_size = 32

abbrev pub gcm_nonce_size : ℕ
gcm_nonce_size = 12

abbrev pub hmac_key_size : ℕ
hmac_key_size = 32

abbrev pub hmac_digest_size : ℕ
hmac_digest_size = 32

unfoldable pub generate_session_key : Action Bytes
unfolding urandom
generate_session_key = urandom aes_key_size

-- `b"vpn-tunnel-keys"`
abbrev pub default_info : Bytes
default_info = codes "vpn-tunnel-keys"

abbrev pub or_invalid_tag : Option Bytes → Action Bytes
or_invalid_tag none = raise invalid_tag
or_invalid_tag (some plaintext) = pure plaintext

module _ (p : Primitives) where
  -- Returns the ciphertext with its tag, and the nonce.
  unfoldable pub encrypt_payload : Bytes → Bytes → Action (Bytes × Bytes)
  encrypt_payload plaintext key = do
    raise_if (not (length key == aes_key_size)) (value_error bad_key_size)
    nonce ← urandom gcm_nonce_size
    pure (p.aes_encrypt key nonce plaintext, nonce)

  unfoldable pub decrypt_payload : Bytes → Bytes → Bytes → Action Bytes
  decrypt_payload ciphertext nonce key = do
    raise_if (not (length key == aes_key_size)) (value_error bad_key_size)
    raise_if (not (length nonce == gcm_nonce_size)) (value_error bad_nonce_size)
    or_invalid_tag (p.aes_decrypt key nonce ciphertext)

  unfoldable pub compute_hmac : Bytes → Bytes → Bytes
  compute_hmac message key = p.hmac_sha256 key message

  -- `compare_digest` is equality; that it takes constant time is not modelled.
  unfoldable pub verify_hmac : Bytes → Bytes → Bytes → Bool
  unfolding compute_hmac
  verify_hmac message mac key = bytes_eq (compute_hmac message key) mac

  -- The encryption key and the MAC key.
  unfoldable pub derive_keys : Bytes → Option Bytes → Bytes → Bytes × Bytes
  derive_keys master_secret salt info =
      let derived = p.hkdf_sha256 master_secret salt info (aes_key_size + hmac_key_size) in
      (take aes_key_size derived, drop aes_key_size derived)
