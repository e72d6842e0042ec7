-- ===== src/Crypto.antt =====
-- The primitives that crypto/ and auth/ call and do not define: AES-GCM, HMAC-SHA256, HKDF and RSA
-- of the `cryptography` package, of `hmac` and of `hashlib`. They are one parameter of the model,
-- and what the code relies on is a second record.
pub mod Utils
pub mod Toy
use custom_vpn_implementatio.Common.{
  ℕ, ◌+◌, ◌≤◌, ◌≡◌, Bool, true, Option, some, Bytes, length, IsBytes,
}

-- `aes_decrypt`, `rsa_decrypt` and `load_*` give `none` where the package raises; `rsa_verify`
-- gives `false`. Keys are what a PEM file holds. Padding takes its random bytes as `seed`.
pub record Primitives : Type 0 where
  pub aes_encrypt : (key nonce plaintext : Bytes) → Bytes
  pub aes_decrypt : (key nonce ciphertext : Bytes) → Option Bytes
  pub hmac_sha256 : (key message : Bytes) → Bytes
  pub hkdf_sha256 : (secret : Bytes) (salt : Option Bytes) (info : Bytes) (size : ℕ) → Bytes
  pub public_key : (private_key : Bytes) → Bytes
  pub rsa_sign : (private_key seed message : Bytes) → Bytes
  pub rsa_verify : (public_key signature message : Bytes) → Bool
  pub rsa_encrypt : (public_key seed plaintext : Bytes) → Bytes
  pub rsa_decrypt : (private_key ciphertext : Bytes) → Option Bytes

-- The documented behaviour of the packages.
pub record Laws (p : Primitives) : Type 0 where
  pub decrypt-encrypt :
      (key nonce plaintext : Bytes)
      → length key ≡ 32
      → length nonce ≡ 12
      → p.aes_decrypt key nonce (p.aes_encrypt key nonce plaintext) ≡ some plaintext
  pub length-encrypt :
      (key nonce plaintext : Bytes)
      → length (p.aes_encrypt key nonce plaintext) ≡ length plaintext + 16
  pub length-hmac : (key message : Bytes) → length (p.hmac_sha256 key message) ≡ 32
  pub hmac-IsBytes : (key message : Bytes) → IsBytes (p.hmac_sha256 key message)
  pub length-hkdf :
      (secret : Bytes) (salt : Option Bytes) (info : Bytes) (size : ℕ)
      → size ≤ 8160
      → length (p.hkdf_sha256 secret salt info size) ≡ size
  pub verify-sign :
      (private_key seed message : Bytes)
      → p.rsa_verify (p.public_key private_key) (p.rsa_sign private_key seed message) message ≡ true
  pub sign-IsBytes :
      (private_key seed message : Bytes) → IsBytes (p.rsa_sign private_key seed message)
  pub rsa_decrypt-encrypt :
      (private_key seed plaintext : Bytes)
      → IsBytes plaintext
      → length plaintext ≤ 190
      → p.rsa_decrypt private_key (p.rsa_encrypt (p.public_key private_key) seed plaintext)
        ≡ some plaintext
  pub rsa_encrypt-IsBytes :
      (public_key seed plaintext : Bytes) → IsBytes (p.rsa_encrypt public_key seed plaintext)
