-- ===== src/Crypto/Toy.antt =====
-- Primitives that satisfy the laws, to instantiate theorems at. They hide nothing.
use custom_vpn_implementatio.Common.{
  ℕ, ◌+◌, ◌-◌, ◌*◌, ◌%◌, ◌≡◌, refl, ap, ap₂, some, [], ◌∷◌, ◌++◌, Bytes, length, take, map,
  replicate, bytes_eq, bytes_eq_refl, arith, length-append, length-replicate, take-append, IsBytes,
}
use custom_vpn_implementatio.Crypto.{Primitives, Laws}

abbrev checksum : Bytes → ℕ
checksum [] = 0
checksum (b ∷ bs) = b + checksum bs

abbrev fingerprint : Bytes → Bytes → Bytes
fingerprint key message = (checksum key * 3 + checksum message + 1) % 256 ∷ []

abbrev pub toy : Primitives
toy = record {
  aes_encrypt = λ key nonce plaintext. plaintext ++ replicate 16 0;
  aes_decrypt = λ key nonce ciphertext. some (take (length ciphertext - 16) ciphertext);
  hmac_sha256 = λ key message. fingerprint key message ++ replicate 31 0;
  hkdf_sha256 = λ secret salt info size. replicate size (checksum secret % 256);
  public_key = λ private_key. private_key;
  rsa_sign = λ private_key seed message. fingerprint private_key message;
  rsa_verify = λ key signature message. bytes_eq signature (fingerprint key message);
  rsa_encrypt = λ key seed plaintext. map (λ b. b % 256) plaintext;
  rsa_decrypt = λ private_key ciphertext. some ciphertext;
}

map-mod : (bs : Bytes) → IsBytes bs → map (λ b. b % 256) bs ≡ bs
map-mod [] h = refl
map-mod (b ∷ bs) h = ap₂ (λ x l. x ∷ l) (omega arith) (map-mod bs h.1)

pub map-mod-IsBytes : (bs : Bytes) → IsBytes (map (λ b. b % 256) bs)
map-mod-IsBytes [] = tt
map-mod-IsBytes (b ∷ bs) = (omega arith, map-mod-IsBytes bs)

decrypt-encrypt_toy :
    (plaintext : Bytes) → let c = plaintext ++ replicate 16 0 in take (length c - 16) c ≡ plaintext
decrypt-encrypt_toy plaintext =
    take-append _ plaintext (replicate 16 0)
      (omega (arith, length-append plaintext (replicate 16 0)))

pub toy-Laws : Laws toy
toy-Laws = record {
  decrypt-encrypt = λ key nonce plaintext _ _. ap some (decrypt-encrypt_toy plaintext);
  length-encrypt = λ key nonce plaintext. length-append plaintext (replicate 16 0);
  length-hmac = λ key message. refl;
  hmac-IsBytes = λ key message. omega arith;
  length-hkdf = λ secret salt info size _. length-replicate size (checksum secret % 256);
  verify-sign = λ key seed message. bytes_eq_refl (fingerprint key message);
  sign-IsBytes = λ key seed message. omega arith;
  rsa_decrypt-encrypt = λ key seed plaintext h _. ap some (map-mod plaintext h);
  rsa_encrypt-IsBytes = λ key seed plaintext. map-mod-IsBytes plaintext;
}
