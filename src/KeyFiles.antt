-- ===== src/KeyFiles.antt =====
-- auth/key_manager.py: RSA keys in PEM files. The PEM format and the generation of keys are the
-- package `cryptography`'s, a parameter. A private key is what its unencrypted PEM holds, as in
-- Crypto.antt.
pub mod Files
pub mod Saved
pub mod Sample
pub mod Generate
mod Tests
use custom_vpn_implementatio.Common.{ℕ, ◌≡◌, Option, none, some, [], ◌∷◌, Bytes}
use custom_vpn_implementatio.Common.Exec.{
  ◌>>=◌, ◌>>◌, pure, lift, Exec, Exn, Result, ok, err, value_error, type_error,
}
use custom_vpn_implementatio.Crypto.{Primitives}
use Files.{FilePath, Disk, parent, mkdir_parents, write_bytes, read_bytes}

-- `rsa.generate_private_key` with the randomness that it draws, `private_bytes` in PKCS8 under a
-- password or none, `public_bytes`, and the loading functions with the exceptions that they raise.
pub record KeyPackage : Type 0 where
  pub generate_private_key : (public_exponent key_size seed : ℕ) → Bytes
  pub private_pem : (key : Bytes) → Option Bytes → Bytes
  pub public_pem : (key : Bytes) → Bytes
  pub load_pem_private_key : (pem : Bytes) → Option Bytes → Result Bytes
  pub load_pem_public_key : (pem : Bytes) → Result Bytes

-- The documented behaviour: a key comes back under the password that it was stored with, and
-- `TypeError` is raised if a password is given for a key that is not encrypted.
pub record KeyLaws (k : KeyPackage) : Type 0 where
  pub load-private_pem :
      (key : Bytes) (password : Option Bytes)
      → k.load_pem_private_key (k.private_pem key password) password ≡ ok key
  pub load-unencrypted :
      (key password : Bytes)
      → k.load_pem_private_key (k.private_pem key none) (some password) ≡ err type_error
  pub load-public_pem : (key : Bytes) → k.load_pem_public_key (k.public_pem key) ≡ ok key

abbrev pub default_key_size : ℕ
default_key_size = 2048

abbrev pub default_public_exponent : ℕ
default_public_exponent = 65537

-- `if passphrase:`
abbrev pub encryption : Option Bytes → Option Bytes
encryption none = none
encryption (some []) = none
encryption (some (b ∷ bs)) = some (b ∷ bs)

module _ (p : Primitives) (k : KeyPackage) where
  unfoldable pub generate_rsa_keypair : (bits seed : ℕ) → Bytes × Bytes
  generate_rsa_keypair bits seed =
      let private_key = k.generate_private_key default_public_exponent bits seed in
      (private_key, p.public_key private_key)

module _ (k : KeyPackage) where
  unfoldable pub save_private_key :
      (key : Bytes) → FilePath → (passphrase : Option Bytes) → Exec Disk (Unit {0})
  save_private_key key path passphrase = do
    mkdir_parents (parent path)
    write_bytes path (k.private_pem key (encryption passphrase))

  unfoldable pub save_public_key : (key : Bytes) → FilePath → Exec Disk (Unit {0})
  save_public_key key path = do mkdir_parents (parent path); write_bytes path (k.public_pem key)

  unfoldable pub load_private_key : FilePath → (passphrase : Option Bytes) → Exec Disk Bytes
  load_private_key path passphrase = do
    data_in ← read_bytes path
    lift (k.load_pem_private_key data_in passphrase)

  unfoldable pub load_public_key : FilePath → Exec Disk Bytes
  load_public_key path = do data_in ← read_bytes path; lift (k.load_pem_public_key data_in)
