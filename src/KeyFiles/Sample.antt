-- ===== src/KeyFiles/Sample.antt =====
-- A PEM format that keeps its laws, and an empty disk.
use custom_vpn_implementatio.Common.{
  zero, suc, ◌≡◌, refl, false, Option, none, some, [], ◌∷◌, Bytes,
}
use custom_vpn_implementatio.Common.Exec.{Result, ok, err, type_error}
use custom_vpn_implementatio.KeyFiles.Files.{Disk}
use custom_vpn_implementatio.KeyFiles.{KeyPackage, KeyLaws}

-- The PEM of a private key begins with its password, or with the word for none.
abbrev pub pem_of : Bytes → Option Bytes → Bytes
pem_of key none = 0 ∷ key
pem_of key (some password) = 1 ∷ key

abbrev pub key_of : Bytes → Option Bytes → Result Bytes
key_of (zero ∷ key) none = ok key
key_of (suc n ∷ key) (some password) = ok key
key_of _ password = err type_error

abbrev pub pems : KeyPackage
pems = record {
  generate_private_key = λ e bits seed. seed ∷ [];
  private_pem = pem_of;
  public_pem = λ key. key;
  load_pem_private_key = key_of;
  load_pem_public_key = λ pem. ok pem;
}

pub load-pem_of :
    (key : Bytes) (password : Option Bytes) → key_of (pem_of key password) password ≡ ok key
load-pem_of key none = refl
load-pem_of key (some password) = refl

pub pems-KeyLaws : KeyLaws pems
pems-KeyLaws = record {
  load-private_pem = load-pem_of;
  load-unencrypted = λ key password. refl;
  load-public_pem = λ key. refl;
}

abbrev pub empty : Disk
empty = record { node = λ p. none; refuses = λ p. false; unreadable = λ p. false }
