-- ===== src/KeyFiles/Generate.antt =====
-- scripts/generate_keys.py: the two key pairs and their four files.
pub mod Stored
use custom_vpn_implementatio.Common.{ℕ, none, ◌∷◌, Text, codes}
use custom_vpn_implementatio.Common.Exec.{◌>>=◌, ◌>>◌, Exec}
use custom_vpn_implementatio.Crypto.{Primitives}
use custom_vpn_implementatio.KeyFiles.Files.{FilePath, Disk, mkdir_parents}
use custom_vpn_implementatio.KeyFiles.{
  KeyPackage, generate_rsa_keypair, save_private_key, save_public_key,
}

-- The files of `KEYS_DIR`.
abbrev pub server_private : FilePath → FilePath
server_private keys_dir = codes "server_private.pem" ∷ keys_dir

abbrev pub server_public : FilePath → FilePath
server_public keys_dir = codes "server_public.pem" ∷ keys_dir

abbrev pub client_private : FilePath → FilePath
client_private keys_dir = codes "client_private.pem" ∷ keys_dir

abbrev pub client_public : FilePath → FilePath
client_public keys_dir = codes "client_public.pem" ∷ keys_dir

-- `main`, with the randomness of each pair.
unfoldable pub generate_keys :
    (p : Primitives) (k : KeyPackage)
    → FilePath
    → (server_seed client_seed : ℕ) → Exec Disk (Unit {0})
generate_keys p k keys_dir server_seed client_seed =
    let (s_priv, s_pub) = generate_rsa_keypair p k 2048 server_seed in
    let (c_priv, c_pub) = generate_rsa_keypair p k 2048 client_seed in
    do
      mkdir_parents keys_dir
      save_private_key k s_priv (server_private keys_dir) none
      save_public_key k s_pub (server_public keys_dir)
      save_private_key k c_priv (client_private keys_dir) none
      save_public_key k c_pub (client_public keys_dir)
