-- ===== src/KeyFiles/Tests.antt =====
-- A pair of keys on an empty disk.
use custom_vpn_implementatio.Common.{◌≡◌, ◌≢◌, refl, none, [], ◌∷◌, codes, bytes_eq}
use custom_vpn_implementatio.Common.Exec.{◌>>=◌, ◌>>◌, ok}
use custom_vpn_implementatio.Crypto.Toy.{toy}
use custom_vpn_implementatio.KeyFiles.Files.{
  FilePath, Disk, mkdir_parents, write_bytes, path_eq, path_eq_iff,
}
use custom_vpn_implementatio.KeyFiles.{
  generate_rsa_keypair, save_private_key, save_public_key, load_private_key, load_public_key,
}
use custom_vpn_implementatio.KeyFiles.Sample.{pems, pems-KeyLaws, empty}
use custom_vpn_implementatio.KeyFiles.Saved.{loaded, load-save}

abbrev private_path : FilePath
private_path = codes "a" ∷ codes "keys" ∷ []

abbrev public_path : FilePath
public_path = codes "b" ∷ codes "keys" ∷ []

abbrev saved : Disk
saved =
    ((save_private_key pems (5 ∷ []) private_path none >> save_public_key pems (5 ∷ []) public_path)
      empty).1

differ : private_path ≢ public_path
unfolding path_eq bytes_eq
differ same = cc ((path_eq_iff private_path public_path).1 same)

load-save_example :
    (load_private_key pems private_path none saved
      ≡ (loaded toy pems pems-KeyLaws (5 ∷ []) none, saved))
    × (load_public_key pems public_path saved ≡ (ok (5 ∷ []), saved))
unfolding ◌>>=◌ save_private_key mkdir_parents write_bytes path_eq bytes_eq save_public_key
    generate_rsa_keypair
load-save_example =
    load-save toy pems pems-KeyLaws 2048 5 private_path public_path none empty saved differ refl
      refl refl
