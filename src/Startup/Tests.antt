-- ===== src/Startup/Tests.antt =====
-- The two programs after generate_keys.py, on an empty disk.
use custom_vpn_implementatio.Common.{◌≡◌, refl, true, none, some, List, [], ◌∷◌, codes, bytes_eq}
use custom_vpn_implementatio.Common.Exec.{◌>>=◌, ok}
use custom_vpn_implementatio.Common.Strings.{split}
use custom_vpn_implementatio.Crypto.Toy.{toy}
use custom_vpn_implementatio.Json.{truthy}
use custom_vpn_implementatio.Json.Toy
use custom_vpn_implementatio.KeyFiles.Files.{FilePath, Disk, mkdir_parents, write_bytes, path_eq}
use custom_vpn_implementatio.KeyFiles.{generate_rsa_keypair, save_private_key, save_public_key}
use custom_vpn_implementatio.KeyFiles.Generate.{generate_keys}
use custom_vpn_implementatio.KeyFiles.Sample.{pems, pems-KeyLaws, empty}
use custom_vpn_implementatio.Access.{V6}
use custom_vpn_implementatio.Tunnel.{TunnelClient}
use custom_vpn_implementatio.Startup.{
  path_of, Accept, connection, interrupted, accept_loop, allow_all, load_whitelist, server_main,
  run_client, client_main, default_client,
}
use custom_vpn_implementatio.Startup.Deployed.{
  no_arguments, keys_in, default_serving, programs_agree,
}

abbrev v4_only : V6
v4_only = record { address = λ t. none; network = λ t. none }

abbrev accepts : List Accept
accepts = connection (codes "10.0.0.1") ∷ interrupted ∷ []

abbrev root : FilePath
root = codes "vpn" ∷ []

abbrev written : Disk
written = (generate_keys toy pems (keys_in root) 5 6 empty).1

programs_agree_example :
    (server_main v4_only
        (λ bytes. ok bytes)
        root
        pems
        (λ ip port backlog. ok tt)
        accepts
        true
        no_arguments
        none
        written
      ≡ (
        ok (
          default_serving
              (5 ∷ [])
              (toy.public_key (6 ∷ []))
              (allow_all v4_only (λ bytes. ok bytes) root (some (codes "config/whitelist.txt"))),
          accept_loop accepts,
        ),
        written,
      ))
    × ((t : TunnelClient)
        → client_main 1 toy Toy.toy pems root (ok tt) [] default_client written t
          ≡ run_client 1 toy Toy.toy pems root (ok tt) [] (6 ∷ []) (toy.public_key (5 ∷ [])) t)
unfolding generate_keys generate_rsa_keypair ◌>>=◌ save_private_key save_public_key mkdir_parents
    write_bytes path_eq bytes_eq load_whitelist path_of split truthy
programs_agree_example =
    programs_agree 1 toy Toy.toy pems pems-KeyLaws root v4_only (λ bytes. ok bytes)
      (λ ip port backlog. ok tt) accepts (ok tt) [] 5 6 empty written
      (allow_all v4_only (λ bytes. ok bytes) root (some (codes "config/whitelist.txt"))) refl refl
      refl refl refl refl refl
