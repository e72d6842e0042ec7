-- ===== src/Startup/Deployed.antt =====
-- The two programs on the files that generate_keys.py has written, with their default settings.
use custom_vpn_implementatio.Common.{
  ℕ, ◌≡◌, refl, ap, sym, ◌∙◌, subst, true, false, none, some, List, ◌∷◌, Bytes, Text, codes,
  bytes_eq,
}
use custom_vpn_implementatio.Common.Exec.{Result, ok, bind_ok}
use custom_vpn_implementatio.Common.Strings.{split}
use custom_vpn_implementatio.Crypto.{Primitives}
use custom_vpn_implementatio.Json.{Codec, Json, str, num, int, find}
use custom_vpn_implementatio.KeyFiles.Files.{FilePath, Disk}
use custom_vpn_implementatio.KeyFiles.{
  KeyPackage, KeyLaws, generate_rsa_keypair, load_private_key, load_public_key,
}
use custom_vpn_implementatio.KeyFiles.Generate.{
  generate_keys, server_private, server_public, client_private, client_public,
}
use custom_vpn_implementatio.KeyFiles.Generate.Stored.{generate_keys_lem}
use custom_vpn_implementatio.Access.{AccessController, V6}
use custom_vpn_implementatio.Rate.{new_limiter}
use custom_vpn_implementatio.Server.Config.{default_config, load_config}
use custom_vpn_implementatio.Server.Config.Options.{Arguments, configured, override}
use custom_vpn_implementatio.Server.Threads.Started.{rate_limiter_of, limit}
use custom_vpn_implementatio.Tunnel.{TunnelClient}
use custom_vpn_implementatio.Startup.{
  path_of, Accept, accept_loop, item, Serving, load_whitelist, start_server, server_main,
  run_client, client_keys, client_main, run_with, default_client,
}

-- No option is given on the command line of the server.
abbrev pub no_arguments : Arguments
no_arguments = record {
  listen_ip = none;
  listen_port = none;
  server_key = none;
  client_pubkey = none;
  whitelist = none;
}

no_arguments-configured : configured no_arguments none ≡ default_config
unfolding configured override load_config
no_arguments-configured = refl

default_limits : rate_limiter_of default_config ≡ some (new_limiter 10 20 5 50 300)
unfolding rate_limiter_of limit find bytes_eq
default_limits = refl

-- The files of the default settings are those of generate_keys.py in `keys`.
abbrev pub keys_in : FilePath → FilePath
keys_in cwd = codes "keys" ∷ cwd

default_paths :
    (cwd : FilePath)
    → (path_of cwd (codes "keys/server_private.pem") ≡ server_private (keys_in cwd))
      × (path_of cwd (codes "keys/server_public.pem") ≡ server_public (keys_in cwd))
      × (path_of cwd (codes "keys/client_private.pem") ≡ client_private (keys_in cwd))
      × (path_of cwd (codes "keys/client_public.pem") ≡ client_public (keys_in cwd))
unfolding path_of split bytes_eq
default_paths cwd = (refl, refl, refl, refl)

-- What the threads of a server with the default limits get.
abbrev pub default_serving : (priv_s pub_c : Bytes) → AccessController → Serving
default_serving priv_s pub_c ctl = record {
  server_private_key = priv_s;
  client_public_key = pub_c;
  access_ctl = ctl;
  limiter = some (new_limiter 10 20 5 50 300);
}

module _ (k : KeyPackage) (cwd : FilePath) (d : Disk) where
  abbrev ServerKeys : Bytes → Bytes → Type 0
  ServerKeys priv_s pub_c =
      (load_private_key k (path_of cwd (codes "keys/server_private.pem")) none d ≡ (ok priv_s, d))
      × (load_public_key k (path_of cwd (codes "keys/client_public.pem")) d ≡ (ok pub_c, d))

  start_server-default :
      (v6 : V6) (decode : Bytes → Result Text) (bound : Json → Json → _ → Result (Unit {0}))
      (accepts : List Accept) (priv_s pub_c : Bytes) (ctl : AccessController)
      → ServerKeys priv_s pub_c
      → load_whitelist v6 decode cwd (some (str (codes "config/whitelist.txt"))) d ≡ (ok ctl, d)
      → bound (str (codes "0.0.0.0")) (num (int 4433)) none ≡ ok tt
      → start_server v6 decode cwd k bound accepts default_config d
        ≡ (ok (default_serving priv_s pub_c ctl, accept_loop accepts), d)
  unfolding start_server item find bytes_eq
  start_server-default v6 decode bound accepts priv_s pub_c ctl (e1, e2) e3 e4 =
      bind_ok _ _ refl
      ∙ bind_ok _ _ refl
      ∙ bind_ok _ _ refl
      ∙ bind_ok _ _ refl
      ∙ bind_ok _ _ e1
      ∙ bind_ok _ _ refl
      ∙ bind_ok _ _ refl
      ∙ bind_ok _ _ e2
      ∙ bind_ok _ _ e3
      ∙ bind_ok _ _ (ap (λ r. (r, d)) e4)
      ∙ ap
          (λ o. (
            ok (record (default_serving priv_s pub_c ctl) { limiter = o }, accept_loop accepts),
            d,
          ))
          default_limits

  client_main-default :
      (second : ℕ) (p : Primitives) (c : Codec) (bound : Result (Unit {0})) (accepts : List Accept)
      (priv_c pub_s : Bytes)
      → load_private_key k (path_of cwd (codes "keys/client_private.pem")) none d ≡ (ok priv_c, d)
      → load_public_key k (path_of cwd (codes "keys/server_public.pem")) d ≡ (ok pub_s, d)
      → (t : TunnelClient)
      → client_main second p c k cwd bound accepts default_client d t
        ≡ run_client second p c k cwd bound accepts priv_c pub_s t
  unfolding client_main client_keys
  client_main-default second p c bound accepts priv_c pub_s e1 e2 t =
      ap (λ r. run_with second p c k cwd bound accepts r.0 t) (bind_ok _ _ e1 ∙ bind_ok _ _ e2)

-- If generate_keys.py has written its files to `keys` below the working directory, these may be read, the
-- whitelist is loaded, and the listening socket opens: then the server, started with no option and
-- no configuration file, serves every client with its own private key, the public key that belongs
-- to the client's private key, the whitelist and the default limits; and the client, started with the default
-- paths, opens its tunnel with its own private key and the public key that belongs to the server's
-- private key.
pub programs_agree :
    (second : ℕ) (p : Primitives) (c : Codec) (k : KeyPackage) (laws : KeyLaws k) (cwd : FilePath)
    (v6 : V6) (decode : Bytes → Result Text) (bound : Json → Json → _ → Result (Unit {0}))
    (accepts : List Accept) (client_bound : Result (Unit {0})) (client_accepts : List Accept)
    (server_seed client_seed : ℕ) (d d' : Disk) (ctl : AccessController)
    → d.unreadable (server_private (keys_in cwd)) ≡ false
    → d.unreadable (server_public (keys_in cwd)) ≡ false
    → d.unreadable (client_private (keys_in cwd)) ≡ false
    → d.unreadable (client_public (keys_in cwd)) ≡ false
    → generate_keys p k (keys_in cwd) server_seed client_seed d ≡ (ok tt, d')
    → load_whitelist v6 decode cwd (some (str (codes "config/whitelist.txt"))) d' ≡ (ok ctl, d')
    → bound (str (codes "0.0.0.0")) (num (int 4433)) none ≡ ok tt
    → let (s_priv, s_pub) = generate_rsa_keypair p k 2048 server_seed in
      let (c_priv, c_pub) = generate_rsa_keypair p k 2048 client_seed in
      (server_main v6 decode cwd k bound accepts true no_arguments none d'
        ≡ (ok (default_serving s_priv (p.public_key c_priv) ctl, accept_loop accepts), d'))
      × ((t : TunnelClient)
          → client_main second p c k cwd client_bound client_accepts default_client d' t
            ≡ run_client second p c k cwd client_bound client_accepts c_priv
                (p.public_key s_priv)
                t)
unfolding server_main
programs_agree second p c k laws cwd v6 decode bound accepts client_bound client_accepts server_seed
      client_seed d d' ctl r1 r2 r3 r4 generated whitelist opens =
    let (s_priv, s_pub) = generate_rsa_keypair p k 2048 server_seed in
    let (c_priv, c_pub) = generate_rsa_keypair p k 2048 client_seed in
    let (e1, e2, e3, e4) =
      generate_keys_lem p k laws (keys_in cwd) server_seed client_seed d d' r1 r2 r3 r4 generated in
    let (p1, p2, p3, p4) = default_paths cwd in
    let private_at = λ (q : FilePath) (key : Bytes). load_private_key k q none d' ≡ (ok key, d') in
    let public_at = λ (q : FilePath) (key : Bytes). load_public_key k q d' ≡ (ok key, d') in
    (
      bind_ok _ _ refl
          ∙ ap (λ cfg. start_server v6 decode cwd k bound accepts cfg d') no_arguments-configured
          ∙ start_server-default k cwd d' v6 decode bound accepts s_priv (p.public_key c_priv) ctl
              (
                subst (λ q. private_at q s_priv) (sym p1) e1,
                subst (λ q. public_at q (p.public_key c_priv)) (sym p4) e2,
              )
              whitelist opens,
      client_main-default k cwd d' second p c client_bound client_accepts c_priv
          (p.public_key s_priv) (subst (λ q. private_at q c_priv) (sym p3) e3)
          (subst (λ q. public_at q (p.public_key s_priv)) (sym p2) e4),
    )
