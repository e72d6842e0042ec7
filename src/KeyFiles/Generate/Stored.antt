-- ===== src/KeyFiles/Generate/Stored.antt =====
-- The four files of generate_keys.py hold matching keys.
use custom_vpn_implementatio.Common.{
  ℕ, ◌≡◌, ◌≢◌, refl, ap, ◌∙◌, subst, false, none, List, [], ◌∷◌, Bytes, Text, bytes_eq, All,
}
use custom_vpn_implementatio.Common.Exec.{◌>>◌, pure, Exec, ok, bind_inv, Keeps, Keeps-bind}
use custom_vpn_implementatio.Crypto.{Primitives}
use custom_vpn_implementatio.KeyFiles.Files.{
  FilePath, file, Node, Disk, path_eq, path_eq_iff, mkdir_parents,
}
use custom_vpn_implementatio.KeyFiles.{
  KeyPackage, KeyLaws, generate_rsa_keypair, save_private_key, save_public_key, load_private_key,
  load_public_key,
}
use custom_vpn_implementatio.KeyFiles.Saved.{
  Holds, save, save_done, save-unreadable, save-Holds, mkdir_parents-unreadable,
  load_private_key-Holds, load_public_key-Holds,
}
use custom_vpn_implementatio.KeyFiles.Generate.{
  generate_keys, server_private, server_public, client_private, client_public,
}

abbrev Pem : Type 0
Pem = FilePath × Bytes

abbrev saves : List Pem → Exec Disk (Unit {0})
saves [] = pure tt
saves ((path, pem) ∷ []) = save path pem
saves ((path, pem) ∷ next ∷ rest) = save path pem >> saves (next ∷ rest)

-- No file is written over a file of the list before it.
abbrev IsApart : List Pem → Type 0
IsApart [] = Unit
IsApart ((path, pem) ∷ rest) = All (λ (q : Pem). q.0 ≢ path) rest × IsApart rest

saves-Holds :
    (path : FilePath) (n : Node) (l : List Pem)
    → All (λ (q : Pem). q.0 ≢ path) l
    → Keeps (Holds path n) (saves l)
saves-Holds path n [] a d h = h
saves-Holds path n ((q, pem) ∷ []) a d h = save-Holds q path pem n a.0 d h
saves-Holds path n ((q, pem) ∷ next ∷ rest) a d h =
    Keeps-bind (Holds path n) (save q pem) (λ u. saves (next ∷ rest)) (save-Holds q path pem n a.0)
      (λ u. saves-Holds path n (next ∷ rest) a.1) d h

-- What a disk holds after all is written.
abbrev AllHold : List Pem → Disk → Type 0
AllHold l d = All (λ (q : Pem). Holds q.0 (file q.1) d) l

saves_done :
    (u : FilePath → _) (l : List Pem) (d d' : Disk)
    → IsApart l
    → d.unreadable ≡ u
    → All (λ (q : Pem). u q.0 ≡ false) l
    → saves l d ≡ (ok tt, d')
    → AllHold l d'
saves_done u [] d d' a same readable e = tt
saves_done u ((path, pem) ∷ []) d d' a same readable e =
    (save_done path pem d d' e (ap (λ f. f path) same ∙ readable.0), tt)
saves_done u ((path, pem) ∷ next ∷ rest) d d' a same readable e =
    let (t, first, later) = bind_inv (save path pem) (λ t. saves (next ∷ rest)) e in
    let d1 = (save path pem d).1 in
    let stands = save_done path pem d d1 first (ap (λ f. f path) same ∙ readable.0) in
    (
      subst (Holds path (file pem)) (ap (λ r. r.1) later)
          (saves-Holds path (file pem) (next ∷ rest) a.0 d1 stands),
      saves_done u (next ∷ rest) d1 d' a.1 (save-unreadable u path pem d same) readable.1 later,
    )

-- Two files of one directory, by their names.
apart_names : (m n : Text) (dir : FilePath) → bytes_eq m n ≡ false → m ∷ dir ≢ n ∷ dir
unfolding path_eq
apart_names m n dir e same = cc (e, (path_eq_iff (m ∷ dir) (n ∷ dir)).1 same)

module _ (p : Primitives) (k : KeyPackage) (laws : KeyLaws k) where
  -- If generate_keys.py comes to its end, and its four files may be read, then what the server is to load
  -- are its private key and the public key of the client's private key, and what the client is to
  -- load are its private key and the public key of the server's private key.
  pub generate_keys_lem :
      (keys_dir : FilePath) (server_seed client_seed : ℕ) (d d' : Disk)
      → d.unreadable (server_private keys_dir) ≡ false
      → d.unreadable (server_public keys_dir) ≡ false
      → d.unreadable (client_private keys_dir) ≡ false
      → d.unreadable (client_public keys_dir) ≡ false
      → generate_keys p k keys_dir server_seed client_seed d ≡ (ok tt, d')
      → let (s_priv, s_pub) = generate_rsa_keypair p k 2048 server_seed in
        let (c_priv, c_pub) = generate_rsa_keypair p k 2048 client_seed in
        (load_private_key k (server_private keys_dir) none d' ≡ (ok s_priv, d'))
        × (load_public_key k (client_public keys_dir) d' ≡ (ok (p.public_key c_priv), d'))
        × (load_private_key k (client_private keys_dir) none d' ≡ (ok c_priv, d'))
        × (load_public_key k (server_public keys_dir) d' ≡ (ok (p.public_key s_priv), d'))
  unfolding generate_keys save_private_key save_public_key generate_rsa_keypair bytes_eq
  generate_keys_lem keys_dir server_seed client_seed d d' r1 r2 r3 r4 e =
      let (s_priv, s_pub) = generate_rsa_keypair p k 2048 server_seed in
      let (c_priv, c_pub) = generate_rsa_keypair p k 2048 client_seed in
      let l : List Pem =
        (server_private keys_dir, k.private_pem s_priv none)
        ∷ (server_public keys_dir, k.public_pem s_pub)
        ∷ (client_private keys_dir, k.private_pem c_priv none)
        ∷ (client_public keys_dir, k.public_pem c_pub)
        ∷ [] in
      let (t, made, written) = bind_inv (mkdir_parents keys_dir) (λ t. saves l) e in
      let d1 = (mkdir_parents keys_dir d).1 in
      let apart = λ (m n : Text) (x : bytes_eq m n ≡ false). apart_names m n keys_dir x in
      let (h1, (h2, (h3, (h4, end_)))) =
        saves_done d.unreadable l d1 d'
          (
            (apart _ _ refl, (apart _ _ refl, (apart _ _ refl, tt))),
            ((apart _ _ refl, (apart _ _ refl, tt)), ((apart _ _ refl, tt), (tt, tt))),
          )
          (mkdir_parents-unreadable d.unreadable keys_dir d refl) (r1, (r2, (r3, (r4, tt))))
          written in
      (
        load_private_key-Holds p k laws s_priv none (server_private keys_dir) d' h1,
        load_public_key-Holds p k laws c_pub (client_public keys_dir) d' h4,
        load_private_key-Holds p k laws c_priv none (client_private keys_dir) d' h3,
        load_public_key-Holds p k laws s_pub (server_public keys_dir) d' h2,
      )
