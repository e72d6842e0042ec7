-- ===== src/KeyFiles/Saved.antt =====
-- Keys that were saved, and come back.
use custom_vpn_implementatio.Common.{
  ℕ, ◌≡◌, ◌≢◌, refl, ap, sym, ◌∙◌, subst, Bool, true, false, Option, none, some, [], ◌∷◌, Bytes,
  arith,
}
use custom_vpn_implementatio.Common.Exec.{
  ◌>>◌, lift, Exec, Result, ok, err, type_error, bind_inv, bind_ok, Keeps, Keeps-bind,
}
use custom_vpn_implementatio.Crypto.{Primitives}
use custom_vpn_implementatio.KeyFiles.Files.{
  FilePath, Node, file, folder, Disk, path_eq_iff, parent, put_node, create, mkdir_at,
  mkdir_parents, write_at, write_bytes, read_bytes,
}
use custom_vpn_implementatio.KeyFiles.{
  KeyPackage, KeyLaws, encryption, generate_rsa_keypair, save_private_key, save_public_key,
  load_private_key, load_public_key,
}

-- What stands at a path, and may be read.
abbrev pub Holds : FilePath → Node → Disk → Type 0
Holds q n d = (d.node q ≡ some n) × (d.unreadable q ≡ false)

put_node-Holds :
    (p q : FilePath) (m n : Node) (d : Disk) → p ≢ q → Holds q n d → Holds q n (put_node p m d)
put_node-Holds p q m n d other (h, r) = (ground (arith, path_eq_iff p q, other, h), r)

create-Holds :
    (refused : Bool) (p q : FilePath) (m n : Node) → p ≢ q → Keeps (Holds q n) (create refused p m)
create-Holds true p q m n other d h = h
create-Holds false p q m n other d h = put_node-Holds p q m n d other h

-- A directory is made only where nothing stands.
mkdir_at-Holds :
    (parents : Exec Disk (Unit {0})) (p q : FilePath) (n : Node) (o : Option Node) (d : Disk)
    → Keeps (Holds q n) parents
    → d.node p ≡ o
    → Holds q n d
    → Holds q n (mkdir_at parents p o d).1
mkdir_at-Holds parents p q n (some folder) d keeps e h = h
mkdir_at-Holds parents p q n (some (file bytes)) d keeps e h = h
mkdir_at-Holds parents p q n none d keeps e h =
    let other : p ≢ q = λ same. absurd (cc (subst (λ r. d.node r ≡ none) same e, h.0)) in
    Keeps-bind (Holds q n) parents (λ u d'. create (d'.refuses p) p folder d') keeps
      (λ u d'. create-Holds (d'.refuses p) p q folder n other d') d h

mkdir_parents-Holds : (p q : FilePath) (n : Node) → Keeps (Holds q n) (mkdir_parents p)
unfolding mkdir_parents
mkdir_parents-Holds [] q n d h = h
mkdir_parents-Holds (m ∷ ms) q n d h =
    mkdir_at-Holds (mkdir_parents ms) (m ∷ ms) q n (d.node (m ∷ ms)) d (mkdir_parents-Holds ms q n)
      refl h

write_at-Holds :
    (o : Option Node) (p q : FilePath) (bytes : Bytes) (n : Node)
    → p ≢ q
    → Keeps (Holds q n) (write_at o p bytes)
write_at-Holds (some folder) p q bytes n other d h = h
write_at-Holds (some (file old)) p q bytes n other d h =
    create-Holds (d.refuses p) p q (file bytes) n other d h
write_at-Holds none p q bytes n other d h = create-Holds (d.refuses p) p q (file bytes) n other d h

-- What was written stands there.
create_done :
    (refused : Bool) (p : FilePath) (n : Node) (d d' : Disk)
    → create refused p n d ≡ (ok tt, d')
    → (d'.node p ≡ some n) × (d'.unreadable ≡ d.unreadable)
create_done true p n d d' e = absurd (cc (ap (λ r. r.0) e))
create_done false p n d d' e =
    let same : put_node p n d ≡ d' = ap (λ r. r.1) e in
    (
      subst (λ d2. d2.node p ≡ some n) same (rw ((path_eq_iff p p).1 refl) refl),
      sym (ap (λ d2. d2.unreadable) same),
    )

write_at_done :
    (o : Option Node) (p : FilePath) (bytes : Bytes) (d d' : Disk)
    → write_at o p bytes d ≡ (ok tt, d')
    → (d'.node p ≡ some (file bytes)) × (d'.unreadable ≡ d.unreadable)
write_at_done (some folder) p bytes d d' e = absurd (cc (ap (λ r. r.0) e))
write_at_done (some (file old)) p bytes d d' e = create_done (d.refuses p) p (file bytes) d d' e
write_at_done none p bytes d d' e = create_done (d.refuses p) p (file bytes) d d' e

-- `mkdir` changes nothing of who may read.
create-unreadable :
    (u : FilePath → Bool) (refused : Bool) (p : FilePath) (n : Node)
    → Keeps (λ d. d.unreadable ≡ u) (create refused p n)
create-unreadable u true p n d h = h
create-unreadable u false p n d h = h

mkdir_at-unreadable :
    (u : FilePath → Bool) (parents : Exec Disk (Unit {0})) (p : FilePath) (o : Option Node)
    → Keeps (λ d. d.unreadable ≡ u) parents
    → Keeps (λ d. d.unreadable ≡ u) (mkdir_at parents p o)
mkdir_at-unreadable u parents p (some folder) keeps d h = h
mkdir_at-unreadable u parents p (some (file bytes)) keeps d h = h
mkdir_at-unreadable u parents p none keeps d h =
    Keeps-bind (λ d. d.unreadable ≡ u) parents (λ t d'. create (d'.refuses p) p folder d') keeps
      (λ t d'. create-unreadable u (d'.refuses p) p folder d') d h

pub mkdir_parents-unreadable :
    (u : FilePath → Bool) (p : FilePath) → Keeps (λ d. d.unreadable ≡ u) (mkdir_parents p)
unfolding mkdir_parents
mkdir_parents-unreadable u [] d h = h
mkdir_parents-unreadable u (m ∷ ms) d h =
    mkdir_at-unreadable u (mkdir_parents ms) (m ∷ ms) (d.node (m ∷ ms))
      (mkdir_parents-unreadable u ms) d h

abbrev pub save : FilePath → Bytes → Exec Disk (Unit {0})
save path pem = do mkdir_parents (parent path); write_bytes path pem

pub save_done :
    (path : FilePath) (pem : Bytes) (d d' : Disk)
    → save path pem d ≡ (ok tt, d')
    → d.unreadable path ≡ false
    → Holds path (file pem) d'
unfolding write_bytes
save_done path pem d d' e readable =
    let (u, made, written) = bind_inv (mkdir_parents (parent path)) (λ u. write_bytes path pem) e in
    let d1 = (mkdir_parents (parent path) d).1 in
    let (stands, same) = write_at_done (d1.node path) path pem d1 d' written in
    (
      stands,
      ap (λ f. f path) (same ∙ mkdir_parents-unreadable d.unreadable (parent path) d refl)
          ∙ readable,
    )

write_at-unreadable :
    (u : FilePath → Bool) (o : Option Node) (p : FilePath) (bytes : Bytes)
    → Keeps (λ d. d.unreadable ≡ u) (write_at o p bytes)
write_at-unreadable u (some folder) p bytes d h = h
write_at-unreadable u (some (file old)) p bytes d h =
    create-unreadable u (d.refuses p) p (file bytes) d h
write_at-unreadable u none p bytes d h = create-unreadable u (d.refuses p) p (file bytes) d h

pub save-unreadable :
    (u : FilePath → Bool) (path : FilePath) (pem : Bytes)
    → Keeps (λ d. d.unreadable ≡ u) (save path pem)
unfolding write_bytes
save-unreadable u path pem =
    Keeps-bind (λ d. d.unreadable ≡ u) (mkdir_parents (parent path)) (λ t. write_bytes path pem)
      (mkdir_parents-unreadable u (parent path))
      (λ t d. write_at-unreadable u (d.node path) path pem d)

pub save-Holds :
    (path q : FilePath) (pem : Bytes) (n : Node) → path ≢ q → Keeps (Holds q n) (save path pem)
unfolding write_bytes
save-Holds path q pem n other =
    Keeps-bind (Holds q n) (mkdir_parents (parent path)) (λ u. write_bytes path pem)
      (mkdir_parents-Holds (parent path) q n)
      (λ u d. write_at-Holds (d.node path) path q pem n other d)

read-Holds :
    (p : FilePath) (bytes : Bytes) (d : Disk)
    → Holds p (file bytes) d
    → read_bytes p d ≡ (ok bytes, d)
unfolding read_bytes
read-Holds p bytes d (h, r) = rw (h, r) refl

module _ (p : Primitives) (k : KeyPackage) (laws : KeyLaws k) where
  -- What a private key is loaded as.
  abbrev pub loaded : Bytes → Option Bytes → Result Bytes
  loaded key (some []) = err type_error
  loaded key passphrase = ok key

  load_saved :
      (key : Bytes) (passphrase : Option Bytes)
      → k.load_pem_private_key (k.private_pem key (encryption passphrase)) passphrase
        ≡ loaded key passphrase
  load_saved key none = laws.load-private_pem key none
  load_saved key (some []) = laws.load-unencrypted key []
  load_saved key (some (b ∷ bs)) = laws.load-private_pem key (some (b ∷ bs))

  pub load_private_key-Holds :
      (key : Bytes) (passphrase : Option Bytes) (path : FilePath) (d : Disk)
      → Holds path (file (k.private_pem key (encryption passphrase))) d
      → load_private_key k path passphrase d ≡ (loaded key passphrase, d)
  unfolding load_private_key
  load_private_key-Holds key passphrase path d h =
      bind_ok (read_bytes path) (λ data_in. lift (k.load_pem_private_key data_in passphrase))
        (read-Holds path _ d h)
      ∙ ap (λ r. (r, d)) (load_saved key passphrase)

  pub load_public_key-Holds :
      (key : Bytes) (path : FilePath) (d : Disk)
      → Holds path (file (k.public_pem key)) d
      → load_public_key k path d ≡ (ok key, d)
  unfolding load_public_key
  load_public_key-Holds key path d h =
      bind_ok (read_bytes path) (λ data_in. lift (k.load_pem_public_key data_in))
        (read-Holds path _ d h)
      ∙ ap (λ r. (r, d)) (laws.load-public_pem key)

  -- If a generated pair was saved to two different paths that may be read, the public key is loaded
  -- back, and so is the private key under the passphrase that it was saved with, be it none; but with
  -- an empty passphrase, under which it was stored unencrypted, loading raises `TypeError`.
  pub load-save :
      (bits seed : ℕ) (private_path public_path : FilePath) (passphrase : Option Bytes)
      (d d' : Disk)
      → private_path ≢ public_path
      → d.unreadable private_path ≡ false
      → d.unreadable public_path ≡ false
      → let (private_key, public_key) = generate_rsa_keypair p k bits seed in
        (save_private_key k private_key private_path passphrase
              >> save_public_key k public_key public_path)
            d
          ≡ (ok tt, d')
        → (load_private_key k private_path passphrase d' ≡ (loaded private_key passphrase, d'))
          × (load_public_key k public_path d' ≡ (ok public_key, d'))
  unfolding save_private_key save_public_key
  load-save bits seed private_path public_path passphrase d d' differ r1 r2 saved =
      let (private_key, public_key) = generate_rsa_keypair p k bits seed in
      let private_pem = k.private_pem private_key (encryption passphrase) in
      let (u, first, second) =
        bind_inv (save private_path private_pem) (λ u. save public_path (k.public_pem public_key))
          saved in
      let d1 = (save private_path private_pem d).1 in
      let still =
        ap (λ f. f public_path) (save-unreadable d.unreadable private_path private_pem d refl)
        ∙ r2 in
      let private_stands = save_done private_path private_pem d d1 first r1 in
      let public_stands = save_done public_path (k.public_pem public_key) d1 d' second still in
      let kept =
        save-Holds public_path private_path (k.public_pem public_key) (file private_pem)
          (λ same. differ (sym same)) d1 private_stands in
      (
        load_private_key-Holds private_key passphrase private_path d'
            (subst (Holds private_path (file private_pem)) (ap (λ r. r.1) second) kept),
        load_public_key-Holds public_key public_path d' public_stands,
      )
