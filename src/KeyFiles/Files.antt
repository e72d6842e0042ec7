-- ===== src/KeyFiles/Files.antt =====
-- What `pathlib` gives auth/key_manager.py: directories and files.
use custom_vpn_implementatio.Common.{
  ◌≡◌, ◌↔◌, Bool, true, false, Option, none, some, List, [], ◌∷◌, Bytes, Text, ◌&&◌, bytes_eq,
  bytes_eq_iff, arith, if◌then◌else◌,
}
use custom_vpn_implementatio.Common.Exec.{◌>>=◌, Exec, Result, ok, err, os_error}

-- The names from a file up to its root.
abbrev pub FilePath : Type 0
FilePath = List Text

pub data Node : Type 0 where
  file : Bytes → Node
  folder : Node

-- What stands where, and where the system refuses to write or to read.
pub record Disk : Type 0 where
  pub node : FilePath → Option Node
  pub refuses : FilePath → Bool
  pub unreadable : FilePath → Bool

unfoldable pub path_eq : FilePath → FilePath → Bool
path_eq [] [] = true
path_eq [] (n ∷ ns) = false
path_eq (m ∷ ms) [] = false
path_eq (m ∷ ms) (n ∷ ns) = bytes_eq m n && path_eq ms ns

pub path_eq_iff : (p q : FilePath) → (path_eq p q ≡ true) ↔ (p ≡ q)
unfolding path_eq
path_eq_iff [] [] = ground arith
path_eq_iff [] (n ∷ ns) = ground arith
path_eq_iff (m ∷ ms) [] = ground arith
path_eq_iff (m ∷ ms) (n ∷ ns) = ground (arith, bytes_eq_iff m n, path_eq_iff ms ns)

-- `path.parent`
abbrev pub parent : FilePath → FilePath
parent [] = []
parent (n ∷ ns) = ns

abbrev pub put_node : FilePath → Node → Disk → Disk
put_node p n d = record d { node = λ q. if path_eq p q then some n else d.node q }

abbrev pub create : (refused : Bool) → FilePath → Node → Exec Disk (Unit {0})
create true p n d = (err os_error, d)
create false p n d = (ok tt, put_node p n d)

-- A directory whose parents are made first.
abbrev pub mkdir_at : Exec Disk (Unit {0}) → FilePath → Option Node → Exec Disk (Unit {0})
mkdir_at parents p (some folder) d = (ok tt, d)
mkdir_at parents p (some (file bytes)) d = (err os_error, d)
mkdir_at parents p none d = (parents >>= λ u d'. create (d'.refuses p) p folder d') d

-- `path.mkdir(parents=True, exist_ok=True)`
unfoldable pub mkdir_parents : FilePath → Exec Disk (Unit {0})
mkdir_parents [] d = (ok tt, d)
mkdir_parents (n ∷ ns) d = mkdir_at (mkdir_parents ns) (n ∷ ns) (d.node (n ∷ ns)) d

-- `path.write_bytes(data)`, where the parent has been made: a directory cannot be written.
abbrev pub write_at : Option Node → FilePath → Bytes → Exec Disk (Unit {0})
write_at (some folder) p bytes d = (err os_error, d)
write_at _ p bytes d = create (d.refuses p) p (file bytes) d

unfoldable pub write_bytes : FilePath → Bytes → Exec Disk (Unit {0})
write_bytes p bytes d = write_at (d.node p) p bytes d

-- `path.read_bytes()`
abbrev pub read_at : Bool → Option Node → Result Bytes
read_at false (some (file bytes)) = ok bytes
read_at unreadable n = err os_error

unfoldable pub read_bytes : FilePath → Exec Disk Bytes
read_bytes p d = (read_at (d.unreadable p) (d.node p), d)
