-- ===== src/Proxy/Files.antt =====
-- The file system and `std::path`, which budget.rs takes from the standard library. A step returns
-- its error or its result, and the disk it leaves.
use jesterky.Prelude.{◌≢◌, some, ℕ, ◌≡◌, ◌⊎◌, Bool, List, Option, String, Result, ok}

abbrev pub FilePath : Type 0
FilePath = String

abbrev pub Bytes : Type 0
Bytes = List ℕ

-- `fs::read`: the bytes, `ErrorKind::NotFound`, or another error.
pub data Read : Type 0 where
  found : Bytes → Read
  not_found : Read
  failed : String → Read

pub record Paths : Type 0 where
  pub is_absolute : FilePath → Bool
  pub parent : FilePath → Option FilePath
  pub with_extension : FilePath → String → FilePath
  pub path_eq : FilePath → FilePath → Bool

abbrev pub Effect : Type 0 → Type 0
Effect Disk = Disk → Result String Unit × Disk

pub record Files (Disk : Type 0) : Type 0 where
  pub create_dir_all : FilePath → Effect Disk
  -- Opening the lock file and locking it.
  pub lock : FilePath → Effect Disk
  pub read : FilePath → Disk → Read
  pub write : FilePath → Bytes → Effect Disk
  -- `File::open` and `sync_all`.
  pub sync : FilePath → Effect Disk
  pub rename : FilePath → FilePath → Effect Disk

-- What the reservation relies on at the ledger `path`: making its directory leaves the file alone,
-- and so do locking and writing the files beside it, where these are other files; a file that is
-- written is read back; `sync_all` changes no file; a rename puts the one file in the place of the
-- other, and one that fails has done so or nothing.
pub record IsFileSystem {Disk : Type 0} (files : Files Disk) (paths : Paths) (path : FilePath)
    : Type 0 where
  pub dir_keeps :
      (parent : FilePath) (d : Disk)
      → paths.parent path ≡ some parent
      → files.read path (files.create_dir_all parent d).1 ≡ files.read path d
  pub lock_keeps :
      (d : Disk)
      → paths.with_extension path "lock" ≢ path
      → files.read path (files.lock (paths.with_extension path "lock") d).1 ≡ files.read path d
  pub write_keeps :
      (b : Bytes) (d : Disk)
      → paths.with_extension path "pending" ≢ path
      → files.read path (files.write (paths.with_extension path "pending") b d).1
        ≡ files.read path d
  pub write_reads :
      (b : Bytes) (d : Disk)
      → (files.write (paths.with_extension path "pending") b d).0 ≡ ok tt
      → files.read
          (paths.with_extension path "pending")
          (files.write (paths.with_extension path "pending") b d).1
        ≡ found b
  pub sync_keeps : (p q : FilePath) (d : Disk) → files.read p (files.sync q d).1 ≡ files.read p d
  pub rename_replaces :
      (d : Disk)
      → (files.rename (paths.with_extension path "pending") path d).0 ≡ ok tt
      → files.read path (files.rename (paths.with_extension path "pending") path d).1
        ≡ files.read (paths.with_extension path "pending") d
  pub rename_fails :
      (d : Disk)
      → (files.read path (files.rename (paths.with_extension path "pending") path d).1
          ≡ files.read path d)
        ⊎ (files.read path (files.rename (paths.with_extension path "pending") path d).1
            ≡ files.read (paths.with_extension path "pending") d)

-- The extension of the ledger's path is neither `pending` nor `lock`.
abbrev pub HasOwnName : Paths → FilePath → Type 0
HasOwnName paths path =
    (paths.with_extension path "pending" ≢ path) × (paths.with_extension path "lock" ≢ path)
