-- ===== src/Platform.antt =====
-- What TableFS takes from the bundled LevelDB (lib/leveldb, its public headers db.h and cache.h)
-- and from the C library: operations, and the documented behaviour that the theorems use.
pub mod Caching
pub mod Files
use tablefs.Base.{ℕ, ◌≡◌, Bool, true, Option, List, [], ◌∷◌, ◌==◌, if◌then◌else◌}
use tablefs.Key.{MetaKey, key_eq}
use tablefs.Value.{InodeValue}

-- The status and the value of `DB::Get`.
pub data Read : Type 0 where
  found : InodeValue → Read
  not_found : Read
  failed : Read

-- An entry of a `WriteBatch`.
pub data Update : Type 0 where
  puts : MetaKey → InodeValue → Update
  deletes : MetaKey → Update

-- The address of an `InodeCacheHandle`, the `void*` that the cache stores.
abbrev pub Ptr : Type 0
Ptr = ℕ

-- What a call of the C library gives: a value, or -1 with a number in errno.
pub data Call {ℓ} (A : Type ℓ) : Type ℓ where
  gives : A → Call A
  fails : ℕ → Call A

pub record Platform : Type 1 where
  -- `sizeof(struct stat)`
  pub sizeof_stat : ℕ
  -- `leveldb::DB`. A write takes the `sync` option and returns whether its status is ok.
  pub Db : Type 0
  pub db_get : MetaKey → Db → Read
  pub db_put : Bool → MetaKey → InodeValue → Db → Bool × Db
  pub db_put_text : Bool → List ℕ → List ℕ → Db → Bool × Db
  pub db_delete : MetaKey → Db → Bool × Db
  pub db_write : List Update → Db → Bool × Db
  -- The entries from a key on, as an iterator that was sought there visits them.
  pub db_from : MetaKey → Db → List (MetaKey × InodeValue)
  -- `leveldb::Cache`, from keys to pointers. Each method that may drop entries returns the
  -- pointers that it hands to the deleter.
  pub Cache : Type 0
  pub Handle : Type 0
  pub cache_insert : MetaKey → Ptr → Cache → Handle × List Ptr × Cache
  pub cache_lookup : MetaKey → Cache → Option Handle × Cache
  pub cache_value : Handle → Cache → Ptr
  pub cache_release : Handle → Cache → List Ptr × Cache
  pub cache_erase : MetaKey → Cache → List Ptr × Cache
  -- The data directory: a directory has a number, and a file a number in its directory.
  pub Disk : Type 0
  pub disk_mkdir : ℕ → Disk → Call (Unit {0}) × Disk
  pub disk_unlink : ℕ → ℕ → Disk → Disk
  -- `truncate(path, size)`, `open(path, flags | O_CREAT, mode)` and `open(path, O_RDONLY)`
  pub disk_truncate : ℕ → ℕ → ℕ → Disk → Disk
  pub disk_create : ℕ → ℕ → ℕ → ℕ → Disk → Call ℕ × Disk
  pub disk_open : ℕ → ℕ → Disk → Call ℕ × Disk
  -- On a descriptor: `pread(fd, size, offset)`, `pwrite(fd, buf, offset)`, `ftruncate(fd, size)`,
  -- `fsync(fd)` and `close(fd)`.
  pub disk_pread : ℕ → ℕ → ℕ → Disk → Call (List ℕ)
  pub disk_pwrite : ℕ → List ℕ → ℕ → Disk → Call ℕ × Disk
  pub disk_ftruncate : ℕ → ℕ → Disk → Call (Unit {0}) × Disk
  pub disk_fsync : ℕ → Disk → Call (Unit {0}) × Disk
  pub disk_close : ℕ → Disk → Call (Unit {0}) × Disk

-- The order of the updates of a batch is the order in which they were added.
unfoldable pub apply_updates : List Update → MetaKey → Read → Read
apply_updates [] j r = r
apply_updates (puts k v ∷ us) j r = apply_updates us j (if k == j then Read.found v else r)
apply_updates (deletes k ∷ us) j r = apply_updates us j (if k == j then Read.not_found else r)

module _ (P : Platform) where
  open P use {Db, db_get, db_put, db_delete, db_write}

  -- A write whose status is ok can be read back, and leaves the other keys as they were.
  pub record DbLaws : Type 0 where
    pub get_put :
        (sync : Bool) (k j : MetaKey) (v : InodeValue) (db : Db)
        → (db_put sync k v db).0 ≡ true
        → db_get j (db_put sync k v db).1 ≡ (if k == j then found v else db_get j db)
    pub get_delete :
        (k j : MetaKey) (db : Db)
        → (db_delete k db).0 ≡ true
        → db_get j (db_delete k db).1 ≡ (if k == j then not_found else db_get j db)
    pub get_write :
        (us : List Update) (j : MetaKey) (db : Db)
        → (db_write us db).0 ≡ true
        → db_get j (db_write us db).1 ≡ apply_updates us j (db_get j db)

-- The data directory under `mkdir`, for the numbers of its directories: a call that succeeds makes
-- the directory, and no call removes one.
pub record DiskLaws (P : Platform) : Type 0 where
  pub has_dir : ℕ → Platform.Disk P → Bool
  pub mkdir_makes :
      (d : ℕ) (k : Platform.Disk P)
      → (Platform.disk_mkdir P d k).0 ≡ gives tt
      → has_dir d (Platform.disk_mkdir P d k).1 ≡ true
  pub mkdir_keeps :
      (d e : ℕ) (k : Platform.Disk P)
      → has_dir e k ≡ true
      → has_dir e (Platform.disk_mkdir P d k).1 ≡ true
