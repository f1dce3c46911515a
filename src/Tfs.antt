-- ===== src/Tfs.antt =====
-- fs/tablefs.h, fs/tfs_state.h and the start of fs/tablefs.cpp and fs/tfs_state.cpp: the state of a
-- mounted file system. A handler takes the state to its result and the new state; `none` is an
-- access through a freed handle or past a buffer. The methods of `InodeMutex` (fs/inodemutex.cpp)
-- compute the number of a lock and take none, so the handlers call them to no effect.
pub mod Numbers
pub mod Naming
pub mod Path
pub mod Attributes
pub mod Entries
pub mod Links
pub mod Making
pub mod Renaming
pub mod Disk
pub mod Content
pub mod Closing
pub mod Listing
pub mod Safety
pub mod Inline
pub mod Mounting
pub mod Durable
pub mod Removal
pub mod Moved
pub mod Blob
pub mod Migrating
pub mod Shrinking
pub mod Remounting
use Prim.Native.Nat.{bit_and, bit_or}
use tablefs.Base.{
  ℕ, zero, suc, ◌+◌, ◌-◌, ◌*◌, ◌/◌, ◌%◌, ◌^◌, Bool, true, false, Option, none, some, List, [], ◌∷◌,
  ◌++◌, ◌>>=◌, if◌then◌else◌, nat_beq, length, drop,
}
use tablefs.Base.Int.{ℤ, pos, neg}
use tablefs.Hash.{murmur64}
use tablefs.Key.{Inode, MetaKey, u32, u64}
use tablefs.Dentry.{DentryCache}
use tablefs.Value.{Stat, InodeHeader, InodeValue}
use tablefs.Platform.{Platform}
use tablefs.Icache.{InodeCache}

abbrev pub enoent : ℕ
enoent = 2

abbrev pub path_delimiter : ℕ
path_delimiter = b'/'

pub record FileSystemState (P : Platform) : Type 0 where
  pub max_inode_num : Inode
  pub threshold_ : ℕ
  pub disk : Platform.Disk P

pub record TableFs (P : Platform) : Type 0 where
  pub state_ : FileSystemState P
  pub inode_cache : InodeCache P
  pub dentry_cache : DentryCache
  pub flag_fuse_enabled : Bool
  -- the caller, as `fuse_get_context` gives it
  pub context_uid : ℕ
  pub context_gid : ℕ
  pub errno : ℕ

-- `BuildMetaKey(path, len, inode_id, key)`
unfoldable pub build_meta_key : List ℕ → ℕ → Inode → Option MetaKey
build_meta_key path len inode_id = do
  hash_id ← murmur64 path len 123
  some (record { inode_id = inode_id; hash_id = hash_id })

abbrev num_files_in_datadir_bits : ℕ
num_files_in_datadir_bits = 14

abbrev num_files_in_datadir : ℕ
num_files_in_datadir = 16384

-- `(int) inode_id >> 14` and `(int) inode_id % 16384`, for numbers that an `int` holds
-- `(int) inode_id >> 14` and `(int) inode_id % 16384`. A directory is named by the 18 bits of the
-- first, which is negative from 2 ^ 31 on; a file is named by the low 14 bits of its number, which
-- are the second for numbers below 2 ^ 31, and give it back in a directory of negative number.
abbrev pub data_dir : Inode → ℕ
data_dir inode_id = inode_id % 2 ^ 32 / 2 ^ num_files_in_datadir_bits

abbrev pub data_file : Inode → ℕ
data_file inode_id = inode_id % num_files_in_datadir

module _ (P : Platform) where
  open P use {disk_mkdir}

  -- `FSError`
  unfoldable pub fs_error : TableFs P → ℤ
  fs_error s = neg s.errno

  -- `FileSystemState::NewInode`: every 16384 numbers a new directory is made, and the result
  -- of `mkdir` is dropped.
  unfoldable pub new_inode : FileSystemState P → Inode × FileSystemState P
  new_inode s =
      let n = (s.max_inode_num + 1) % u64 in
      (
        n,
        record s {
          max_inode_num = n;
          disk =
              if nat_beq (n % num_files_in_datadir) 0
              then (disk_mkdir (data_dir n) s.disk).1
              else s.disk;
        },
      )

  -- `InitStat`, where every field but those that the program never sets is written
  unfoldable pub init_stat : Inode → ℕ → ℕ → TableFs P → Stat
  init_stat inode mode dev s =
      let now = s.inode_cache.clock in
      record {
        st_ino = inode;
        st_mode = mode;
        st_dev = dev;
        st_nlink = if nat_beq (bit_and mode 0o170000) 0o100000 then 1 else 2;
        st_uid = if s.flag_fuse_enabled then s.context_uid else 0;
        st_gid = if s.flag_fuse_enabled then s.context_gid else 0;
        st_size = 0;
        st_blksize = 0;
        st_blocks = 0;
        st_atim = now;
        st_mtim = now;
        st_ctim = now;
      }

  -- `InitInodeValue(inum, mode, dev, filename)`
  unfoldable pub init_inode_value : Inode → ℕ → ℕ → List ℕ → TableFs P → InodeValue
  init_inode_value inum mode dev filename s = record {
    header = record {
      fstat = init_stat inum mode dev s;
      has_blob = 0;
      namelen = length filename % u32;
    };
    bytes = filename ++ 0 ∷ [];
  }

-- `InitInodeValue(old_value, filename)`: the same value under another name. The name and its
-- terminator are copied from the end of a path, where a zero byte stands behind the name.
unfoldable pub renamed_inode_value : InodeValue → List ℕ → InodeValue
renamed_inode_value old_value filename = record {
  header = record (old_value.header) { namelen = length filename % u32 };
  bytes = (filename ++ 0 ∷ []) ++ drop (old_value.header.namelen + 1) old_value.bytes;
}
