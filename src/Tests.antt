-- ===== src/Tests.antt =====
-- The theorems at concrete inputs, and runs of the code on small inputs.
pub mod Memory
pub mod Caching
pub mod Handlers
pub mod Utilities
pub mod Descriptors
pub mod Mounting
pub mod Traces
pub mod Durable
pub mod Bench
pub mod Picking
pub mod Removal
use tablefs.Base.{
  ℕ, suc, ◌+◌, ◌≤◌, ◌≡◌, refl, Option, none, some, Bool, List, [], ◌∷◌, ◌++◌, arith, ltb,
  if◌then◌else◌, length, get_elem?, ◌==◌, ◌&&◌,
}
use tablefs.Key.{MetaKey, Inode, key_eq}
use tablefs.Dentry.{DentryCache, init, find, insert, evict}
use tablefs.Dentry.Invariant.{IsValid, stored, init-IsValid, find-stored, evict-stored}
use tablefs.Dentry.Insertion.{drops, insert-stored}
use tablefs.Dentry.History.{Call, looks_up, inserts, evicts, run, known, run-known}
use tablefs.Hash.{murmur64}
use tablefs.Hash.Reference.{reference, murmur64-reference}
use tablefs.Value.{
  Stat, InodeHeader, InodeValue, get_inline_data, update_inline_data, truncate_inline_data,
}
use tablefs.Value.Data.{IsLaidOut}
use tablefs.Value.Bytes.{
  written, get_inline_data-update_inline_data, get_inline_data-truncate_inline_data,
}
use tablefs.Hash.Tail.{AreBytes}
use tablefs.Base.Maps
use tablefs.Key.{u32, u64}
use tablefs.Platform.{Platform, Update, puts, deletes}
use tablefs.Adaptor
use tablefs.Adaptor.{Adaptor}
use tablefs.Adaptor.Table.{get-put, get-delete, get-write, after_batch}
use tablefs.Adaptor.Syncing
use tablefs.Adaptor.Syncing.{Countable, unsynced, unsynced-le_limit, put_all}
use tablefs.Icache.{InodeCache}
use tablefs.Tfs.{
  FileSystemState, TableFs, path_delimiter, enoent, new_inode, data_dir, init_stat,
  init_inode_value, renamed_inode_value,
}
use tablefs.Tfs.Path.{path_lookup, parent_path_lookup, search_loop, strchr}
use tablefs.Tfs.Entries.{put_entry, symlink, readlink, make_entry}
use tablefs.Tfs.Links.{linked, readlink-symlink}
use tablefs.Base.{take}
use tablefs.Base.Int.{pos}
use tablefs.Tfs.Path.Walk.{build_meta_key-key_of, resolve, key_of, root_key, IsCoherent, IsSame}
use tablefs.Tfs.Path.Loop.{path_lookup-resolve}
use tablefs.Tfs.Numbers.{HasDirs, new_inode-HasDirs}
use tablefs.Tfs.Naming.{init_inode_value-IsLaidOut, renamed_inode_value-IsLaidOut}
use tablefs.Tests.Memory.{memory, memory-DbLaws, memory-DiskLaws, Table, contains}

abbrev pub key_a : MetaKey
key_a = record { inode_id = 0; hash_id = 11 }

abbrev pub key_b : MetaKey
key_b = record { inode_id = 0; hash_id = 12 }

abbrev some_calls : List Call
some_calls =
    looks_up key_a ∷ inserts key_b 8 ∷ inserts key_a 7 ∷ evicts key_a ∷ inserts key_a 5 ∷ []

run-known_example :
    (c : DentryCache) × (run some_calls (init 2) ≡ some c)
    × (length c.cache ≤ 2)
    × ((k : MetaKey) (v : Inode) (d : DentryCache)
        → find k c ≡ some (some v, d)
        → known some_calls k ≡ some v)
run-known_example = run-known 2 some_calls

abbrev one_entry : DentryCache
one_entry = insert key_a 5 (init 2)

one_entry-IsValid : IsValid one_entry
one_entry-IsValid = (insert-stored (init-IsValid 2) key_a 5).0

insert-stored_example :
    IsValid (insert key_b 6 one_entry)
    × ((j : MetaKey)
        → stored j (insert key_b 6 one_entry) ≡ (
            if drops key_b 6 one_entry j
            then none
            else if key_b == j
            then some 6
            else stored j one_entry))
    × ((insert key_b 6 one_entry).maxsize ≡ one_entry.maxsize)
insert-stored_example = insert-stored one_entry-IsValid key_b 6

abbrev letters : List ℕ
letters = 97 ∷ 98 ∷ 99 ∷ 100 ∷ 101 ∷ 102 ∷ 103 ∷ 104 ∷ 105 ∷ 106 ∷ 107 ∷ []

murmur64-letters : murmur64 letters 11 123 ≡ some 8978410232167349942
unfolding murmur64
murmur64-letters = refl

murmur64-reference_example :
    murmur64 (letters ++ 47 ∷ 120 ∷ []) (length letters) 123 ≡ some (reference letters 123)
murmur64-reference_example = murmur64-reference letters (47 ∷ 120 ∷ []) 123 (omega arith)

abbrev some_stat : Stat
some_stat = record {
  st_ino = 5;
  st_mode = 0x81a4;
  st_dev = 0;
  st_nlink = 1;
  st_uid = 0;
  st_gid = 0;
  st_size = 3;
  st_blksize = 0;
  st_blocks = 0;
  st_atim = 0;
  st_mtim = 0;
  st_ctim = 0;
}

abbrev pub some_value : InodeValue
some_value = record {
  header = record { fstat = some_stat; has_blob = 0; namelen = 2 };
  bytes = 104 ∷ 105 ∷ 0 ∷ 1 ∷ 2 ∷ 3 ∷ [];
}

abbrev pub some_content : List ℕ
some_content = 1 ∷ 2 ∷ 3 ∷ []

pub some_value-IsLaidOut : IsLaidOut some_value (104 ∷ 105 ∷ []) some_content
some_value-IsLaidOut = record { bytes = refl; named = refl }

get_inline_data-update_inline_data_example :
    get_elem? (get_inline_data (update_inline_data 5 (9 ∷ []) some_value) 2 4) 3
    ≡ (if ltb 3 4 then written 5 (9 ∷ []) some_content (2 + 3) else none)
get_inline_data-update_inline_data_example =
    get_inline_data-update_inline_data some_value-IsLaidOut 5 (9 ∷ []) 2 4 3

get_inline_data-truncate_inline_data_example :
    get_elem? (get_inline_data (truncate_inline_data 5 some_value) 1 9) 3 ≡ (
      if ltb 3 9 && ltb (1 + 3) 5
      then if ltb (1 + 3) (length some_content) then get_elem? some_content (1 + 3) else some 0
      else none)
get_inline_data-truncate_inline_data_example =
    get_inline_data-truncate_inline_data some_value-IsLaidOut 5 1 9 3

abbrev pub empty_adaptor : Adaptor memory
empty_adaptor = record {
  db = [];
  last_sync_time = 0;
  sync_time_limit = 5;
  async_data_size = 0;
  sync_size_limit = 600;
}

abbrev some_puts : List Syncing.Call
some_puts =
    record { now = 1; key = key_a; value = some_value }
    ∷ record { now = 2; key = key_b; value = some_value }
    ∷ record { now = 3; key = key_a; value = some_value }
    ∷ []

some_puts_fit : Countable memory some_puts 600
unfolding Countable
some_puts_fit = (omega arith, (omega arith, (omega arith, tt)))

unsynced-le_limit_example :
    (unsynced memory some_puts empty_adaptor 0
      ≡ (put_all memory some_puts empty_adaptor).async_data_size)
    × (unsynced memory some_puts empty_adaptor 0 ≤ 600)
unsynced-le_limit_example =
    unsynced-le_limit memory some_puts empty_adaptor (omega arith) (omega arith) some_puts_fit

abbrev pub new_state : FileSystemState memory
new_state = record {
  max_inode_num = 16383;
  threshold_ = 4096;
  disk = record { dirs = 0 ∷ []; files = []; open_files = []; next_fd = 3 };
}

pub new_state-HasDirs : HasDirs memory-DiskLaws new_state
unfolding contains
new_state-HasDirs = record { made = λ d h. ground arith }

new_inode-HasDirs_example :
    ((new_inode memory new_state).0 ≡ 16383 + 1)
    × ((new_inode memory new_state).1.max_inode_num ≡ (new_inode memory new_state).0)
    × (contains (data_dir (new_inode memory new_state).0) (new_inode memory new_state).1.disk.dirs
        ≡ Bool.true)
    × HasDirs memory-DiskLaws (new_inode memory new_state).1
new_inode-HasDirs_example =
    new_inode-HasDirs memory-DiskLaws new_state new_state-HasDirs (omega arith) (λ _. refl)

abbrev directory_stat : Stat
directory_stat = record some_stat { st_ino = 5; st_mode = 0o040777; st_nlink = 2; st_size = 0 }

abbrev directory_value : InodeValue
directory_value = record {
  header = record { fstat = directory_stat; has_blob = 0; namelen = 1 };
  bytes = 97 ∷ 0 ∷ [];
}

-- A file system that holds the directory /a, number 5.
abbrev pub mounted : TableFs memory
mounted = record {
  state_ = new_state;
  inode_cache = record {
    metadb_ = record empty_adaptor { db = (key_of 0 (b'a' ∷ []), directory_value) ∷ [] };
    cache = [];
    handles = [];
    next_handle = 1;
    clock = 100;
  };
  dentry_cache = init 2;
  flag_fuse_enabled = Bool.false;
  context_uid = 0;
  context_gid = 0;
  errno = 0;
}

pub mounted-IsCoherent : IsCoherent mounted
unfolding stored init Maps.lookup
mounted-IsCoherent = record { valid = init-IsValid 2; agrees = λ k i h. absurd (ground arith) }

-- /a/b
abbrev pub some_path : List ℕ
some_path = b'a' ∷ b'/' ∷ b'b' ∷ []

path_lookup-resolve_example :
    (t : TableFs memory) × (path_lookup memory (path_delimiter ∷ some_path) mounted
      ≡ some (resolve mounted.inode_cache.metadb_ some_path, t))
    × IsCoherent t
    × IsSame mounted t
    × (resolve mounted.inode_cache.metadb_ some_path ≡ none → t.errno ≡ enoent)
path_lookup-resolve_example = path_lookup-resolve some_path mounted (omega arith) mounted-IsCoherent

renamed_inode_value-IsLaidOut_example :
    IsLaidOut
      (renamed_inode_value some_value (b'n' ∷ b'e' ∷ b'w' ∷ []))
      (b'n' ∷ b'e' ∷ b'w' ∷ [])
      some_content
    × ((renamed_inode_value some_value (b'n' ∷ b'e' ∷ b'w' ∷ [])).header.fstat ≡ some_stat)
    × ((renamed_inode_value some_value (b'n' ∷ b'e' ∷ b'w' ∷ [])).header.has_blob ≡ 0)
renamed_inode_value-IsLaidOut_example =
    renamed_inode_value-IsLaidOut some_value (b'n' ∷ b'e' ∷ b'w' ∷ []) some_value-IsLaidOut
      (omega arith)

-- /b, an entry of the root
pub root_lookup :
    (s : TableFs memory)
    → path_lookup memory (path_delimiter ∷ b'b' ∷ []) s
      ≡ some (some (key_of 0 (b'b' ∷ []), b'b' ∷ []), s)
unfolding path_lookup parent_path_lookup search_loop strchr
root_lookup s =
    ground (
      arith,
      build_meta_key-key_of (b'b' ∷ []) [] 0 (omega arith),
      build_meta_key-key_of [] [] 0 tt,
    )

abbrev link_target : List ℕ
link_target = b'a' ∷ b'/' ∷ b'c' ∷ []

abbrev after_symlink : TableFs memory
after_symlink = (linked memory-DbLaws link_target (b'b' ∷ []) (key_of 0 (b'b' ∷ [])) mounted).1

readlink-symlink_example :
    (symlink memory link_target (path_delimiter ∷ b'b' ∷ []) mounted ≡ some (pos 0, after_symlink))
    × (readlink memory (path_delimiter ∷ b'b' ∷ []) 3 after_symlink
        ≡ some (pos 0, take 2 link_target ++ 0 ∷ [], after_symlink))
unfolding put_entry Adaptor.put
readlink-symlink_example =
    readlink-symlink memory-DbLaws link_target (b'b' ∷ []) (key_of 0 (b'b' ∷ [])) mounted
      (path_delimiter ∷ b'b' ∷ []) 3 mounted after_symlink (omega arith) (omega arith) refl
      (root_lookup mounted) (root_lookup after_symlink) refl
