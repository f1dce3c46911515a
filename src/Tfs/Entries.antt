-- ===== src/Tfs/Entries.antt =====
-- fs/tablefs.cpp: MakeNode, MakeDir, Symlink, Readlink, Unlink and RemoveDir, the handlers that
-- make, read and remove the entries of directories.
use Prim.Native.Nat.{bit_or}
use tablefs.Base.{
  ℕ, ◌-◌, ◌%◌, Option, none, some, List, [], ◌∷◌, ◌++◌, ◌>>=◌, Bool, if◌then◌else◌, nat_beq, ltb,
  length,
}
use tablefs.Base.Int.{ℤ, pos, neg}
use tablefs.Key.{Inode, MetaKey, u32}
use tablefs.Value.{InodeValue, get_inline_data}
use tablefs.Dentry
use tablefs.Platform.{Platform, Ptr}
use tablefs.Adaptor
use tablefs.Icache
use tablefs.Icache.{InodeCache, Mode}
use tablefs.Tfs.{
  TableFs, fs_error, enoent, new_inode, init_stat, init_inode_value, data_dir, data_file,
}
use tablefs.Tfs.Path.{path_lookup}

-- `S_IFREG`, `S_IFDIR` and `S_IFLNK`
abbrev pub s_ifreg : ℕ
s_ifreg = 0o100000

abbrev pub s_ifdir : ℕ
s_ifdir = 0o40000

abbrev pub s_iflnk : ℕ
s_iflnk = 0o120000

module _ (P : Platform) where
  open P use {disk_unlink}

  -- `metadb->Put(key, value)`
  unfoldable pub put_entry : MetaKey → InodeValue → TableFs P → Bool × TableFs P
  put_entry key value s =
      let (ok, a) = Adaptor.put P s.inode_cache.clock key value s.inode_cache.metadb_ in
      (ok, record s { inode_cache = record (s.inode_cache) { metadb_ = a } })

  -- `state_->NewInode()`
  unfoldable pub take_inode : TableFs P → Inode × TableFs P
  take_inode s = let (inum, state) = new_inode P s.state_ in (inum, record s { state_ = state })

  -- What MakeNode and MakeDir have in common, for the mode with the type of the file.
  unfoldable pub make_entry : List ℕ → ℕ → ℕ → TableFs P → Option (ℤ × TableFs P)
  make_entry path mode dev s = do
    (out, t) ← path_lookup P path s
    elim out [
      | none ↦ some (fs_error P t, t)
      | some (key, filename) ↦
          let (inum, u) = take_inode t in
          let (ok, v) = put_entry key (init_inode_value P inum mode dev filename u) u in
          if ok then some (pos 0, v) else some (neg enoent, record v { errno = enoent })
    ]

  -- `MakeNode(path, mode, dev)`
  unfoldable pub make_node : List ℕ → ℕ → ℕ → TableFs P → Option (ℤ × TableFs P)
  make_node path mode dev s = make_entry path (bit_or mode s_ifreg) dev s

  -- `MakeDir(path, mode)`
  unfoldable pub make_dir : List ℕ → ℕ → TableFs P → Option (ℤ × TableFs P)
  make_dir path mode s = make_entry path (bit_or mode s_ifdir) 0 s

  -- The value that `Symlink` builds: the target stands behind the name, without a terminator.
  unfoldable pub symlink_value : Inode → List ℕ → List ℕ → TableFs P → InodeValue
  symlink_value inum target filename s = record {
    header = record {
      fstat = init_stat P inum s_iflnk 0 s;
      has_blob = 0;
      namelen = length filename % u32;
    };
    bytes = filename ++ 0 ∷ target;
  }

  -- `Symlink(target, path)`, whose result does not depend on that of `Put`
  unfoldable pub symlink : List ℕ → List ℕ → TableFs P → Option (ℤ × TableFs P)
  symlink target path s = do
    (out, t) ← path_lookup P path s
    elim out [
      | none ↦ some (fs_error P t, t)
      | some (key, filename) ↦
          let (inum, u) = take_inode t in
          some (pos 0, (put_entry key (symlink_value inum target filename u) u).1)
    ]

  -- `Readlink(path, buf, size)`, with what it writes to `buf`. For a size of 0 the bound is
  -- `(size_t) -1`, past the end of the buffer.
  unfoldable pub readlink : List ℕ → ℕ → TableFs P → Option (ℤ × List ℕ × TableFs P)
  readlink path size s = do
    (out, t) ← path_lookup P path s
    elim out [
      | none ↦ some (fs_error P t, [], t)
      | some (key, filename) ↦ elim (Adaptor.get P key t.inode_cache.metadb_) [
        | some result ↦
            if nat_beq size 0
            then none
            else some (pos 0, get_inline_data result 0 (size - 1) ++ 0 ∷ [], t)
        | none ↦ some (neg enoent, [], record t { errno = enoent })
      ]
    ]

  -- The end of Unlink and RemoveDir: the entry leaves the caches, its handle in DELETE mode.
  unfoldable pub drop_entry : MetaKey → Ptr → TableFs P → Option (ℤ × TableFs P)
  drop_entry key handle s = do
    c ← Icache.release P handle s.inode_cache
    d ← Icache.evict P key c
    some (pos 0, record s { inode_cache = d; dentry_cache = Dentry.evict key s.dentry_cache })

  -- `Unlink`
  unfoldable pub unlink : List ℕ → TableFs P → Option (ℤ × TableFs P)
  unlink path s = do
    (out, t) ← path_lookup P path s
    elim out [
      | none ↦ some (fs_error P t, t)
      | some (key, filename) ↦ do
        (found, c) ← Icache.get P key Mode.inode_delete t.inode_cache
        elim found [
          | none ↦ some (neg enoent, record t { inode_cache = c })
          | some handle ↦ do
            h ← Icache.handle_at P handle c
            let st = h.value_.header.fstat
            let kept = disk_unlink (data_dir st.st_ino) (data_file st.st_ino) t.state_.disk
            let disk' = if ltb t.state_.threshold_ st.st_size then kept else t.state_.disk
            drop_entry key handle
                (record t { state_ = record (t.state_) { disk = disk' }; inode_cache = c })
        ]
    ]

  -- `RemoveDir`
  unfoldable pub remove_dir : List ℕ → TableFs P → Option (ℤ × TableFs P)
  remove_dir path s = do
    (out, t) ← path_lookup P path s
    elim out [
      | none ↦ some (fs_error P t, t)
      | some (key, filename) ↦ do
        (found, c) ← Icache.get P key Mode.inode_delete t.inode_cache
        elim found [
          | none ↦ some (neg enoent, record t { inode_cache = c })
          | some handle ↦ drop_entry key handle (record t { inode_cache = c })
        ]
    ]
