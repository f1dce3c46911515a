-- ===== src/Tfs/Closing.antt =====
-- fs/tablefs.cpp: Fsync, Release and Truncate.
use tablefs.Base.{
  ℕ, ◌+◌, Bool, true, false, Option, none, some, List, if◌then◌else◌, ltb, nat_beq, length, ◌>>=◌,
  ◌&&◌, not,
}
use tablefs.Base.Int.{ℤ, pos, neg, negsuc}
use tablefs.Value.{
  InodeHeader, update_inline_data, truncate_inline_data, update_inode_header, update_attribute,
}
use tablefs.Platform.{Platform, gives, fails, Ptr}
use tablefs.Adaptor
use tablefs.Icache
use tablefs.Icache.{Mode, InodeCacheHandle}
use tablefs.Tfs.{TableFs, fs_error, enoent}
use tablefs.Tfs.Path.{path_lookup}
use tablefs.Tfs.Disk.{
  migrate_to_disk_file, migrate_disk_file_to_buffer, truncate_disk_file, set_disk, set_errno, ebadf,
  close_fd,
}
use tablefs.Tfs.Content.{FileHandle, set_value}

abbrev is_write : Mode → Bool
is_write Mode.inode_write = true
is_write Mode.inode_read = false
is_write Mode.inode_delete = false

module _ (P : Platform) where
  open P use {disk_ftruncate, disk_fsync, disk_close}

  -- `fsync(fh->fd_)`, where a descriptor of -1 fails with EBADF
  unfoldable pub sync_descriptor : Option ℕ → TableFs P → ℤ × TableFs P
  sync_descriptor none s = (negsuc 0, set_errno P ebadf s)
  sync_descriptor (some fd) s =
      let (out, k) = disk_fsync fd s.state_.disk in
      elim out [
        | gives _ ↦ (pos 0, set_disk P k s)
        | fails e ↦ (negsuc 0, set_errno P e (set_disk P k s))
      ]

  -- `-ret`
  abbrev pub negated : ℤ → ℤ
  negated (pos n) = neg n
  negated (negsuc n) = pos (n + 1)

  -- `metadb->Sync()`
  unfoldable pub sync_table : TableFs P → ℤ × TableFs P
  sync_table s =
      let (ok, a) = Adaptor.sync P s.inode_cache.metadb_ in
      (
        if ok then pos 0 else negsuc 0,
        record s { inode_cache = record (s.inode_cache) { metadb_ = a } },
      )

  -- `Fsync(path, datasync, fi)`
  unfoldable pub fsync_file : ℕ → FileHandle → TableFs P → Option (ℤ × TableFs P)
  fsync_file datasync fh s = do
    h ← Icache.handle_at P fh.handle_ s.inode_cache
    let (ret, t) = if ltb 0 h.value_.header.has_blob then sync_descriptor fh.fd_ s else (pos 0, s)
    let (ret', u) = if nat_beq datasync 0 then sync_table t else (ret, t)
    some (if is_write h.mode_ then (negated ret', u) else (pos 0, s))

  -- What `Release` makes of the value of a handle for writing: its times are now.
  unfoldable pub touch : ℕ → InodeCacheHandle P → InodeCacheHandle P
  touch now h =
      if is_write h.mode_
      then record h {
        value_ =
            update_attribute (record (h.value_.header.fstat) { st_atim = now; st_mtim = now })
              h.value_;
      }
      else h

  -- `if (fh->fd_ != -1) ret = close(fh->fd_);`
  unfoldable pub close_descriptor : Option ℕ → TableFs P → Bool × TableFs P
  close_descriptor none s = (true, s)
  close_descriptor (some fd) s =
      let (out, k) = disk_close fd s.state_.disk in
      elim out [
        | gives _ ↦ (true, set_disk P k s)
        | fails e ↦ (false, set_errno P e (set_disk P k s))
      ]

  -- `Release(path, fi)`, after which the file handle is gone
  unfoldable pub release_file : FileHandle → TableFs P → Option (ℤ × TableFs P)
  release_file fh s = do
    h ← Icache.handle_at P fh.handle_ s.inode_cache
    let touched = Icache.set_handle P fh.handle_ (touch s.inode_cache.clock h) s.inode_cache
    let (closed, t) = close_descriptor fh.fd_ (record s { inode_cache = touched })
    c ← Icache.write_back P fh.handle_ t.inode_cache
    h' ← Icache.handle_at P fh.handle_ c
    d ← Icache.release P fh.handle_ c
    e ← Icache.evict P h'.key_ d
    let u = record t { inode_cache = e }
    some (if closed then pos 0 else fs_error P t, u)

  -- `Truncate` on a file whose data is on the disk. Where it moves back, `new_size` bytes of the
  -- buffer are used: none stands for the use of bytes that were not read from the disk.
  unfoldable pub truncate_blob : ℕ → Ptr → InodeHeader → TableFs P → Option (TableFs P)
  truncate_blob new_size handle iheader s =
      let inode = iheader.fstat.st_ino in
      let (buffer, t) = migrate_disk_file_to_buffer P inode new_size s in
      if ltb s.state_.threshold_ new_size
      then some (truncate_disk_file P inode new_size s)
      else if ltb (length buffer) new_size
      then none
      else set_value P handle (update_inline_data 0 buffer) t

  -- `Truncate` on a file whose data is in the table, where it moves to the disk. `junk` is what
  -- the local `fd` holds, which is not initialised. A failed move is not reported.
  unfoldable pub truncate_migrating : ℕ → Ptr → Option ℕ → TableFs P → Option (ℤ × TableFs P)
  truncate_migrating new_size handle junk s = do
    (moved, fd, t) ← migrate_to_disk_file P handle junk 0o1001 s
    elim fd [
      | none ↦ some (pos 0, t)
      | some n ↦ elim moved [
        | pos ℕ.zero ↦
            let (out, k) = disk_ftruncate n new_size t.state_.disk in
            some (elim out [
              | gives _ ↦ (pos 0, close_fd P n (set_disk P (disk_fsync n k).1 t))
              | fails e ↦ (negsuc 0, close_fd P n (set_errno P e (set_disk P k t)))
            ])
        | other ↦ some (pos 0, t)
      ]
    ]

  -- The header that `Truncate` writes at its end.
  unfoldable pub truncated_header : ℕ → ℕ → InodeHeader → InodeHeader
  truncated_header threshold new_size iheader =
      if nat_beq new_size iheader.fstat.st_size then iheader else record iheader {
        fstat = record (iheader.fstat) { st_size = new_size };
        has_blob = if ltb threshold new_size then 1 else 0;
      }

  -- The file on the disk is truncated, and the value is not changed before the header is read.
  abbrev in_place : ℕ → ℕ → InodeHeader → Bool
  in_place threshold new_size iheader = ltb 0 iheader.has_blob && ltb threshold new_size

  -- `Truncate` with the handle found: the data, the header, the write back. `iheader` points into
  -- the string of the value, and is read after the data. `moved` says whether the call that changes
  -- the string puts it somewhere else, so that `iheader` points to freed memory; it is false where
  -- no call changes the string, and not asked where the file on the disk is truncated in place.
  unfoldable pub truncate_handle : ℕ → Ptr → Option ℕ → Bool → TableFs P → Option (ℤ × TableFs P)
  truncate_handle new_size handle junk moved s = do
    h ← Icache.handle_at P handle s.inode_cache
    let iheader = h.value_.header
    (ret, t) ←
        (if ltb 0 iheader.has_blob
          then (do u ← truncate_blob new_size handle iheader s; some (pos 0, u))
          else if ltb s.state_.threshold_ new_size
          then truncate_migrating new_size handle junk s
          else (do u ← set_value P handle (truncate_inline_data new_size) s; some (pos 0, u)))
    checked ← if moved && not (in_place s.state_.threshold_ new_size iheader) then none else some t
    v ←
        set_value P handle
          (λ w.
            update_inode_header (truncated_header checked.state_.threshold_ new_size w.header) w)
          checked
    c ← Icache.write_back P handle v.inode_cache
    d ← Icache.release P handle c
    some (ret, record v { inode_cache = d })

  -- `Truncate(path, new_size)`
  unfoldable pub truncate_file : List ℕ → ℕ → Option ℕ → Bool → TableFs P → Option (ℤ × TableFs P)
  truncate_file path new_size junk moved s = do
    (out, t) ← path_lookup P path s
    elim out [
      | none ↦ some (fs_error P t, t)
      | some (key, filename) ↦ do
        (found, c) ← Icache.get P key Mode.inode_write t.inode_cache
        elim found [
          | none ↦ some (neg enoent, record t { inode_cache = c })
          | some handle ↦ truncate_handle new_size handle junk moved (record t { inode_cache = c })
        ]
    ]
