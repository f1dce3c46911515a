-- ===== src/Tfs/Content.antt =====
-- fs/tablefs.cpp: Open, Read, Write, Fsync and Release, the handlers on an open file. A
-- `tfs_file_handle_t` belongs to one open file, so a handler takes it and returns what it becomes.
use Prim.Native.Nat.{bit_and}
use tablefs.Base.{
  ℕ, ◌+◌, Bool, true, false, ◌||◌, Option, none, some, List, [], if◌then◌else◌, ltb, length, ◌>>=◌,
}
use tablefs.Base.Int.{ℤ, pos, neg, negsuc}
use tablefs.Value.{
  InodeValue, InodeHeader, get_inline_data, update_inline_data, update_inode_header,
}
use tablefs.Platform.{Platform, gives, fails, Ptr}
use tablefs.Icache
use tablefs.Icache.{Mode, InodeCacheHandle}
use tablefs.Tfs.{TableFs, fs_error, enoent}
use tablefs.Tfs.Path.{path_lookup}
use tablefs.Tfs.Disk.{open_disk_file, migrate_to_disk_file, set_disk, set_errno, ebadf}

-- `tfs_file_handle_t`
pub record FileHandle : Type 0 where
  pub handle_ : Ptr
  pub flags_ : ℕ
  pub fd_ : Option ℕ

-- `(flags & O_RDWR) > 0 || (flags & O_WRONLY) > 0 || (flags & O_TRUNC) > 0`
unfoldable pub opens_for_writing : ℕ → Bool
opens_for_writing flags =
    ltb 0 (bit_and flags 2) || ltb 0 (bit_and flags 1) || ltb 0 (bit_and flags 0o1000)

abbrev pub set_size : ℕ → InodeValue → InodeValue
set_size n v =
    update_inode_header (record (v.header) { fstat = record (v.header.fstat) { st_size = n } }) v

abbrev pub set_blob_size : ℕ → InodeValue → InodeValue
set_blob_size n v =
    update_inode_header
      (record (v.header) { fstat = record (v.header.fstat) { st_size = n }; has_blob = 1 }) v

module _ (P : Platform) where
  open P use {disk_pread, disk_pwrite, disk_fsync, disk_close}

  -- A change of the value behind a handle.
  unfoldable pub set_value : Ptr → (InodeValue → InodeValue) → TableFs P → Option (TableFs P)
  set_value handle change s = do
    h ← Icache.handle_at P handle s.inode_cache
    some (record s {
      inode_cache =
          Icache.set_handle P handle (record h { value_ = change h.value_ }) s.inode_cache;
    })

  -- `Open(path, fi)`, with what `fi->fh` becomes where the result is 0
  unfoldable pub open_file : List ℕ → ℕ → TableFs P → Option (ℤ × Option FileHandle × TableFs P)
  open_file path flags s = do
    (out, t) ← path_lookup P path s
    elim out [
      | none ↦ some (fs_error P t, none, t)
      | some (key, filename) ↦ do
        (found, c) ←
            Icache.get P key (if opens_for_writing flags then Mode.inode_write else Mode.inode_read)
              t.inode_cache
        let u = record t { inode_cache = c }
        elim found [
          | none ↦ some (neg enoent, none, u)
          | some handle ↦ do
            h ← Icache.handle_at P handle c
            let fh : FileHandle = record { handle_ = handle; flags_ = flags; fd_ = none }
            if ltb 0 h.value_.header.has_blob
                then (let (fd, v) = open_disk_file P h.value_.header flags u in
                    elim fd [
                      | some n ↦ some (pos 0, some (record fh { fd_ = some n }), v)
                      | none ↦ do
                        d ← Icache.release P handle v.inode_cache
                        some (fs_error P v, none, record v { inode_cache = d })
                    ])
                else some (pos 0, some fh, u)
        ]
    ]

  -- `if (fh->fd_ < 0) fh->fd_ = OpenDiskFile(iheader, fh->flags_);`
  unfoldable pub ensure_open : InodeHeader → FileHandle → TableFs P → FileHandle × TableFs P
  ensure_open iheader fh s = elim fh.fd_ [
    | some fd ↦ (fh, s)
    | none ↦ let (fd, t) = open_disk_file P iheader fh.flags_ s in (record fh { fd_ = fd }, t)
  ]

  -- `Read(path, buf, size, offset, fi)`, with what it writes to `buf`
  unfoldable pub read_file :
      ℕ → ℕ → FileHandle → TableFs P → Option (ℤ × List ℕ × FileHandle × TableFs P)
  read_file size offset fh s = do
    h ← Icache.handle_at P fh.handle_ s.inode_cache
    if ltb 0 h.value_.header.has_blob
        then (let (fh', t) = ensure_open h.value_.header fh s in
            elim fh'.fd_ [
              | none ↦ some (neg ebadf, [], fh', t)
              | some fd ↦ elim (disk_pread fd size offset t.state_.disk) [
                | gives buf ↦ some (pos (length buf), buf, fh', t)
                | fails e ↦ some (negsuc 0, [], fh', set_errno P e t)
              ]
            ])
        else (let buf = get_inline_data h.value_ offset size in some (pos (length buf), buf, fh, s))

  -- `ret = pwrite(fd, buf, size, offset)`
  unfoldable pub write_disk : ℕ → List ℕ → ℕ → TableFs P → ℤ × TableFs P
  write_disk fd buf offset s =
      let (out, k) = disk_pwrite fd buf offset s.state_.disk in
      elim out [
        | gives n ↦ (pos n, set_disk P k s)
        | fails e ↦ (negsuc 0, set_errno P e (set_disk P k s))
      ]

  -- The end of `Write`: a result that is not negative makes the file as large as what it holds,
  -- unless the data has moved to the disk just now.
  unfoldable pub grow : ℤ → Bool → ℕ → Ptr → TableFs P → Option (TableFs P)
  grow (pos n) true end handle s = set_value handle (set_size end) s
  grow (pos n) false end handle s = some s
  grow (negsuc n) larger end handle s = some s

  -- `Write` on a file whose data is on the disk.
  unfoldable pub write_blob :
      InodeHeader → List ℕ → ℕ → FileHandle → TableFs P → ℤ × FileHandle × TableFs P
  write_blob iheader buf offset fh s =
      let (fh', t) = ensure_open iheader fh s in
      elim fh'.fd_ [
        | none ↦ (neg ebadf, fh', t)
        | some fd ↦ let (ret, u) = write_disk fd buf offset t in (ret, fh', u)
      ]

  -- `Write` on a file whose data moves to the disk, as it becomes too large for the table.
  unfoldable pub write_migrating :
      List ℕ → ℕ → ℕ → FileHandle → TableFs P → Option (ℤ × FileHandle × TableFs P)
  write_migrating buf offset flags fh s = do
    (ret, fd, t) ← migrate_to_disk_file P fh.handle_ fh.fd_ flags s
    let fh' = record fh { fd_ = fd }
    elim fd [
      | none ↦ some (ret, fh', t)
      | some n ↦ elim ret [
        | pos ℕ.zero ↦ do
          u ← set_value fh.handle_ (set_blob_size (offset + length buf)) t
          let (ret', v) = write_disk n buf offset u
          some (ret', fh', v)
        | other ↦ some (other, fh', t)
      ]
    ]

  -- `Write(path, buf, size, offset, fi)`, where `flags` are `fi->flags`
  unfoldable pub write_file :
      List ℕ → ℕ → ℕ → FileHandle → TableFs P → Option (ℤ × FileHandle × TableFs P)
  write_file buf offset flags fh s = do
    h ← Icache.handle_at P fh.handle_ s.inode_cache
    let t = record s {
      inode_cache =
          Icache.set_handle P fh.handle_ (record h { mode_ = Mode.inode_write }) s.inode_cache;
    }
    let iheader = h.value_.header
    let end = offset + length buf
    let larger = ltb iheader.fstat.st_size end
    if ltb 0 iheader.has_blob
        then (let (ret, fh', u) = write_blob iheader buf offset fh t in
            do v ← grow ret larger end fh.handle_ u; some (ret, fh', v))
        else if ltb t.state_.threshold_ end
        then write_migrating buf offset flags fh t
        else (do
          u ← set_value fh.handle_ (update_inline_data offset buf) t
          v ← grow (pos (length buf)) larger end fh.handle_ u
          some (pos (length buf), fh, v))
