-- ===== src/Tfs/Disk.antt =====
-- fs/tablefs.cpp: GetDiskFilePath to CloseDiskFile, the files that hold what is too large for the
-- table. A path in the data directory is a pair of numbers. A descriptor `fd_` of -1 is none.
-- A call that fails sets errno. Sizes and results are taken to fit the type `int`.
use tablefs.Base.{
  ℕ, Option, none, some, List, [], if◌then◌else◌, nat_beq, ltb, length, take, drop, ◌>>=◌,
}
use tablefs.Base.Int.{ℤ, pos, neg}
use tablefs.Key.{Inode}
use tablefs.Value.{InodeHeader, data_start, drop_inline_data}
use tablefs.Platform.{Platform, gives, fails, Ptr}
use tablefs.Icache
use tablefs.Tfs.{TableFs, fs_error, data_dir, data_file}

abbrev pub ebadf : ℕ
ebadf = 9

module _ (P : Platform) where
  open P use {
    Disk, disk_unlink, disk_truncate, disk_create, disk_open, disk_pread, disk_pwrite, disk_close,
  }

  -- The state after a change of the disk.
  abbrev pub set_disk : Disk → TableFs P → TableFs P
  set_disk disk s = record s { state_ = record (s.state_) { disk = disk } }

  abbrev pub set_errno : ℕ → TableFs P → TableFs P
  set_errno e s = record s { errno = e }

  -- `OpenDiskFile`
  unfoldable pub open_disk_file : InodeHeader → ℕ → TableFs P → Option ℕ × TableFs P
  open_disk_file iheader flags s =
      let inode = iheader.fstat.st_ino in
      let (out, k) =
        disk_create (data_dir inode) (data_file inode) flags iheader.fstat.st_mode s.state_.disk in
      elim out [ gives fd ↦ (some fd, set_disk k s) | fails e ↦ (none, set_errno e (set_disk k s)) ]

  -- `TruncateDiskFile`, whose result the only caller drops
  unfoldable pub truncate_disk_file : Inode → ℕ → TableFs P → TableFs P
  truncate_disk_file inode_id new_size s =
      set_disk (disk_truncate (data_dir inode_id) (data_file inode_id) new_size s.state_.disk) s

  -- `close(fd)`, as the callers below use it, which drop its result
  unfoldable pub close_fd : ℕ → TableFs P → TableFs P
  close_fd fd s = set_disk (disk_close fd s.state_.disk).1 s

  -- `MigrateDiskFileToBuffer`: the bytes that `pread` puts into the buffer. Where `open` or
  -- `pread` fails there are none; the calls with the descriptor -1 set errno to EBADF.
  unfoldable pub migrate_disk_file_to_buffer : Inode → ℕ → TableFs P → List ℕ × TableFs P
  migrate_disk_file_to_buffer inode_id size s =
      let (out, k) = disk_open (data_dir inode_id) (data_file inode_id) s.state_.disk in
      elim out [
        | fails e ↦ (
          [],
          set_errno ebadf (set_disk (disk_unlink (data_dir inode_id) (data_file inode_id) k) s),
        )
        | gives fd ↦
            let k' = disk_unlink (data_dir inode_id) (data_file inode_id) (disk_close fd k).1 in
            elim (disk_pread fd size 0 k) [
              | gives buffer ↦ (buffer, set_disk k' s)
              | fails e ↦ ([], set_errno e (set_disk k' s))
            ]
      ]

  -- The part of `MigrateToDiskFile` behind the open: the inline data goes to the file, and is
  -- dropped whatever `pwrite` returns. A file size past the end of the value reads outside it.
  unfoldable pub move_inline_data : Ptr → ℕ → TableFs P → Option (ℤ × TableFs P)
  move_inline_data handle fd s = do
    h ← Icache.handle_at P handle s.inode_cache
    let size = h.value_.header.fstat.st_size
    let buffer = take size (drop (data_start h.value_) h.value_.bytes)
    let dropped =
        Icache.set_handle P handle (record h { value_ = drop_inline_data h.value_ }) s.inode_cache
    let (out, k) = disk_pwrite fd buffer 0 s.state_.disk
    let t = set_disk k (record s { inode_cache = dropped })
    if ltb 0 size
        then (if ltb (length buffer) size then none else elim out [
          | gives n ↦ some (if nat_beq n size then pos 0 else fs_error P t, t)
          | fails e ↦ some (neg e, set_errno e t)
        ])
        else some (pos 0, s)

  -- `MigrateToDiskFile(handle, fd, flags)`, with the new `fd`
  unfoldable pub migrate_to_disk_file :
      Ptr → Option ℕ → ℕ → TableFs P → Option (ℤ × Option ℕ × TableFs P)
  migrate_to_disk_file handle fd flags s = do
    h ← Icache.handle_at P handle s.inode_cache
    let closed : TableFs P = elim fd [ some old ↦ close_fd old s | none ↦ s ]
    let (out, t) = open_disk_file h.value_.header flags closed
    elim out [
      | none ↦ some (fs_error P t, none, t)
      | some new_fd ↦ do (ret, u) ← move_inline_data handle new_fd t; some (ret, some new_fd, u)
    ]
