-- ===== src/Tfs/Migrating.antt =====
-- fs/tablefs.cpp: Write and Read where the data of a file moves to the disk.
use Prim.Native.Nat.{bit_and}
use tablefs.Base.{ℕ, ◌+◌, ◌<◌, ◌≡◌, refl, sym, ap, ◌∙◌, true, none, some, List, [], arith, length}
use mathlib.Core.Path.{subst}
use tablefs.Base.Int.{pos}
use tablefs.Value.{InodeHeader, update_ihandle_value, update_inode_header}
use tablefs.Value.Data.{slice}
use tablefs.Value.Bytes.{length-update_ihandle_value}
use tablefs.Platform.{Platform, gives}
use tablefs.Platform.Files.{FileLaws, trunc_or_append}
use tablefs.Icache.{InodeCacheHandle, Mode, handle_at, set_handle}
use tablefs.Icache.Heap.{handle_at-set_handle}
use tablefs.Tfs.{TableFs, FileSystemState, data_dir, data_file}
use tablefs.Tfs.Content.{
  FileHandle, set_blob_size, write_migrating, write_file, read_file, ensure_open, write_disk,
}
use tablefs.Tfs.Disk.{set_disk, open_disk_file, migrate_to_disk_file}
use tablefs.Tfs.Blob.{IsBlob, Migrates, migrated_content, move_inline_data-IsMoved}
use tablefs.Tfs.Inline.{IsInline, set_value_lem}

module _ {P : Platform} (laws : FileLaws P) where
  open laws use {file_content, is_open}
  open P use {Disk, disk_create, disk_pwrite, disk_pread}

  pub write_file-IsBlob :
      {name content : List ℕ} (at flags fd : ℕ) (buf : List ℕ) (fh : FileHandle) (s : TableFs P)
      (h : InodeCacheHandle P) (k : Disk)
      → handle_at P fh.handle_ s.inode_cache ≡ some h
      → fh.fd_ ≡ none
      → IsInline s.state_.threshold_ h.value_ name content
      → s.state_.threshold_ < at + length buf
      → 0 < length buf
      → bit_and flags trunc_or_append ≡ 0
      → file_content
          (data_dir h.value_.header.fstat.st_ino)
          (data_file h.value_.header.fstat.st_ino)
          s.state_.disk
        ≡ []
      → Migrates laws flags at buf content h.value_ s.state_.disk fd k
      → (t : TableFs P) × (h' : InodeCacheHandle P) × (write_file P buf at flags fh s
          ≡ some (pos (length buf), record fh { fd_ = some fd }, t))
        × (handle_at P fh.handle_ t.inode_cache ≡ some h')
        × (h'.mode_ ≡ Mode.inode_write)
        × (t.state_ ≡ record (s.state_) { disk = k })
        × (h'.value_.header.fstat.st_ino ≡ h.value_.header.fstat.st_ino)
        × IsBlob laws s.state_.threshold_ k h'.value_ name (update_ihandle_value at buf content)
  unfolding write_file write_migrating migrate_to_disk_file open_disk_file write_disk
      update_inode_header
  write_file-IsBlob {name} {content} at flags fd buf fh s h k here closed i past some_bytes plain
        fresh m =
      let end = at + length buf in
      let p = fh.handle_ in
      let h1 = record h { mode_ = Mode.inode_write } in
      let s1 = record s { inode_cache = set_handle P p h1 s.inode_cache } in
      let s2 = set_disk P m.opened_disk s1 in
      let here2 : handle_at P p s2.inode_cache ≡ some h1 =
        ground (arith, handle_at-set_handle p p h1 s.inode_cache) in
      let (s3, moved, mv) = move_inline_data-IsMoved laws p fd s2 h1 m.moved_disk here2 i m.moves in
      let (s4, stored, same4, here4, set4) =
        set_value_lem p (set_blob_size end) s3 mv.handle mv.here in
      let (opened, holds) =
        migrated_content laws flags at buf content h.value_ s.state_.disk fd k plain some_bytes
          fresh m in
      let h4 = record (mv.handle) { value_ = set_blob_size end mv.handle.value_ } in
      let long = length-update_ihandle_value at buf content in
      let disk4 : s4.state_.disk ≡ m.moved_disk =
        ap (λ (o : FileSystemState P). o.disk) (same4 ∙ mv.state_is) in
      let out4 : disk_pwrite fd buf at s4.state_.disk ≡ (gives (length buf), k) =
        ap (disk_pwrite fd buf at) disk4 ∙ m.writes in
      let creates : disk_create (data_dir h1.value_.header.fstat.st_ino)
            (data_file h1.value_.header.fstat.st_ino) flags h1.value_.header.fstat.st_mode
            s1.state_.disk
          ≡ (gives fd, m.opened_disk) =
        m.creates in
      let number = ap (λ (o : InodeHeader). o.fstat.st_ino) mv.same_header in
      (
        set_disk P k s4,
        h4,
        ground (arith, here, closed, i.no_blob, here2, creates, moved, stored, out4),
        here4,
        mv.same_mode,
        ap (λ (o : FileSystemState P). record o { disk = k }) (same4 ∙ mv.state_is),
        number,
        record {
          laid = record { bytes = mv.laid.bytes; named = mv.laid.named };
          blob = refl;
          sized = omega (arith, long, i.small, past);
          large = omega (arith, long, past);
          on_disk = ap (λ (n : ℕ). file_content (data_dir n) (data_file n) k) number ∙ holds;
        },
      )

  -- Read on a descriptor of a file on the disk.
  pub read_file-IsBlob :
      {threshold : ℕ} {name content : List ℕ} (size offset fd : ℕ) (bytes : List ℕ)
      (fh : FileHandle) (s : TableFs P) (h : InodeCacheHandle P)
      → handle_at P fh.handle_ s.inode_cache ≡ some h
      → fh.fd_ ≡ some fd
      → IsBlob laws threshold s.state_.disk h.value_ name content
      → is_open fd
          (data_dir h.value_.header.fstat.st_ino)
          (data_file h.value_.header.fstat.st_ino)
          s.state_.disk
        ≡ true
      → disk_pread fd size offset s.state_.disk ≡ gives bytes
      → read_file P size offset fh s
        ≡ some (pos (length (slice offset size content)), slice offset size content, fh, s)
  unfolding read_file ensure_open
  read_file-IsBlob {content} size offset fd bytes fh s h here opened b on reads =
      let d = data_dir h.value_.header.fstat.st_ino in
      let f = data_file h.value_.header.fstat.st_ino in
      let same : bytes ≡ slice offset size content =
        laws.pread_reads fd d f size offset bytes s.state_.disk on reads
        ∙ ap (slice offset size) b.on_disk in
      ground (arith, here, opened, b.blob, reads, same)

  -- A write to a file in the table that takes it past the threshold, with a buffer that is not
  -- empty and flags without O_TRUNC and O_APPEND, through a descriptor that has no file open on the
  -- disk yet, where no other data is in the file of its number and the calls of the C library
  -- succeed: Write returns the length of the buffer. The data with the buffer in its place is then on the
  -- disk, the value keeps the name and the new size and no data, and the handle is in mode WRITE. A
  -- read that does not fail gives the bytes of the new data from its offset on.
  pub read_file-write_file_past :
      {name content : List ℕ} (at flags size offset fd : ℕ) (buf bytes : List ℕ) (fh : FileHandle)
      (s : TableFs P) (h : InodeCacheHandle P) (k : Disk)
      → handle_at P fh.handle_ s.inode_cache ≡ some h
      → fh.fd_ ≡ none
      → IsInline s.state_.threshold_ h.value_ name content
      → s.state_.threshold_ < at + length buf
      → 0 < length buf
      → bit_and flags trunc_or_append ≡ 0
      → file_content
          (data_dir h.value_.header.fstat.st_ino)
          (data_file h.value_.header.fstat.st_ino)
          s.state_.disk
        ≡ []
      → Migrates laws flags at buf content h.value_ s.state_.disk fd k
      → disk_pread fd size offset k ≡ gives bytes
      → (t : TableFs P) × (h' : InodeCacheHandle P) × (write_file P buf at flags fh s
          ≡ some (pos (length buf), record fh { fd_ = some fd }, t))
        × (handle_at P fh.handle_ t.inode_cache ≡ some h')
        × (h'.mode_ ≡ Mode.inode_write)
        × IsBlob laws t.state_.threshold_ t.state_.disk h'.value_ name
            (update_ihandle_value at buf content)
        × (read_file P size offset (record fh { fd_ = some fd }) t
            ≡ some (
              pos (length (slice offset size (update_ihandle_value at buf content))),
              slice offset size (update_ihandle_value at buf content),
              record fh { fd_ = some fd },
              t,
            ))
  read_file-write_file_past {name} {content} at flags size offset fd buf bytes fh s h k here closed
        i past some_bytes plain fresh m reads =
      let (t, h', wrote, here', mode, state_is, number, b) =
        write_file-IsBlob at flags fd buf fh s h k here closed i past some_bytes plain fresh m in
      let (opened, holds) =
        migrated_content laws flags at buf content h.value_ s.state_.disk fd k plain some_bytes
          fresh m in
      let at_disk : k ≡ t.state_.disk = sym (ap (λ (o : FileSystemState P). o.disk) state_is) in
      let limit : s.state_.threshold_ ≡ t.state_.threshold_ =
        sym (ap (λ (o : FileSystemState P). o.threshold_) state_is) in
      let blob : IsBlob laws t.state_.threshold_ t.state_.disk h'.value_ name
          (update_ihandle_value at buf content) =
        subst
          (λ (o : Disk).
            IsBlob laws t.state_.threshold_ o h'.value_ name (update_ihandle_value at buf content))
          at_disk
          (subst (λ n. IsBlob laws n k h'.value_ name (update_ihandle_value at buf content)) limit
            b) in
      (
        t,
        h',
        wrote,
        here',
        mode,
        blob,
        read_file-IsBlob size offset fd bytes (record fh { fd_ = some fd }) t h' here' refl blob
            (subst
              (λ (o : Disk).
                is_open fd (data_dir h'.value_.header.fstat.st_ino)
                  (data_file h'.value_.header.fstat.st_ino) o
                ≡ true)
              at_disk
              (subst (λ n. is_open fd (data_dir n) (data_file n) k ≡ true) (sym number) opened))
            (subst (λ (o : Disk). disk_pread fd size offset o ≡ gives bytes) at_disk reads),
      )
