-- ===== src/Tfs/Shrinking.antt =====
-- fs/tablefs.cpp: Truncate of a file on the disk to a size within the threshold.
use tablefs.Base.{
  ℕ, ◌-◌, ◌<◌, ◌≤◌, ◌≡◌, refl, sym, ap, ◌∙◌, true, false, Option, none, some, List, [], ◌∷◌, ◌++◌,
  arith, nat_beq, ltb, if◌then◌else◌, length, take, length-take_of_le,
}
use mathlib.Core.Path.{subst}
use tablefs.Base.Int.{pos}
use tablefs.Key.{key_eq}
use tablefs.Value.{InodeValue, update_inline_data, update_inode_header}
use tablefs.Value.Data.{update_inline_data-IsLaidOut}
use tablefs.Value.Bytes.{update_ihandle_value-nil}
use tablefs.Adaptor
use tablefs.Adaptor.Table.{get-put}
use tablefs.Platform.{Platform, Ptr, DbLaws, gives}
use tablefs.Platform.Caching.{CacheLaws}
use tablefs.Platform.Files.{FileLaws}
use tablefs.Icache.{InodeCacheHandle, Mode, handle_at}
use tablefs.Icache.Heap.{IsReplaced-trans}
use tablefs.Icache.Sound.{IsSound, IsReplaced-IsSound}
use tablefs.Icache.Dropping.{DropLaws}
use tablefs.Icache.Durable.{write_back-IsStored}
use tablefs.Tfs.{TableFs, FileSystemState, data_dir, data_file}
use tablefs.Tfs.Disk.{set_disk, migrate_disk_file_to_buffer}
use tablefs.Tfs.Closing.{truncate_handle, truncate_blob, truncated_header}
use tablefs.Tfs.Inline.{IsInline, set_value_lem}
use tablefs.Tfs.Blob.{IsBlob}

module _ {P : Platform} (files : FileLaws P) where
  open P use {Disk, disk_open, disk_pread}

  -- The value that is stored.
  abbrev shrunk : ℕ → ℕ → List ℕ → InodeValue → InodeValue
  shrunk threshold new_size buffer v =
      let w = update_inline_data 0 buffer v in
      update_inode_header (truncated_header P threshold new_size w.header) w

  shrunk-IsInline :
      {threshold : ℕ} {disk : Disk} {name content : List ℕ} (new_size : ℕ) (v : InodeValue)
      → IsBlob files threshold disk v name content
      → new_size ≤ threshold
      → IsInline threshold
          (shrunk threshold new_size (take new_size content) v)
          name
          (take new_size content)
  unfolding update_inline_data update_inode_header truncated_header
  shrunk-IsInline {threshold} {disk} {name} {content} new_size v b small =
      let buffer = take new_size content in
      let long : length buffer ≡ new_size =
        length-take_of_le new_size content (omega (arith, b.large)) in
      let laid = update_inline_data-IsLaidOut b.laid 0 buffer in
      let changed : nat_beq new_size v.header.fstat.st_size ≡ false =
        ground (arith, b.sized, b.large, small) in
      let back : ltb threshold new_size ≡ false = ground (arith, small) in
      record {
        laid = record {
          bytes = laid.bytes ∙ ap (◌++◌ (name ++ 0 ∷ [])) (update_ihandle_value-nil buffer);
          named = ground (arith, changed, laid.named);
        };
        no_blob = ground (arith, changed, back);
        sized = ground (arith, changed, long);
        small = omega (arith, long, small);
      }

  module _ (laws : CacheLaws P) (drops : DropLaws laws) (db_laws : DbLaws P) where
    open laws use {held}
    open files use {file_content, is_open}

    -- Truncate of a file on the disk to a size within the threshold, on a held handle in mode
    -- WRITE of a sound inode cache, where open and pread succeed and the Put of the new value
    -- returns 0. Where the string of the value stays in its place: it returns 0 and leaves the cache
    -- sound with one reference fewer to the handle; the table then has a value under the key of the
    -- handle that keeps the name and holds the first new_size bytes of the data, with that size and
    -- no data on the disk. Where the string moves, the header is read from freed memory.
    pub truncate_handle-IsInline :
        {name content : List ℕ} (new_size : ℕ) (p : Ptr) (junk : Option ℕ) (s : TableFs P)
        (h : InodeCacheHandle P) (fd : ℕ) (k : Disk) (bytes : List ℕ)
        → IsSound laws s.inode_cache
        → 0 < held p s.inode_cache.cache
        → handle_at P p s.inode_cache ≡ some h
        → h.mode_ ≡ Mode.inode_write
        → IsBlob files s.state_.threshold_ s.state_.disk h.value_ name content
        → new_size ≤ s.state_.threshold_
        → disk_open
            (data_dir h.value_.header.fstat.st_ino)
            (data_file h.value_.header.fstat.st_ino)
            s.state_.disk
          ≡ (gives fd, k)
        → disk_pread fd new_size 0 k ≡ gives bytes
        → (Adaptor.put P s.inode_cache.clock h.key_
            (shrunk s.state_.threshold_ new_size (take new_size content) h.value_)
            s.inode_cache.metadb_).0
          ≡ true
        → (truncate_handle P new_size p junk true s ≡ none)
          × (t : TableFs P) × (v : InodeValue) × (truncate_handle P new_size p junk false s
              ≡ some (pos 0, t))
          × IsSound laws t.inode_cache
          × ((q : Ptr)
              → held q t.inode_cache.cache ≡ (
                  if nat_beq q p
                  then held q s.inode_cache.cache - 1
                  else held q s.inode_cache.cache))
          × (Adaptor.get P h.key_ t.inode_cache.metadb_ ≡ some v)
          × IsInline s.state_.threshold_ v name (take new_size content)
    unfolding truncate_handle truncate_blob migrate_disk_file_to_buffer
    truncate_handle-IsInline {name} {content} new_size p junk s h fd k bytes v more here mode b
          small opens reads ok =
        let buffer = take new_size content in
        let d = data_dir h.value_.header.fstat.st_ino in
        let f = data_file h.value_.header.fstat.st_ino in
        let (on, same_file) = files.open_opens d f fd s.state_.disk k opens in
        let same : bytes ≡ buffer =
          files.pread_reads fd d f new_size 0 bytes k on reads
          ∙ ap (take new_size) (same_file ∙ b.on_disk) in
        let long : length bytes ≡ new_size =
          ap length same ∙ length-take_of_le new_size content (omega (arith, b.large)) in
        let k' = Platform.disk_unlink P d f (Platform.disk_close P fd k).1 in
        let s1 = set_disk P k' s in
        let (s2, stored, same2, here2, set2) =
          set_value_lem p (update_inline_data 0 bytes) s1 h here in
        let h2 = record h { value_ = update_inline_data 0 bytes h.value_ } in
        let limit : s2.state_.threshold_ ≡ s.state_.threshold_ =
          ap (λ (o : FileSystemState P). o.threshold_) same2 in
        let change : InodeValue → InodeValue =
          λ w. update_inode_header (truncated_header P s2.state_.threshold_ new_size w.header) w in
        let (s3, headed, same3, here3, set3) = set_value_lem p change s2 h2 here2 in
        let h3 = record h2 { value_ = change h2.value_ } in
        let set = IsReplaced-trans p h2 h3 s.inode_cache s2.inode_cache s3.inode_cache set2 set3 in
        let sound =
          IsReplaced-IsSound laws p h h3 s.inode_cache s3.inode_cache v here refl refl set in
        let more3 : 0 < held p s3.inode_cache.cache =
          subst (λ (c : Platform.Cache P). 0 < held p c) (sym set.same_cache) more in
        let value_is : shrunk s.state_.threshold_ new_size buffer h.value_ ≡ h3.value_ = sym (
          ap (λ (n : ℕ). shrunk n new_size bytes h.value_) limit
          ∙ ap (λ (o : List ℕ). shrunk s.state_.threshold_ new_size o h.value_) same) in
        let ok3 : (Adaptor.put P s.inode_cache.clock h.key_ h3.value_ s.inode_cache.metadb_).0
            ≡ true =
          subst
            (λ (w : InodeValue).
              (Adaptor.put P s.inode_cache.clock h.key_ w s.inode_cache.metadb_).0 ≡ true)
            value_is ok in
        let (e, st) = write_back-IsStored laws drops p h3 s3.inode_cache sound more3 here3 mode in
        (
          ground (arith, here, b.blob, opens, reads, long, small, stored),
          record s3 { inode_cache = e },
          h3.value_,
          ground (
            arith, here, b.blob, opens, reads, long, small, stored, headed, st.writes, st.releases,
          ),
          st.sound,
          λ q.
              st.now_held q
              ∙ ap (λ (c : Platform.Cache P). if nat_beq q p then held q c - 1 else held q c)
                  set.same_cache,
          ap (Adaptor.get P h.key_) st.table
              ∙ ground (
                arith,
                get-put db_laws s3.inode_cache.metadb_ s3.inode_cache.clock h.key_ h.key_ h3.value_,
                ok3,
                set.same_clock,
                set.same_table,
                key_eq.beq_iff h.key_ h.key_,
              ),
          subst (λ n. IsInline s.state_.threshold_ (shrunk n new_size bytes h.value_) name buffer)
              (sym limit)
              (subst
                (λ o.
                  IsInline s.state_.threshold_ (shrunk s.state_.threshold_ new_size o h.value_) name
                    buffer)
                (sym same) (shrunk-IsInline new_size h.value_ b small)),
        )
