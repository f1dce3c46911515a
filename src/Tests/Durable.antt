-- ===== src/Tests/Durable.antt =====
-- Files that go to the table and to the disk, at concrete inputs.
use tablefs.Base.{
  ◌+◌, ◌-◌, ◌≡◌, ℕ, refl, none, some, List, [], ◌∷◌, arith, length, nat_eq, nat_beq, true, false,
  take, if◌then◌else◌,
}
use tablefs.Base.Int.{pos}
use tablefs.Base.Maps
use tablefs.Key.{key_eq}
use tablefs.Value.{InodeValue, update_ihandle_value, replace}
use tablefs.Value.Data.{slice}
use tablefs.Adaptor
use tablefs.Platform.{Platform, gives}
use tablefs.Platform.Files.{FileLaws}
use tablefs.Icache.{InodeCacheHandle, Mode, handle_at}
use tablefs.Icache.Sound.{IsSound}
use tablefs.Tfs.{TableFs, data_dir, data_file}
use tablefs.Tfs.Content.{write_file, read_file}
use tablefs.Tfs.Closing.{release_file, truncate_handle}
use tablefs.Tfs.Inline.{IsInline}
use tablefs.Tfs.Durable.{IsTheEntry, release_file-write_file}
use tablefs.Tfs.Blob.{IsBlob, Migrates}
use tablefs.Tfs.Migrating.{read_file-write_file_past}
use tablefs.Tfs.Shrinking.{truncate_handle-IsInline}
use tablefs.Tests.{some_stat, some_value, some_content, some_value-IsLaidOut}
use tablefs.Tests.Memory.{
  memory, memory-CacheLaws, memory-DbLaws, references, MemoryDisk, open_file, edit, content_of,
}
use tablefs.Tests.Memory.Files.{memory-FileLaws, memory-DropLaws}
use tablefs.Tests.Caching.{holding, some_handle, holding-here, holding_held, holding-IsSound}
use tablefs.Tests.Handlers.{opened, some_file, some_value-IsInline}

no_other :
    IsTheEntry memory-CacheLaws memory-DropLaws memory-DbLaws 7 some_handle.key_ opened.inode_cache
no_other q b = absurd (cc b)

put_works :
    (v : InodeValue)
    → IsInline 4096 v (104 ∷ 105 ∷ []) (update_ihandle_value 5 (8 ∷ 9 ∷ []) some_content)
    → (Adaptor.put memory 100 some_handle.key_ v holding.metadb_).0 ≡ true
unfolding Adaptor.put
put_works v i = refl

-- Two bytes behind a gap of two.
release_file-write_file_example :
    (t : TableFs memory) × (u : TableFs memory) × (v : InodeValue) × (write_file memory
        (8 ∷ 9 ∷ [])
        5
        2
        some_file
        opened
      ≡ some (pos 2, some_file, t))
    × (release_file memory some_file t ≡ some (pos 0, u))
    × IsSound memory-CacheLaws u.inode_cache
    × (Adaptor.get memory some_handle.key_ u.inode_cache.metadb_ ≡ some v)
    × IsInline 4096 v (104 ∷ 105 ∷ []) (update_ihandle_value 5 (8 ∷ 9 ∷ []) some_content)
release_file-write_file_example =
    release_file-write_file memory-CacheLaws memory-DropLaws memory-DbLaws 5 2 (8 ∷ 9 ∷ [])
      some_file opened some_handle holding-IsSound holding_held holding-here refl no_other
      some_value-IsInline (omega arith) put_works

-- A threshold of 4 bytes.
abbrev tight : TableFs memory
tight = record opened { state_ = record (opened.state_) { threshold_ = 4 } }

tight-IsInline : IsInline 4 some_value (104 ∷ 105 ∷ []) some_content
tight-IsInline = record {
  laid = some_value-IsLaidOut;
  no_blob = refl;
  sized = refl;
  small = omega arith;
}

abbrev number : ℕ
number = some_value.header.fstat.st_ino

abbrev disk_after : MemoryDisk
disk_after = record (tight.state_.disk) {
  files = (number, 1 ∷ 2 ∷ 8 ∷ 9 ∷ 7 ∷ []) ∷ [];
  open_files = (tight.state_.disk.next_fd, number) ∷ [];
  next_fd = tight.state_.disk.next_fd + 1;
}

nothing_there :
    FileLaws.file_content memory-FileLaws (data_dir number) (data_file number) tight.state_.disk
    ≡ []
unfolding content_of Maps.lookup
nothing_there = refl

migrates :
    Migrates memory-FileLaws 2 2
      (8 ∷ 9 ∷ 7 ∷ [])
      some_content
      some_value
      tight.state_.disk
      tight.state_.disk.next_fd
      disk_after
unfolding open_file edit content_of Maps.lookup Maps.insert update_ihandle_value replace
migrates = record {
  opened_disk = record (tight.state_.disk) {
    open_files = (tight.state_.disk.next_fd, number) ∷ [];
    next_fd = tight.state_.disk.next_fd + 1;
  };
  moved_disk = record (tight.state_.disk) {
    files = (number, some_content) ∷ [];
    open_files = (tight.state_.disk.next_fd, number) ∷ [];
    next_fd = tight.state_.disk.next_fd + 1;
  };
  creates = refl;
  moves = refl;
  writes = refl;
}

after_content : content_of number disk_after ≡ 1 ∷ 2 ∷ 8 ∷ 9 ∷ 7 ∷ []
unfolding content_of Maps.lookup
after_content = refl

reads_back :
    Platform.disk_pread memory tight.state_.disk.next_fd 3 1 disk_after ≡ gives (2 ∷ 8 ∷ 9 ∷ [])
unfolding content_of Maps.lookup
reads_back = refl

read_file-write_file_past_example :
    (t : TableFs memory) × (h' : InodeCacheHandle memory) × (write_file memory
        (8 ∷ 9 ∷ 7 ∷ [])
        2
        2
        some_file
        tight
      ≡ some (pos 3, record some_file { fd_ = some tight.state_.disk.next_fd }, t))
    × (handle_at memory some_file.handle_ t.inode_cache ≡ some h')
    × (h'.mode_ ≡ Mode.inode_write)
    × IsBlob memory-FileLaws t.state_.threshold_ t.state_.disk h'.value_
        (104 ∷ 105 ∷ [])
        (update_ihandle_value 2 (8 ∷ 9 ∷ 7 ∷ []) some_content)
    × (read_file memory 3 1 (record some_file { fd_ = some tight.state_.disk.next_fd }) t
        ≡ some (
          pos (length (slice 1 3 (update_ihandle_value 2 (8 ∷ 9 ∷ 7 ∷ []) some_content))),
          slice 1 3 (update_ihandle_value 2 (8 ∷ 9 ∷ 7 ∷ []) some_content),
          record some_file { fd_ = some tight.state_.disk.next_fd },
          t,
        ))
read_file-write_file_past_example =
    read_file-write_file_past memory-FileLaws 2 2 3 1 tight.state_.disk.next_fd (8 ∷ 9 ∷ 7 ∷ [])
      (2 ∷ 8 ∷ 9 ∷ []) some_file tight some_handle disk_after holding-here refl tight-IsInline
      (omega arith) (omega arith) refl nothing_there migrates reads_back

-- A file of six bytes on the disk.
abbrev long_content : List ℕ
long_content = 1 ∷ 2 ∷ 3 ∷ 4 ∷ 5 ∷ 6 ∷ []

abbrev blob_value : InodeValue
blob_value = record {
  header = record { fstat = record some_stat { st_size = 6 }; has_blob = 1; namelen = 2 };
  bytes = 104 ∷ 105 ∷ 0 ∷ [];
}

abbrev blob_handle : InodeCacheHandle memory
blob_handle = record some_handle { value_ = blob_value }

abbrev spilled : TableFs memory
spilled = record tight {
  inode_cache = record holding { handles = (7, blob_handle) ∷ [] };
  state_ = record (tight.state_) {
    disk = record (tight.state_.disk) { files = (number, long_content) ∷ [] };
  };
}

abbrev opened_disk : MemoryDisk
opened_disk = record (spilled.state_.disk) {
  open_files = (spilled.state_.disk.next_fd, number) ∷ [];
  next_fd = spilled.state_.disk.next_fd + 1;
}

spilled-here : handle_at memory 7 spilled.inode_cache ≡ some blob_handle
unfolding handle_at Maps.lookup
spilled-here = refl

spilled-IsSound : IsSound memory-CacheLaws spilled.inode_cache
unfolding references Maps.lookup handle_at
spilled-IsSound = record {
  heap = λ q. ground arith;
  fresh = λ q h. ground arith;
  owned = λ q h e. ground arith;
  keyed = λ k q h b e. absurd (cc b);
}

blob_value-IsBlob :
    IsBlob memory-FileLaws 4 spilled.state_.disk blob_value (104 ∷ 105 ∷ []) long_content
unfolding content_of Maps.lookup
blob_value-IsBlob = record {
  laid = record { bytes = refl; named = refl };
  blob = refl;
  sized = refl;
  large = omega arith;
  on_disk = refl;
}

spilled_opens :
    open_file number spilled.state_.disk ≡ (gives spilled.state_.disk.next_fd, opened_disk)
unfolding open_file Maps.insert
spilled_opens = refl

spilled_reads :
    Platform.disk_pread memory spilled.state_.disk.next_fd 2 0 opened_disk ≡ gives (1 ∷ 2 ∷ [])
unfolding content_of Maps.lookup
spilled_reads = refl

spilled_puts :
    (v : InodeValue)
    → (Adaptor.put memory 100 blob_handle.key_ v spilled.inode_cache.metadb_).0 ≡ true
unfolding Adaptor.put
spilled_puts v = refl

truncate_handle-IsInline_example :
    (truncate_handle memory 2 7 none true spilled ≡ none)
    × (t : TableFs memory) × (v : InodeValue) × (truncate_handle memory 2 7 none false spilled
        ≡ some (pos 0, t))
    × IsSound memory-CacheLaws t.inode_cache
    × ((q : ℕ)
        → references q t.inode_cache.cache ≡ (
            if nat_beq q 7
            then references q spilled.inode_cache.cache - 1
            else references q spilled.inode_cache.cache))
    × (Adaptor.get memory blob_handle.key_ t.inode_cache.metadb_ ≡ some v)
    × IsInline 4 v (104 ∷ 105 ∷ []) (take 2 long_content)
truncate_handle-IsInline_example =
    truncate_handle-IsInline memory-FileLaws memory-CacheLaws memory-DropLaws memory-DbLaws 2 7 none
      spilled blob_handle spilled.state_.disk.next_fd opened_disk (1 ∷ 2 ∷ []) spilled-IsSound
      holding_held spilled-here refl blob_value-IsBlob (omega arith) spilled_opens spilled_reads
      (spilled_puts _)
