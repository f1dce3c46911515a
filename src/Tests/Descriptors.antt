-- ===== src/Tests/Descriptors.antt =====
-- Descriptors at concrete inputs.
use tablefs.Base.{◌≡◌, refl, none, some, [], ◌∷◌, arith, ℕ, ◌⊎◌, List, true}
use tablefs.Base.Int.{pos}
use tablefs.Base.Maps
use tablefs.Key.{key_eq, key_beq}
use tablefs.Icache
use tablefs.Icache.{InodeCacheHandle, Mode, handle_at}
use tablefs.Adaptor
use tablefs.Tfs.{TableFs, path_delimiter}
use tablefs.Tfs.Path.Walk.{key_of}
use tablefs.Tfs.Content.{FileHandle, open_file, opens_for_writing}
use tablefs.Tfs.Closing.{release_file, close_descriptor, touch}
use tablefs.Wrapper.{FsWrapper, new_slots, open_path, close, seek, read}
use tablefs.Wrapper.Slots.{IsFull, descriptor}
use tablefs.Wrapper.Descriptors.{open_path-Opened, close-open_path, Opened}
use tablefs.Wrapper.Scanning.{scan_loop}
use tablefs.Wrapper.Positions.{IsAt}
use tablefs.Wrapper.Streams.{write_each, read-write_each, scan_loop-ends}
use tablefs.Tests.Handlers.{some_value-IsInline}
use tablefs.Tests.{mounted, some_value, some_content, empty_adaptor, root_lookup}
use tablefs.Tests.Memory.{memory, references}

-- A file system that holds the file /b.
abbrev with_file : TableFs memory
with_file = record mounted {
  inode_cache = record (mounted.inode_cache) {
    metadb_ = record empty_adaptor { db = (key_of 0 (b'b' ∷ []), some_value) ∷ [] };
  };
}

abbrev file_b : List ℕ
file_b = path_delimiter ∷ b'b' ∷ []

abbrev file_opened : TableFs memory
file_opened = record with_file {
  inode_cache = record (with_file.inode_cache) {
    cache = (1, 1) ∷ [];
    handles =
        (
          1,
          record {
            key_ = key_of 0 (b'b' ∷ []);
            value_ = some_value;
            mode_ = Mode.inode_read;
            pointer = 1;
          },
        )
        ∷ [];
    next_handle = 2;
  };
}

abbrev first_file : FileHandle
first_file = record { handle_ = 1; flags_ = 0; fd_ = none }

same_key : key_beq (key_of 0 (b'b' ∷ [])) (key_of 0 (b'b' ∷ [])) ≡ true
same_key = ground (arith, key_eq.beq_iff (key_of 0 (b'b' ∷ [])) (key_of 0 (b'b' ∷ [])))

opens : open_file memory file_b 0 with_file ≡ some (pos 0, some first_file, file_opened)
unfolding open_file opens_for_writing Icache.get Adaptor.get Icache.add_handle Maps.lookup
    Maps.insert handle_at references Icache.clean_all
opens = ground (arith, root_lookup with_file, same_key)

abbrev file_closed : TableFs memory
file_closed = record with_file { inode_cache = record (with_file.inode_cache) { next_handle = 2 } }

closes : release_file memory first_file file_opened ≡ some (pos 0, file_closed)
unfolding release_file Icache.flush Icache.write_back close_descriptor touch Icache.set_handle
    Maps.insert Icache.evict Icache.release Maps.lookup Maps.erase handle_at references
    Icache.clean_all Icache.clean_inode_handle
closes = refl

abbrev wrapped : FsWrapper memory
wrapped = record { fs = with_file; slots = new_slots }

some_free : ¬ IsFull wrapped.slots
unfolding new_slots IsFull
some_free full = absurd (omega (arith, full.0))

open_path-Opened_example :
    (IsFull wrapped.slots × (open_path memory file_b 0 wrapped ≡ none))
    ⊎ Opened file_b 0 wrapped (pos 0) (some first_file) file_opened
open_path-Opened_example =
    open_path-Opened file_b 0 wrapped (pos 0) (some first_file) file_opened opens

close-open_path_example :
    (fd : ℕ) × (v : FsWrapper memory) × (x : FsWrapper memory) × (open_path memory file_b 0 wrapped
      ≡ some (pos fd, v))
    × (close memory fd v ≡ some (pos 0, x))
    × (x.fs ≡ file_closed)
    × ((j : ℕ) → descriptor x.slots j ≡ descriptor wrapped.slots j)
close-open_path_example =
    close-open_path file_b 0 wrapped first_file file_opened file_closed (pos 0) some_free opens
      closes

-- The file /b as the first descriptor.
abbrev reading : FsWrapper memory
reading = record {
  fs = file_opened;
  slots = record { freefd = 1; path = file_b; offset = 0; flags = 0; fh = some first_file } ∷ [];
}

reading-IsAt : IsAt 0 (104 ∷ 105 ∷ []) some_content 0 reading
unfolding handle_at Maps.lookup
reading-IsAt = record {
  slot = record { freefd = 1; path = file_b; offset = 0; flags = 0; fh = some first_file };
  slot_here = refl;
  position = refl;
  fh = first_file;
  opened = refl;
  handle = record {
    key_ = key_of 0 (b'b' ∷ []);
    value_ = some_value;
    mode_ = Mode.inode_read;
    pointer = 1;
  };
  handle_here = refl;
  inline = some_value-IsInline;
}

read-write_each_example :
    (v : FsWrapper memory) × (u : FsWrapper memory) × (x : FsWrapper memory) × (write_each 0
        ((7 ∷ 8 ∷ []) ∷ (9 ∷ []) ∷ [])
        reading
      ≡ some (pos 2 ∷ pos 1 ∷ [], v))
    × (seek memory 0 0 v ≡ some (pos 0, u))
    × (read memory 0 3 u ≡ some (pos 3, 7 ∷ 8 ∷ 9 ∷ [], x))
read-write_each_example =
    read-write_each 0 (7 ∷ 8 ∷ []) ((9 ∷ []) ∷ []) reading reading-IsAt (omega arith)

scan_loop-ends_example :
    (v : FsWrapper memory) × (scan_loop memory (pos 0) 2 0 3 reading ≡ some v)
    × IsAt 0 (104 ∷ 105 ∷ []) some_content 3 v
scan_loop-ends_example = scan_loop-ends 0 2 reading reading-IsAt (omega arith) (omega arith)
