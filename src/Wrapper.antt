-- ===== src/Wrapper.antt =====
-- fs/fswrapper.h and fs/fswrapper.cpp: TableFSWrapper, which gives the handlers the face of the
-- system calls: numbers for open files, with a position each. The arrays freefd, paths, offsets and
-- fis are one array of slots; `none` is an index outside them, or the use of a `fi->fh` that was
-- not set, besides what the handlers fault on. The copy of each request to /dev/null and the
-- messages are left out.
pub mod Slots
pub mod Descriptors
pub mod Positions
pub mod Streams
pub mod Scanning
use tablefs.Base.{
  ℕ, zero, suc, ◌+◌, ◌<◌, Bool, true, false, Option, none, some, List, [], ◌∷◌, if◌then◌else◌,
  nat_beq, length, get_elem?, replicate, ◌>>=◌,
}
use tablefs.Base.Int.{ℤ, pos, neg, negsuc}
use tablefs.Value.{Stat}
use tablefs.Platform.{Platform, Ptr}
use tablefs.Tfs.{TableFs}
use tablefs.Tfs.Attributes.{get_attr, chmod, update_timens}
use tablefs.Tfs.Entries.{make_node, make_dir, unlink}
use tablefs.Tfs.Renaming.{rename}
use tablefs.Tfs.Disk.{set_errno}
use tablefs.Tfs.Content.{FileHandle, open_file, read_file, write_file}
use tablefs.Tfs.Closing.{release_file}

-- What the four arrays hold at one index.
pub record Slot : Type 0 where
  pub freefd : ℕ
  pub path : List ℕ
  pub offset : ℕ
  pub flags : ℕ
  pub fh : Option FileHandle

abbrev pub fd_limit : ℕ
fd_limit = 128

pub record FsWrapper (P : Platform) : Type 0 where
  pub fs : TableFs P
  pub slots : List Slot

-- `GetFileDescriptor`: the first index whose slot is free, now marked as taken.
unfoldable pub get_file_descriptor : List Slot → Option ℕ × List Slot
get_file_descriptor [] = (none, [])
get_file_descriptor (s ∷ ss) =
    let (fd, rest) = get_file_descriptor ss in
    if nat_beq s.freefd 0
    then (some 0, record s { freefd = 1 } ∷ ss)
    else (elim fd [ none ↦ none | some n ↦ some (suc n) ], s ∷ rest)

-- A write to the arrays at an index.
abbrev pub set_slot : List Slot → ℕ → Slot → List Slot
set_slot [] i v = []
set_slot (s ∷ ss) zero v = v ∷ ss
set_slot (s ∷ ss) (suc i) v = s ∷ set_slot ss i v

-- `ReleaseFileDescriptor`
unfoldable pub release_file_descriptor : ℕ → List Slot → Option (List Slot)
release_file_descriptor fd slots = do
  slot ← get_elem? slots fd
  some (set_slot slots fd (record slot { freefd = 0 }))

-- The constructor and the end of `Setup`, with the file system ready.
unfoldable pub new_slots : List Slot
new_slots = replicate fd_limit (record { freefd = 0; path = []; offset = 0; flags = 0; fh = none })

module _ (P : Platform) where
  -- A handler called on the file system of the wrapper.
  abbrev pub on_fs :
      {A : Type 0} → (TableFs P → Option (A × TableFs P)) → FsWrapper P → Option (A × FsWrapper P)
  on_fs handler w = do (ret, t) ← handler w.fs; some (ret, record w { fs = t })

  abbrev pub is_zero : ℤ → Bool
  is_zero (pos n) = nat_beq n 0
  is_zero (negsuc n) = false

  -- `Stat(path, buf)`
  unfoldable pub stat : List ℕ → FsWrapper P → Option (ℤ × Option Stat × FsWrapper P)
  stat path w = do (ret, buf, t) ← get_attr P path w.fs; some (ret, buf, record w { fs = t })

  -- `Mknod`: an entry that is there already is an error; the result is that of the last `Stat`.
  unfoldable pub mknod : List ℕ → ℕ → ℕ → FsWrapper P → Option (ℤ × FsWrapper P)
  mknod path mode dev w = do
    (ret, buf, v) ← stat path w
    elim (is_zero ret) [
      | true ↦ some (negsuc 0, record v { fs = set_errno P 17 v.fs })
      | false ↦ do
        (made, u) ← on_fs (make_node P path mode dev) v
        (ret', buf', x) ← stat path u
        some (ret', x)
    ]

  -- `Mkdir`
  unfoldable pub mkdir : List ℕ → ℕ → FsWrapper P → Option (ℤ × FsWrapper P)
  mkdir path mode w = do
    (ret, buf, v) ← stat path w
    elim (is_zero ret) [
      | true ↦ some (negsuc 0, v)
      | false ↦ do
        (made, u) ← on_fs (make_dir P path mode) v
        (ret', buf', x) ← stat path u
        some (ret', x)
    ]

  -- `Utime`
  unfoldable pub utime : List ℕ → ℕ → ℕ → FsWrapper P → Option (ℤ × FsWrapper P)
  utime path actime modtime w = on_fs (update_timens P path actime modtime) w

  -- `Chmod`: the result is that of the last `Stat`.
  unfoldable pub chmod_path : List ℕ → ℕ → FsWrapper P → Option (ℤ × FsWrapper P)
  chmod_path path mode w = do
    (ret, buf, v) ← stat path w
    (changed, u) ← on_fs (chmod P path mode) v
    (ret', buf', x) ← stat path u
    some (ret', x)

  -- `Open(path, flags)`
  unfoldable pub open_path : List ℕ → ℕ → FsWrapper P → Option (ℤ × FsWrapper P)
  open_path path flags w =
      let (free, taken) = get_file_descriptor w.slots in
      do
        fd ← free
        slot ← get_elem? taken fd
        (ret, fh, t) ← open_file P path flags w.fs
        let opened = record slot {
          path = path;
          offset = 0;
          flags = flags;
          fh = if is_zero ret then fh else slot.fh;
        }
        let slots = set_slot taken fd opened
        elim (is_zero ret) [
          | true ↦ some (pos fd, record { fs = t; slots = slots })
          | false ↦ do
            freed ← release_file_descriptor fd slots
            some (negsuc 0, record { fs = t; slots = freed })
        ]

  -- `Seek(fd, offset)`
  unfoldable pub seek : ℕ → ℕ → FsWrapper P → Option (ℤ × FsWrapper P)
  seek fd offset w = do
    slot ← get_elem? w.slots fd
    some (pos 0, record w { slots = set_slot w.slots fd (record slot { offset = offset }) })

  -- `if (ret >= 0) offsets[fd] += ret;`
  abbrev pub advance : ℤ → ℕ → ℕ
  advance (pos n) offset = offset + n
  advance (negsuc n) offset = offset

  -- `Write(fd, buf, size)`
  unfoldable pub write : ℕ → List ℕ → FsWrapper P → Option (ℤ × FsWrapper P)
  write fd buf w = do
    slot ← get_elem? w.slots fd
    fh ← slot.fh
    (ret, fh', t) ← write_file P buf slot.offset slot.flags fh w.fs
    let slot' = record slot { offset = advance ret slot.offset; fh = some fh' }
    some (ret, record { fs = t; slots = set_slot w.slots fd slot' })

  -- `Read(fd, buf, size)`
  unfoldable pub read : ℕ → ℕ → FsWrapper P → Option (ℤ × List ℕ × FsWrapper P)
  read fd size w = do
    slot ← get_elem? w.slots fd
    fh ← slot.fh
    (ret, buf, fh', t) ← read_file P size slot.offset fh w.fs
    let slot' = record slot { offset = advance ret slot.offset; fh = some fh' }
    some (ret, buf, record { fs = t; slots = set_slot w.slots fd slot' })

  -- `Close(fd)`: the file handle is deleted, and `fi->fh` still points to it.
  unfoldable pub close : ℕ → FsWrapper P → Option (ℤ × FsWrapper P)
  close fd w = do
    slot ← get_elem? w.slots fd
    fh ← slot.fh
    (ret, t) ← release_file P fh w.fs
    slots ← release_file_descriptor fd (set_slot w.slots fd (record slot { fh = none }))
    some (ret, record { fs = t; slots = slots })

  -- `ret != 0` is reported as -1
  abbrev pub zero_or_minus_one : ℤ → ℤ
  zero_or_minus_one ret = if is_zero ret then pos 0 else negsuc 0

  -- `Rename`
  unfoldable pub rename_path : List ℕ → List ℕ → FsWrapper P → Option (ℤ × FsWrapper P)
  rename_path old_path new_path w = do
    (ret, v) ← on_fs (rename P old_path new_path) w
    some (zero_or_minus_one ret, v)

  -- `Unlink`
  unfoldable pub unlink_path : List ℕ → FsWrapper P → Option (ℤ × FsWrapper P)
  unlink_path path w = do (ret, v) ← on_fs (unlink P path) w; some (zero_or_minus_one ret, v)
