-- ===== src/Tfs/Mounting.antt =====
-- fs/tfs_state.cpp: FileSystemState::Setup and Destroy, which keep the highest number in the file
-- root.dat. The paths that Setup resolves and the options that it passes to LevelDB are left out:
-- whether LevelDB opens is an argument. The test of the directories compares the result of access
-- with > 0, which never holds, and so has no effect.
use tablefs.Base.{ℕ, ◌%◌, Bool, Option, none, some, List, [], ◌∷◌, ◌++◌, ◌>>=◌, if◌then◌else◌}
use tablefs.Base.Int.{ℤ, pos, negsuc}
use tablefs.Key.{u32}
use tablefs.Platform.{Platform}
use tablefs.Tfs.{FileSystemState}
use tablefs.Util.Text.{print_int, read_digits, skip_spaces, is_digit}
use tablefs.Util.Properties.{Properties, get_property_int}

-- root.dat: its bytes where it exists, and whether it can be opened for writing.
pub record RootFile : Type 0 where
  pub content : Option (List ℕ)
  pub writable : Bool

-- What `fscanf` reads: a number, no number, or the end of the file.
pub data Scan : Type 0 where
  scanned : ℕ → Scan
  mismatch : Scan
  at_end : Scan

abbrev pub scan_first : List ℕ → Scan
scan_first [] = at_end
scan_first (c ∷ s) = if is_digit c then scanned (read_digits 0 (c ∷ s)).0 else mismatch

-- `%u` of `fscanf`, for numbers without a sign that an `unsigned` holds
unfoldable pub scan_unsigned : List ℕ → Scan
scan_unsigned s = scan_first (skip_spaces s)

-- `"%u\n"` of `fprintf`, which prints the low half of a number of 64 bits
unfoldable pub unsigned_line : ℕ → List ℕ
unsigned_line n = print_int (pos (n % u32)) ++ 10 ∷ []

abbrev pub threshold_name : List ℕ
threshold_name = b't' ∷ b'h' ∷ b'r' ∷ b'e' ∷ b's' ∷ b'h' ∷ b'o' ∷ b'l' ∷ b'd' ∷ []

module _ (P : Platform) where
  open P use {disk_mkdir}

  -- The end of `Setup`, which drops the result of `mkdir`. `none` is the write to a file that could not be opened. A number is
  -- stored in the low half of the field, whose high half is 0.
  unfoldable pub load_number : RootFile → FileSystemState P → Option (RootFile × FileSystemState P)
  load_number root s = elim root.content [
    | none ↦
        if root.writable
        then some (
          record root { content = some (unsigned_line 0) },
          record s { max_inode_num = 0; disk = (disk_mkdir 0 s.disk).1 },
        )
        else none
    | some bytes ↦ elim (scan_unsigned bytes) [
      | scanned n ↦ some (root, record s { max_inode_num = n })
      | mismatch ↦ some (root, record s { max_inode_num = 0 })
      | at_end ↦ some (root, s)
    ]
  ]

  -- `FileSystemState::FileSystemState`, over a data directory
  unfoldable pub new_state : Platform.Disk P → FileSystemState P
  new_state disk = record { max_inode_num = 0; threshold_ = 0; disk = disk }

  -- `Setup(prop)`. A threshold below 0 has no model: it is none.
  unfoldable pub setup :
      Properties → Bool → RootFile → FileSystemState P → Option (ℤ × RootFile × FileSystemState P)
  setup prop opened root s = elim (get_property_int threshold_name (pos 4096) prop) [
    | negsuc n ↦ none
    | pos threshold ↦
        let t = record s { threshold_ = threshold } in
        if opened
        then (do (after, u) ← load_number root t; some (pos 0, after, u))
        else some (negsuc 0, root, t)
  ]

  -- `Destroy`
  unfoldable pub destroy : FileSystemState P → RootFile → RootFile
  destroy s root =
      if root.writable then record root { content = some (unsigned_line s.max_inode_num) } else root
