-- ===== src/Util/TraceLoader.antt =====
-- util/traceloader.h and util/traceloader.cpp: TraceLoader, the paths of a trace file by number.
-- The strings that AddEntry puts into memory of the allocator are values here. `none` is a use of a
-- buffer or an array out of its range, or of an entry that was never set; the end of the process in
-- the allocator; and a request for which the locked pages have no room: from there on the pieces of
-- memory may overlap, and what the strings hold is not followed.
pub mod Loading
use tablefs.Base.{
  ℕ, zero, suc, ◌+◌, ◌-◌, ◌*◌, ◌%◌, ◌&&◌, Option, none, some, List, [], ◌∷◌, ◌>>=◌, if◌then◌else◌,
  nat_beq, ltb, length, take, get_elem?,
}
use tablefs.Base.Int.{ℤ, pos, negsuc}
use tablefs.Key.{u64}
use tablefs.Value.{c_string}
use tablefs.Util.Allocator.{Allocator, allocate}
use tablefs.Util.Text.{skip_spaces, read_digits, is_digit}

-- The arrays `paths` and `filetypes` as one list of what has been set.
pub record TraceLoader : Type 0 where
  pub entries : List (List ℕ × ℕ)
  pub num_paths : ℕ
  pub num_dir_paths : ℕ
  pub num_file_paths : ℕ

-- `%ld` of `fscanf`, for numbers without a sign that a `long` holds
abbrev pub scan_digits : List ℕ → Option (ℕ × List ℕ)
scan_digits [] = none
scan_digits (c ∷ s) = if is_digit c then some (read_digits 0 (c ∷ s)) else none

unfoldable pub scan_long : List ℕ → Option (ℕ × List ℕ)
scan_long s = scan_digits (skip_spaces s)

-- The loop over `fgetc`: the bytes before the end of the line and the file behind it, or none
-- where the file ends first. A byte 255 is the same `char` as EOF.
unfoldable pub read_line : List ℕ → List ℕ × Option (List ℕ)
read_line [] = ([], none)
read_line (c ∷ s) =
    let (line, rest) = read_line s in
    if nat_beq c 10 then ([], some s) else if nat_beq c 255 then ([], none) else (c ∷ line, rest)

-- A line holds a path, one byte, and the type of the file. The byte is overwritten by a zero.
unfoldable pub load_entry : List ℕ → Option (List ℕ × ℕ)
load_entry line = if ltb (length line) 2 then none else (do
  filetype ← get_elem? line (length line - 1)
  some (c_string (take (length line - 2) line), filetype))

-- `allocator_->Allocate(bytes)`, for memory that overlaps no other
unfoldable pub place : ℕ → Allocator → Option Allocator
place bytes a = do
  (address, b) ← allocate bytes a
  if a.flag_using_lock_memory && ltb (length a.blocks) (length b.blocks) then none else some b

-- The loop over the lines, each with its call of `AddEntry`; the lines fill `char pathname[4096]`.
unfoldable pub load_paths : ℕ → List ℕ → Allocator → Option (List (List ℕ × ℕ) × Allocator)
load_paths zero file a = some ([], a)
load_paths (suc n) file a =
    let (line, rest) = read_line file in
    if ltb (length line) 4096
    then elim rest [
      | none ↦ some ([], a)
      | some behind ↦ do
        entry ← load_entry line
        b ← place (length line + 2) a
        (entries, c) ← load_paths n behind b
        some (entry ∷ entries, c)
    ]
    else none

-- `LoadTrace`, with the bytes of the file where it can be opened. The end of the line in the format
-- passes over any blanks.
unfoldable pub load_trace :
    Option (List ℕ) → Allocator → TraceLoader → Option (TraceLoader × Allocator)
load_trace file a t = elim file [
  | none ↦ some (t, a)
  | some bytes ↦ elim (scan_long bytes) [
    | none ↦ some (t, a)
    | some (num_paths, s) ↦ elim (scan_long s) [
      | none ↦ some (record t { num_paths = num_paths }, a)
      | some (num_file_paths, behind) ↦ do
        b ← place ((num_paths * 8) % u64) a
        c ← place num_paths b
        (entries, d) ← load_paths num_paths (skip_spaces behind) c
        some (
          record {
            entries = entries;
            num_paths = num_paths;
            num_dir_paths = (num_paths + u64 - num_file_paths) % u64;
            num_file_paths = num_file_paths;
          },
          d,
        )
    ]
  ]
]

-- What stands at an index of the arrays.
abbrev pub entry_at : ℕ → TraceLoader → Option (Option (List ℕ × ℕ))
entry_at i t = do entry ← get_elem? t.entries i; some (some entry)

-- `GetPath(index, filetype)`, where an index below 0 becomes one past the end; NULL is `some none`
unfoldable pub get_path : ℤ → TraceLoader → Option (Option (List ℕ × ℕ))
get_path (pos i) t = if ltb i t.num_paths then entry_at i t else some none
get_path (negsuc i) t = some none

-- `GetDirPath`
unfoldable pub get_dir_path : ℤ → TraceLoader → Option (Option (List ℕ × ℕ))
get_dir_path (pos i) t = if ltb i t.num_dir_paths then entry_at i t else some none
get_dir_path (negsuc i) t = some none

-- `GetFilePath`, where `(int) num_dir_paths` is the number of directories below 2 ^ 31
unfoldable pub get_file_path : ℤ → TraceLoader → Option (Option (List ℕ × ℕ))
get_file_path (pos i) t =
    if ltb i t.num_file_paths then entry_at (i + t.num_dir_paths) t else some none
get_file_path (negsuc i) t = some none
