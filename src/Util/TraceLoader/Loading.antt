-- ===== src/Util/TraceLoader/Loading.antt =====
-- util/traceloader.cpp: LoadTrace on the files that it is made for.
use tablefs.Base.{
  ℕ, suc, ◌+◌, ◌-◌, ◌<◌, ◌≤◌, ◌≡◌, refl, ap, ◌∙◌, true, false, some, List, [], ◌∷◌, ◌++◌, arith,
  nat_beq, length, get_elem?, length-append, take-append, Bool-cases, inl, inr,
}
use tablefs.Base.Int.{pos}
use tablefs.Value.{c_string}
use tablefs.Util.Text.{print_int}
use tablefs.Util.Allocator.{Allocator, memory_page_size, allocate, own_block, cut}
use tablefs.Util.TraceLoader.{TraceLoader, read_line, load_entry, load_paths, place}

-- Bytes that neither end a line nor a string.
unfoldable pub IsPlain : List ℕ → Type 0
IsPlain [] = Unit
IsPlain (c ∷ s) = (0 < c) × (c < 255) × (nat_beq c 10 ≡ false) × IsPlain s

-- The line of an entry: its path and its type with a blank between them.
abbrev pub entry_line : List ℕ × ℕ → List ℕ
entry_line (path, filetype) = path ++ 32 ∷ filetype ∷ []

unfoldable pub AreEntries : List (List ℕ × ℕ) → Type 0
AreEntries [] = Unit
AreEntries ((path, filetype) ∷ es) =
    (get_elem? path 0 ≡ some b'/')
    × IsPlain path
    × IsPlain (filetype ∷ [])
    × (length path + 2 < 4096)
    × AreEntries es

abbrev pub trace_lines : List (List ℕ × ℕ) → List ℕ
trace_lines [] = []
trace_lines (e ∷ es) = entry_line e ++ 10 ∷ trace_lines es

IsPlain-append : (s t : List ℕ) → IsPlain s → IsPlain t → IsPlain (s ++ t)
unfolding IsPlain
IsPlain-append [] t h k = k
IsPlain-append (c ∷ s) t h k = (h.0, h.1, h.2, IsPlain-append s t h.3 k)

read_line-append :
    (line rest : List ℕ) → IsPlain line → read_line (line ++ 10 ∷ rest) ≡ (line, some rest)
unfolding read_line IsPlain
read_line-append [] rest h = refl
read_line-append (c ∷ line) rest h = ground (arith, h.1, h.2, read_line-append line rest h.3)

c_string_plain : (s : List ℕ) → IsPlain s → c_string s ≡ s
unfolding c_string IsPlain
c_string_plain [] h = refl
c_string_plain (c ∷ s) h = ground (arith, h.0, c_string_plain s h.3)

get_elem?_last : (s : List ℕ) (a b : ℕ) → get_elem? (s ++ a ∷ b ∷ []) (suc (length s)) ≡ some b
get_elem?_last [] a b = refl
get_elem?_last (c ∷ s) a b = get_elem?_last s a b

load_entry-entry_line :
    (path : List ℕ) (filetype : ℕ)
    → IsPlain path
    → load_entry (entry_line (path, filetype)) ≡ some (path, filetype)
unfolding load_entry
load_entry-entry_line path filetype plain =
    let long = length-append path (32 ∷ filetype ∷ []) in
    let last : length (entry_line (path, filetype)) - 1 ≡ suc (length path) = omega (arith, long) in
    let cut =
      take-append (length (entry_line (path, filetype)) - 2) path (32 ∷ filetype ∷ [])
        (omega (arith, long)) in
    ground (arith, long, last, cut, get_elem?_last path 32 filetype, c_string_plain path plain)

-- The memory for the strings of the entries.
abbrev pub string_bytes : List (List ℕ × ℕ) → ℕ
string_bytes [] = 0
string_bytes ((path, filetype) ∷ es) = (length path + 4) + string_bytes es

-- Where memory is locked, the current page has room for `n` bytes.
abbrev pub HasRoom : ℕ → Allocator → Type 0
HasRoom n a = a.flag_using_lock_memory ≡ true → n ≤ a.remaining_bytes

place_lem :
    (n more : ℕ) (a : Allocator)
    → n ≤ memory_page_size
    → HasRoom (n + more) a
    → (b : Allocator) × (place n a ≡ some b) × HasRoom more b
unfolding place allocate own_block cut
place_lem n more a small room = elim (Bool-cases a.flag_using_lock_memory) [
  | inl locked ↦
      let fits = room locked in
      (
        record a { remaining_bytes = a.remaining_bytes - n },
        ground (arith, locked, small, fits),
        λ _. omega (arith, fits),
      )
  | inr not_locked ↦ (
    record a { blocks = a.blocks ++ n ∷ [] },
    ground (arith, not_locked, small),
    λ locked. absurd (cc (locked, not_locked)),
  )
]

pub load_paths-trace_lines :
    (es : List (List ℕ × ℕ)) (a : Allocator)
    → AreEntries es
    → HasRoom (string_bytes es) a
    → (b : Allocator) × (load_paths (length es) (trace_lines es) a ≡ some (es, b))
unfolding load_paths AreEntries IsPlain
load_paths-trace_lines [] a h room = (a, refl)
load_paths-trace_lines ((path, filetype) ∷ es) a h room =
    let (b, placed, room') =
      place_lem (length path + 4) (string_bytes es) a (omega (arith, h.3)) room in
    let (c, loaded) = load_paths-trace_lines es b h.4 room' in
    let line = entry_line (path, filetype) in
    let plain : IsPlain line =
      IsPlain-append path (32 ∷ filetype ∷ []) h.1 (omega arith, omega arith, ground arith, h.2) in
    let long : length line + 2 ≡ length path + 4 =
      omega (arith, length-append path (32 ∷ filetype ∷ [])) in
    let placed' : place (length line + 2) a ≡ some b = ap (λ (n : ℕ). place n a) long ∙ placed in
    (
      c,
      ground (
        arith,
        placed',
        read_line-append line (trace_lines es) plain,
        length-append path (32 ∷ filetype ∷ []),
        h.3,
        load_entry-entry_line path filetype h.1,
        loaded,
      ),
    )

-- A trace file: the number of paths, that of the paths of files, which stand last, and the lines.
abbrev pub trace : ℕ → List (List ℕ × ℕ) → List ℕ
trace files es = print_int (pos (length es)) ++ 32 ∷ (print_int (pos files) ++ 10 ∷ trace_lines es)
