-- ===== src/Util/Properties.antt =====
-- util/properties.cpp: the settings, from names to texts. `store` writes them in the order in which
-- the map holds them, here that of their first insertion. `none` is the use of an argument past
-- the end of the command line.
pub mod Storing
use tablefs.Base.{
  ℕ, zero, suc, Bool, true, false, Option, none, some, List, [], ◌∷◌, ◌++◌, if◌then◌else◌, nat_beq,
  ltb, list_eq, list_beq, length,
}
use tablefs.Base.Maps
use tablefs.Base.Int.{ℤ}
use tablefs.Value.{c_string}
use tablefs.Util.Text.{print_int, atoi}

abbrev pub Properties : Type 0
Properties = List (List ℕ × List ℕ)

-- `setProperty`
unfoldable pub set_property : List ℕ → List ℕ → Properties → Properties
unfolding Maps.insert
set_property key value plist = Maps.insert key value plist

-- `setPropertyInt`
unfoldable pub set_property_int : List ℕ → ℤ → Properties → Properties
set_property_int key value plist = set_property key (print_int value) plist

-- `getProperty(key, defaultVal)`
unfoldable pub get_property_or : List ℕ → List ℕ → Properties → List ℕ
unfolding Maps.lookup
get_property_or key default_val plist = elim (Maps.lookup key plist) [
  | some value ↦ value
  | none ↦ default_val
]

-- `getProperty(key)`
unfoldable pub get_property : List ℕ → Properties → List ℕ
get_property key plist = get_property_or key (b'/' ∷ []) plist

-- `getPropertyInt`; a zero byte ends what `atoi` reads, as any byte does that is no digit.
unfoldable pub get_property_int : List ℕ → ℤ → Properties → ℤ
unfolding Maps.lookup
get_property_int key default_val plist = elim (Maps.lookup key plist) [
  | some value ↦ atoi value
  | none ↦ default_val
]

abbrev pub true_text : List ℕ
true_text = b't' ∷ b'r' ∷ b'u' ∷ b'e' ∷ []

-- `getPropertyBool`
unfoldable pub get_property_bool : List ℕ → Bool → Properties → Bool
unfolding Maps.lookup
get_property_bool key default_val plist = elim (Maps.lookup key plist) [
  | some value ↦ list_beq value true_text
  | none ↦ default_val
]

abbrev pub newline : ℕ
newline = 10

-- `is.getline(line, n + 1)`: the line, and what is left to read where the stream stays good. It
-- does not where the file ends, or where the line is longer than the buffer.
unfoldable pub getline : ℕ → List ℕ → List ℕ × Option (List ℕ)
getline n [] = ([], none)
getline zero (b ∷ bs) = if nat_beq b newline then ([], some bs) else ([], none)
getline (suc n) (b ∷ bs) =
    let (line, next) = getline n bs in if nat_beq b newline then ([], some bs) else (b ∷ line, next)

-- The text before the first '=', and the text behind it.
unfoldable pub split_line : List ℕ → Option (List ℕ × List ℕ)
split_line [] = none
split_line (b ∷ bs) =
    let rest = split_line bs in
    if nat_beq b b'='
    then some ([], bs)
    else elim rest [ none ↦ none | some (key, value) ↦ some (b ∷ key, value) ]

-- What `load` does with one line.
unfoldable pub load_line : List ℕ → Properties → Properties
load_line line plist = elim (split_line (c_string line)) [
  | none ↦ plist
  | some (key, value) ↦ set_property key value plist
]

-- The loop of `load`, on fuel.
unfoldable pub load_loop : ℕ → List ℕ → Properties → Properties
load_loop zero file plist = plist
load_loop (suc fuel) file plist =
    let (line, next) = getline 1023 file in
    let plist' = load_line line plist in
    elim next [ none ↦ plist' | some rest ↦ load_loop fuel rest plist' ]

-- `load(filename)`, for the bytes of the file; each round but the last takes one byte at least.
unfoldable pub load : List ℕ → Properties → Properties
load file plist = load_loop (suc (length file)) file plist

-- `store(filename)`: the bytes written
unfoldable pub store : Properties → List ℕ
store [] = []
store ((key, value) ∷ rest) = key ++ b'=' ∷ (value ++ newline ∷ store rest)

-- `argv[i][0] == '-'`
unfoldable pub is_option : List ℕ → Bool
is_option [] = false
is_option (c ∷ arg) = nat_beq c b'-'

abbrev pub name_of : List ℕ → List ℕ
name_of [] = []
name_of (c ∷ arg) = arg

-- `parseOpts`, for the arguments behind the name of the program
unfoldable pub parse_opts : List (List ℕ) → Properties → Option Properties
parse_opts [] plist = some plist
parse_opts (arg ∷ []) plist = if is_option arg then none else some plist
parse_opts (arg ∷ value ∷ args) plist = elim (is_option arg) [
  | true ↦ parse_opts args (set_property (name_of arg) value plist)
  | false ↦ parse_opts (value ∷ args) plist
]
