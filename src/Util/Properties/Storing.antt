-- ===== src/Util/Properties/Storing.antt =====
-- The settings read back: a number after `setPropertyInt`, and a file after `store`.
use tablefs.Base.{
  ℕ, zero, suc, ◌+◌, ◌≤◌, ◌<◌, ◌≡◌, ◌≢◌, refl, sym, ap, ◌∙◌, Option, none, some, List, [], ◌∷◌,
  ◌++◌, arith, length, length-append, list_eq, ◌==◌, if◌then◌else◌,
}
use tablefs.Base.Maps
use tablefs.Base.Maps.{lookup-insert}
use tablefs.Base.Int.{ℤ}
use tablefs.Value.{c_string}
use tablefs.Util.Text.{print_int}
use tablefs.Util.Text.Decimal.{atoi-print_int}
use tablefs.Util.Properties.{
  Properties, set_property, set_property_int, get_property_int, newline, getline, split_line,
  load_line, load_loop, load, store,
}

-- The number that getPropertyInt gives after setPropertyInt is the one that was set, for that
-- name, and what it gave before for any other.
pub get_property_int-set_property_int :
    (key j : List ℕ) (n default_val : ℤ) (plist : Properties)
    → get_property_int j default_val (set_property_int key n plist)
      ≡ (if key == j then n else get_property_int j default_val plist)
unfolding get_property_int set_property_int set_property
get_property_int-set_property_int key j n default_val plist =
    ground (arith, lookup-insert key j (print_int n) plist, atoi-print_int n)

-- Bytes that a line may hold: no zero byte, and no end of a line.
abbrev pub IsText : List ℕ → Type 0
IsText [] = Unit
IsText (b ∷ bs) = (0 < b) × (b ≢ newline) × IsText bs

-- A name has no '=' besides.
abbrev pub IsName : List ℕ → Type 0
IsName [] = Unit
IsName (b ∷ bs) = (b ≢ b'=') × IsName bs

-- Each line fits the buffer, and no name comes twice.
abbrev pub IsStorable : Properties → Type 0
IsStorable [] = Unit
IsStorable ((key, value) ∷ rest) =
    IsText key
    × IsName key
    × IsText value
    × (length key + length value < 1023)
    × (Maps.lookup key rest ≡ none)
    × IsStorable rest

getline-append :
    (n : ℕ) (line rest : List ℕ)
    → IsText line
    → length line ≤ n
    → getline n (line ++ newline ∷ rest) ≡ (line, some rest)
unfolding getline
getline-append zero [] rest t h = refl
getline-append (suc n) [] rest t h = refl
getline-append zero (b ∷ line) rest t h = absurd (omega arith)
getline-append (suc n) (b ∷ line) rest t h =
    ground (arith, getline-append n line rest t.2 (omega arith))

c_string_text : (s : List ℕ) → IsText s → c_string s ≡ s
unfolding c_string
c_string_text [] t = refl
c_string_text (b ∷ s) t = ground (arith, c_string_text s t.2)

split_line-name :
    (key value : List ℕ) → IsName key → split_line (key ++ b'=' ∷ value) ≡ some (key, value)
unfolding split_line
split_line-name [] value h = refl
split_line-name (b ∷ key) value h = ground (arith, split_line-name key value h.1)

IsText-append : (s t : List ℕ) → IsText s → IsText t → IsText (s ++ b'=' ∷ t)
IsText-append [] t a b = (omega arith, omega arith, b)
IsText-append (c ∷ s) t a b = (a.0, a.1, IsText-append s t a.2 b)

append_assoc : (s t u : List ℕ) → (s ++ b'=' ∷ t) ++ u ≡ s ++ b'=' ∷ (t ++ u)
append_assoc [] t u = refl
append_assoc (c ∷ s) t u = ap (◌∷◌ c) (append_assoc s t u)

load_line-pair :
    (key value : List ℕ) (plist : Properties)
    → IsText key
    → IsName key
    → IsText value
    → load_line (key ++ b'=' ∷ value) plist ≡ set_property key value plist
unfolding load_line
load_line-pair key value plist tk nk tv = ground (
  arith,
  c_string_text (key ++ b'=' ∷ value) (IsText-append key value tk tv),
  split_line-name key value nk,
)

load_loop_end : (fuel : ℕ) (plist : Properties) → load_loop (suc fuel) [] plist ≡ plist
unfolding load_loop getline load_line c_string split_line
load_loop_end fuel plist = refl

lookup-set :
    (key j value : List ℕ) (plist : Properties)
    → Maps.lookup j (set_property key value plist)
      ≡ (if key == j then some value else Maps.lookup j plist)
unfolding set_property
lookup-set key j value plist = lookup-insert key j value plist

-- One round of the loop of `load`, on a line that `store` wrote.
load_loop-line :
    (fuel : ℕ) (key value rest : List ℕ) (plist : Properties)
    → IsText key
    → IsName key
    → IsText value
    → length key + length value < 1023
    → load_loop (suc fuel) (key ++ b'=' ∷ (value ++ newline ∷ rest)) plist
      ≡ load_loop fuel rest (set_property key value plist)
unfolding load_loop
load_loop-line fuel key value rest plist tk nk tv short =
    let line = key ++ b'=' ∷ value in
    let is_text = IsText-append key value tk tv in
    let got : getline 1023 (key ++ b'=' ∷ (value ++ newline ∷ rest)) ≡ (line, some rest) =
      ap (getline 1023) (sym (append_assoc key value (newline ∷ rest)))
      ∙ getline-append 1023 line rest is_text (omega (arith, length-append key (b'=' ∷ value))) in
    ground (arith, got, ap (load_loop fuel rest) (load_line-pair key value plist tk nk tv))

abbrev pub or_else : Option (List ℕ) → Option (List ℕ) → Option (List ℕ)
or_else none o = o
or_else (some value) o = some value

load_loop-store :
    (fuel : ℕ) (plist old : Properties) (j : List ℕ)
    → IsStorable plist
    → length (store plist) < fuel
    → Maps.lookup j (load_loop fuel (store plist) old)
      ≡ or_else (Maps.lookup j plist) (Maps.lookup j old)
unfolding store Maps.lookup
load_loop-store zero plist old j h f = absurd (omega arith)
load_loop-store (suc fuel) [] old j h f = ap (Maps.lookup j) (load_loop_end fuel old)
load_loop-store (suc fuel) ((key, value) ∷ rest) old j h f =
    let shorter : length (store rest) < fuel = omega (
      arith,
      length-append key (b'=' ∷ (value ++ newline ∷ store rest)),
      length-append value (newline ∷ store rest),
    ) in
    let round = load_loop-line fuel key value (store rest) old h.0 h.1 h.2 h.3 in
    let ih = load_loop-store fuel rest (set_property key value old) j h.5 shorter in
    let put : Maps.lookup j (set_property key value old)
        ≡ (if key == j then some value else Maps.lookup j old) =
      lookup-set key j value old in
    ap (Maps.lookup j) round ∙ ih ∙ ground (arith, put, list_eq.beq_iff key j, h.4)

-- What load reads into settings from a file that store wrote: the stored value for each stored
-- name, and what was there before for any other name. No name is stored twice, names and values
-- hold no zero byte and no end of a line, a name holds no =, and each line is shorter than 1024.
pub load-store :
    (plist old : Properties) (j : List ℕ)
    → IsStorable plist
    → Maps.lookup j (load (store plist) old) ≡ or_else (Maps.lookup j plist) (Maps.lookup j old)
unfolding load
load-store plist old j h = load_loop-store (suc (length (store plist))) plist old j h (omega arith)
