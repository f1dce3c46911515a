-- ===== src/Bench/Names.antt =====
-- fsbench.cpp: Run, and the benchmarks that its setting names.
use tablefs.Base.{
  ℕ, zero, suc, ◌+◌, ◌-◌, Bool, true, false, Option, none, some, List, [], ◌∷◌, ◌++◌, if◌then◌else◌,
  nat_beq, ltb, ◌&&◌, ◌==◌, length, take, drop, list_eq,
}

-- The methods by their names
pub data Method : Type 0 where
  metadata_create : Method
  metadata_create_with_compact : Method
  metadata_query_test : Method
  onedir_create : Method
  onedir_query_test : Method
  small_file_create : Method
  small_file_query_test : Method
  scan_query_test : Method
  lsstat_query_test : Method
  scanfile_query_test : Method
  rename_query_test : Method
  delete_query_test : Method

abbrev pub comma : ℕ
comma = b','

abbrev metadatacreate : List ℕ
metadatacreate =
    b'm' ∷ b'e' ∷ b't' ∷ b'a' ∷ b'd' ∷ b'a' ∷ b't' ∷ b'a' ∷ b'c' ∷ b'r' ∷ b'e' ∷ b'a' ∷ b't' ∷ b'e'
    ∷ []

abbrev metadatacreatecompact : List ℕ
metadatacreatecompact =
    b'm' ∷ b'e' ∷ b't' ∷ b'a' ∷ b'd' ∷ b'a' ∷ b't' ∷ b'a' ∷ b'c' ∷ b'r' ∷ b'e' ∷ b'a' ∷ b't' ∷ b'e'
    ∷ b'c' ∷ b'o' ∷ b'm' ∷ b'p' ∷ b'a' ∷ b'c' ∷ b't' ∷ []

abbrev metadataquery : List ℕ
metadataquery =
    b'm' ∷ b'e' ∷ b't' ∷ b'a' ∷ b'd' ∷ b'a' ∷ b't' ∷ b'a' ∷ b'q' ∷ b'u' ∷ b'e' ∷ b'r' ∷ b'y' ∷ []

abbrev onedircreate : List ℕ
onedircreate =
    b'o' ∷ b'n' ∷ b'e' ∷ b'd' ∷ b'i' ∷ b'r' ∷ b'c' ∷ b'r' ∷ b'e' ∷ b'a' ∷ b't' ∷ b'e' ∷ []

abbrev onedirquery : List ℕ
onedirquery = b'o' ∷ b'n' ∷ b'e' ∷ b'd' ∷ b'i' ∷ b'r' ∷ b'q' ∷ b'u' ∷ b'e' ∷ b'r' ∷ b'y' ∷ []

abbrev smallfilecreate : List ℕ
smallfilecreate =
    b's' ∷ b'm' ∷ b'a' ∷ b'l' ∷ b'l' ∷ b'f' ∷ b'i' ∷ b'l' ∷ b'e' ∷ b'c' ∷ b'r' ∷ b'e' ∷ b'a' ∷ b't'
    ∷ b'e' ∷ []

abbrev smallfilequery : List ℕ
smallfilequery =
    b's' ∷ b'm' ∷ b'a' ∷ b'l' ∷ b'l' ∷ b'f' ∷ b'i' ∷ b'l' ∷ b'e' ∷ b'q' ∷ b'u' ∷ b'e' ∷ b'r' ∷ b'y'
    ∷ []

abbrev scanquery : List ℕ
scanquery = b's' ∷ b'c' ∷ b'a' ∷ b'n' ∷ b'q' ∷ b'u' ∷ b'e' ∷ b'r' ∷ b'y' ∷ []

abbrev lsstatquery : List ℕ
lsstatquery = b'l' ∷ b's' ∷ b's' ∷ b't' ∷ b'a' ∷ b't' ∷ b'q' ∷ b'u' ∷ b'e' ∷ b'r' ∷ b'y' ∷ []

abbrev scanfilequery : List ℕ
scanfilequery =
    b's' ∷ b'c' ∷ b'a' ∷ b'n' ∷ b'f' ∷ b'i' ∷ b'l' ∷ b'e' ∷ b'q' ∷ b'u' ∷ b'e' ∷ b'r' ∷ b'y' ∷ []

abbrev renamequery : List ℕ
renamequery = b'r' ∷ b'e' ∷ b'n' ∷ b'a' ∷ b'm' ∷ b'e' ∷ b'q' ∷ b'u' ∷ b'e' ∷ b'r' ∷ b'y' ∷ []

abbrev deletequery : List ℕ
deletequery = b'd' ∷ b'e' ∷ b'l' ∷ b'e' ∷ b't' ∷ b'e' ∷ b'q' ∷ b'u' ∷ b'e' ∷ b'r' ∷ b'y' ∷ []

-- The method for a name; none stands for "Cannot find the benchmark".
unfoldable pub method_of : List ℕ → Option Method
method_of bench =
    if bench == metadatacreate
    then some Method.metadata_create
    else if bench == metadatacreatecompact
    then some Method.metadata_create_with_compact
    else if bench == metadataquery
    then some Method.metadata_query_test
    else if bench == onedircreate
    then some Method.onedir_create
    else if bench == onedirquery
    then some Method.onedir_query_test
    else if bench == smallfilecreate
    then some Method.small_file_create
    else if bench == smallfilequery
    then some Method.small_file_query_test
    else if bench == scanquery
    then some Method.scan_query_test
    else if bench == lsstatquery
    then some Method.lsstat_query_test
    else if bench == scanfilequery
    then some Method.scanfile_query_test
    else if bench == renamequery
    then some Method.rename_query_test
    else if bench == deletequery
    then some Method.delete_query_test
    else none

-- Where a byte first stands in a string
unfoldable pub index_of : ℕ → List ℕ → Option ℕ
index_of c [] = none
index_of c (x ∷ xs) =
    let rest = index_of c xs in
    if nat_beq x c then some 0 else (elim rest [ none ↦ none | some k ↦ some (suc k) ])

-- The names that the loop of Run reads from `benchmarks`, from `lastbench` on.
unfoldable pub read_names : ℕ → List ℕ → ℕ → List (List ℕ)
read_names zero benchmarks lastbench = []
read_names (suc fuel) benchmarks lastbench =
    let rest : ℕ → List (List ℕ) = λ from. read_names fuel benchmarks from in
    if ltb lastbench (length benchmarks)
    then (elim (index_of comma (drop lastbench benchmarks)) [
      | none ↦
          take (length benchmarks - lastbench) (drop lastbench benchmarks)
          ∷ rest (length benchmarks)
      | some k ↦ take k (drop lastbench benchmarks) ∷ rest (lastbench + k + 1)
    ])
    else []

-- The methods that are run, in order: a name that is not found is skipped.
unfoldable pub known_methods : List (List ℕ) → List Method
known_methods [] = []
known_methods (name ∷ names) =
    let rest = known_methods names in elim (method_of name) [ none ↦ rest | some m ↦ m ∷ rest ]

unfoldable pub run_benchmarks : List ℕ → List Method
run_benchmarks benchmarks = known_methods (read_names (length benchmarks) benchmarks 0)

abbrev in_first : ℕ → List (List ℕ) → List (List ℕ)
in_first x [] = (x ∷ []) ∷ []
in_first x (p ∷ ps) = (x ∷ p) ∷ ps

-- What stands between commas, as a clause for each byte; nothing behind the last comma is no name.
unfoldable pub pieces : List ℕ → List (List ℕ)
pieces [] = []
pieces (x ∷ xs) = let rest = pieces xs in if nat_beq x comma then [] ∷ rest else in_first x rest

unfoldable pub comma_joined : List (List ℕ) → List ℕ
comma_joined [] = []
comma_joined (name ∷ []) = name
comma_joined (name ∷ next ∷ names) = name ++ comma ∷ comma_joined (next ∷ names)

-- A name is not empty and has no comma in it.
unfoldable pub is_name : List ℕ → Bool
is_name name = ltb 0 (length name) && (elim (index_of comma name) [ none ↦ true | some k ↦ false ])

unfoldable pub all_names : List (List ℕ) → Bool
all_names [] = true
all_names (name ∷ names) = is_name name && all_names names
