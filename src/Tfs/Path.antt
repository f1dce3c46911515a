-- ===== src/Tfs/Path.antt =====
-- fs/tablefs.cpp: ParentPathLookup and PathLookup. A path is its bytes without the terminator, and
-- a pointer into it is the rest of the path from there on.
pub mod Walk
pub mod Loop
use tablefs.Base.{
  ℕ, zero, suc, ◌+◌, ◌-◌, ◌≤◌, Bool, true, false, Option, none, some, List, [], ◌∷◌, ◌++◌, ◌>>=◌,
  if◌then◌else◌, nat_beq, length, drop, ltb,
}
use tablefs.Key.{Inode, MetaKey, root_inode_id}
use tablefs.Dentry
use tablefs.Dentry.{DentryCache}
use tablefs.Adaptor
use tablefs.Platform.{Platform}
use tablefs.Icache.{InodeCache}
use tablefs.Tfs.{TableFs, path_delimiter, enoent, build_meta_key}

-- `strchr(s, PATH_DELIMITER)`: how far it is to the delimiter, and the rest from there on
unfoldable pub strchr : List ℕ → Option (ℕ × List ℕ)
strchr [] = none
strchr (b ∷ bs) =
    if nat_beq b path_delimiter
    then some (0, b ∷ bs)
    else elim (strchr bs) [ none ↦ none | some (n, r) ↦ some (suc n, r) ]

-- What a lookup leaves behind: the key, the inode of the parent, and the last delimiter.
pub record Found : Type 0 where
  pub key : MetaKey
  pub parent : Inode
  pub lastdelimiter : List ℕ

module _ (P : Platform) where
  -- The search for one directory on the way, under `key`: none is ENOENT.
  unfoldable pub look_in : MetaKey → TableFs P → Option (Option Inode × TableFs P)
  look_in key s = do
    (hit, d) ← Dentry.find key s.dentry_cache
    elim hit [
      | some inode ↦ some (some inode, record s { dentry_cache = d })
      | none ↦ elim (Adaptor.get P key s.inode_cache.metadb_) [
        | some result ↦
            let inode = result.header.fstat.st_ino in
            some (some inode, record s { dentry_cache = Dentry.insert key inode d })
        | none ↦ some (none, record s { dentry_cache = d; errno = enoent })
      ]
    ]

  -- The `while` loop of `ParentPathLookup`, on fuel, from `lpos` on. `key` is what the last round
  -- built, and none before the first round. `rpos - lpos > 0` always holds, since the delimiter is
  -- searched from `lpos + 1` on; that read is past the end of an empty path.
  unfoldable pub search_loop :
      ℕ
      → List ℕ
      → Inode
      → Option MetaKey
      → TableFs P
      → Option (Option (Option MetaKey × Inode × List ℕ) × TableFs P)
  search_loop zero lpos inode key s = none
  search_loop (suc fuel) [] inode key s = none
  search_loop (suc fuel) (slash ∷ rest) inode key s = elim (strchr rest) [
    | none ↦ some (some (key, inode, slash ∷ rest), s)
    | some (n, rpos) ↦ do
      k ← build_meta_key rest n inode
      (next, t) ← look_in k s
      elim next [ none ↦ some (none, t) | some child ↦ search_loop fuel rpos child (some k) t ]
  ]

  -- `ParentPathLookup`. Where no round was made, `lpos == path` and the key is the root's.
  unfoldable pub parent_path_lookup : List ℕ → TableFs P → Option (Option Found × TableFs P)
  parent_path_lookup path s = do
    (out, t) ← search_loop (suc (length path)) path root_inode_id none s
    elim out [
      | none ↦ some (none, t)
      | some (none, inode, lpos) ↦ do
        key ← build_meta_key [] 0 root_inode_id
        some (some (record { key = key; parent = inode; lastdelimiter = lpos }), t)
      | some (some key, inode, lpos) ↦
          some (some (record { key = key; parent = inode; lastdelimiter = lpos }), t)
    ]

  -- `PathLookup(path, key, filename)`; the other `PathLookup` is this one without the name.
  unfoldable pub path_lookup : List ℕ → TableFs P → Option (Option (MetaKey × List ℕ) × TableFs P)
  path_lookup path s = do
    (out, t) ← parent_path_lookup path s
    elim out [
      | none ↦ some (none, record t { errno = enoent })
      | some f ↦
          if ltb 1 (length f.lastdelimiter)
          then (do
            key ← build_meta_key (drop 1 f.lastdelimiter) (length f.lastdelimiter - 1) f.parent
            some (some (key, drop 1 f.lastdelimiter), t))
          else some (some (f.key, f.lastdelimiter), t)
    ]
