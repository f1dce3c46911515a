-- ===== src/Wrapper/Scanning.antt =====
-- fs/fswrapper.cpp: Listdir, Lsstat and Scanfile, with the functions that they hand to ReadDir.
-- These functions end without a `return`, so their result is whatever the caller finds: it is a
-- parameter. The handle that OpenDir gives is not given back. The path of an entry is built in a
-- buffer of 1024 bytes; `none` also stands for a write past it.
use tablefs.Base.{
  ℕ, zero, suc, ◌+◌, ◌-◌, true, false, Option, none, some, List, ◌∷◌, ◌++◌, if◌then◌else◌, nat_beq,
  ltb, length, ◌>>=◌,
}
use tablefs.Base.Int.{ℤ, pos, negsuc}
use tablefs.Platform.{Platform}
use tablefs.Tfs.{path_delimiter}
use tablefs.Tfs.Renaming.{open_dir}
use tablefs.Tfs.Listing.{read_dir, Filler}
use tablefs.Wrapper.{FsWrapper, Slot, stat, open_path, read, close, is_zero}

-- `sprintf(fpath, "%s/", path)`, and `strcpy(end_fpath, name)`
unfoldable pub entry_path : List ℕ → List ℕ → Option (List ℕ)
entry_path path name =
    let fpath = path ++ path_delimiter ∷ name in
    if ltb (length fpath) 1024 then some fpath else none

module _ (P : Platform) (no_return : ℤ) where
  -- `fuse_filler_dir`, which counts
  unfoldable pub fuse_filler_dir : Filler P ℕ
  fuse_filler_dir name count s = some (no_return, count + 1, s)

  -- `lsstat_filler`, with the descriptors of the wrapper and the count
  unfoldable pub lsstat_filler : List ℕ → Filler P (List Slot × ℕ)
  lsstat_filler path name (slots, count) s = do
    fpath ← entry_path path name
    (ret, buf, w) ← stat P fpath (record { fs = s; slots = slots })
    some (no_return, (w.slots, count + 1), w.fs)

  -- The loop of `scanfile_filler`: `while (read_size < st_size)`, on fuel. A result below 0 takes
  -- from what is read, so the number has a sign; it is kept as what is still to be read.
  unfoldable pub scan_loop : ℕ → ℕ → ℕ → FsWrapper P → Option (FsWrapper P)
  scan_loop zero fd left w = none
  scan_loop (suc fuel) fd left w = elim (ltb 0 left) [
    | false ↦ some w
    | true ↦ do
      (ret, buf, v) ← read P fd 4096 w
      elim ret [
        | pos n ↦ elim (nat_beq n 0) [ true ↦ some v | false ↦ scan_loop fuel fd (left - n) v ]
        | negsuc n ↦ scan_loop fuel fd (left + suc n) v
      ]
  ]

  -- `scanfile_filler`. The size is that of the `struct stat`, not set where `Stat` failed, and a
  -- descriptor of -1 is an index outside the arrays.
  unfoldable pub scanfile_filler : ℕ → List ℕ → Filler P (List Slot × ℕ)
  scanfile_filler fuel path name (slots, count) s = do
    fpath ← entry_path path name
    (ret, buf, v) ← stat P fpath (record { fs = s; slots = slots })
    (opened, u) ← open_path P fpath 0 v
    statbuf ← buf
    elim opened [
      | negsuc n ↦ none
      | pos fd ↦ do
        w ← scan_loop fuel fd statbuf.st_size u
        (closed, x) ← close P fd w
        some (no_return, (x.slots, count + 1), x.fs)
    ]

  -- What Listdir, Lsstat and Scanfile have in common: the directory is opened and read, and the
  -- count is the result.
  unfoldable pub visit :
      (List ℕ → Filler P (List Slot × ℕ)) → List ℕ → FsWrapper P → Option (ℤ × FsWrapper P)
  visit filler path w = do
    (ret, handle, t) ← open_dir P path w.fs
    elim (is_zero P ret) [
      | false ↦ some (negsuc 0, record w { fs = t })
      | true ↦ do
        phandle ← handle
        (listed, after, u) ← read_dir P (filler path) phandle (w.slots, 0) t
        some (
          if is_zero P listed then pos (after.1) else negsuc 0,
          record { fs = u; slots = after.0 },
        )
    ]

  -- `Listdir`
  unfoldable pub listdir : List ℕ → FsWrapper P → Option (ℤ × FsWrapper P)
  listdir path w =
      visit
        (λ dir name slots s. do
          (ret, count, t) ← fuse_filler_dir name slots.1 s
          some (ret, (slots.0, count), t))
        path w

  -- `Lsstat`
  unfoldable pub lsstat : List ℕ → FsWrapper P → Option (ℤ × FsWrapper P)
  lsstat path w = visit lsstat_filler path w

  -- `Scanfile`
  unfoldable pub scanfile : ℕ → List ℕ → FsWrapper P → Option (ℤ × FsWrapper P)
  scanfile fuel path w = visit (scanfile_filler fuel) path w
