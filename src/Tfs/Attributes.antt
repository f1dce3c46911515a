-- ===== src/Tfs/Attributes.antt =====
-- fs/tablefs.cpp: GetAttr, UpdateTimens, Chmod and Chown, the handlers that read or change the
-- `struct stat` of one entry. Times are their seconds, which is all that UpdateTimens copies.
use tablefs.Base.{ℕ, Option, none, some, List, ◌>>=◌}
use tablefs.Base.Int.{ℤ, pos, neg}
use tablefs.Value.{Stat, update_attribute}
use tablefs.Platform.{Platform}
use tablefs.Icache
use tablefs.Icache.{InodeCache, Mode}
use tablefs.Tfs.{TableFs, fs_error, enoent}
use tablefs.Tfs.Path.{path_lookup}

module _ (P : Platform) where
  -- `GetAttr`, with what it writes to `statbuf`
  unfoldable pub get_attr : List ℕ → TableFs P → Option (ℤ × Option Stat × TableFs P)
  get_attr path s = do
    (out, t) ← path_lookup P path s
    elim out [
      | none ↦ some (fs_error P t, none, t)
      | some (key, filename) ↦ do
        (found, c) ← Icache.get P key Mode.inode_read t.inode_cache
        elim found [
          | none ↦ some (neg enoent, none, record t { inode_cache = c })
          | some handle ↦ do
            h ← Icache.handle_at P handle c
            d ← Icache.release P handle c
            some (pos 0, some h.value_.header.fstat, record t { inode_cache = d })
        ]
    ]

  -- What UpdateTimens, Chmod and Chown have in common: the entry's attributes are changed in a
  -- handle for writing, which is written back and released.
  unfoldable pub update_stat : (Stat → Stat) → List ℕ → TableFs P → Option (ℤ × TableFs P)
  update_stat change path s = do
    (out, t) ← path_lookup P path s
    elim out [
      | none ↦ some (fs_error P t, t)
      | some (key, filename) ↦ do
        (found, c) ← Icache.get P key Mode.inode_write t.inode_cache
        elim found [
          | none ↦ some (neg enoent, record t { inode_cache = c })
          | some handle ↦ do
            h ← Icache.handle_at P handle c
            let new_value = change h.value_.header.fstat
            let h' = record h { value_ = update_attribute new_value h.value_ }
            d ← Icache.write_back P handle (Icache.set_handle P handle h' c)
            e ← Icache.release P handle d
            some (pos 0, record t { inode_cache = e })
        ]
    ]

  -- `UpdateTimens(path, tv)`
  unfoldable pub update_timens : List ℕ → ℕ → ℕ → TableFs P → Option (ℤ × TableFs P)
  update_timens path atim mtim s =
      update_stat (λ st. record st { st_atim = atim; st_mtim = mtim }) path s

  -- `Chmod`
  unfoldable pub chmod : List ℕ → ℕ → TableFs P → Option (ℤ × TableFs P)
  chmod path mode s = update_stat (λ st. record st { st_mode = mode }) path s

  -- `Chown`
  unfoldable pub chown : List ℕ → ℕ → ℕ → TableFs P → Option (ℤ × TableFs P)
  chown path uid gid s = update_stat (λ st. record st { st_uid = uid; st_gid = gid }) path s
