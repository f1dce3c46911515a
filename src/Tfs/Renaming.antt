-- ===== src/Tfs/Renaming.antt =====
-- fs/tablefs.cpp: Rename, OpenDir, ReleaseDir and Access.
use tablefs.Base.{ℕ, Option, none, some, List, ◌>>=◌}
use tablefs.Base.Int.{ℤ, pos, neg}
use tablefs.Dentry
use tablefs.Platform.{Platform, Ptr}
use tablefs.Icache
use tablefs.Icache.{Mode}
use tablefs.Key.{MetaKey}
use tablefs.Tfs.{TableFs, fs_error, enoent, renamed_inode_value}
use tablefs.Tfs.Path.{path_lookup}

module _ (P : Platform) where
  -- The move itself, from the key of the old entry to the key and the name of the new one. The
  -- order in which the two keys are locked has no effect, as the locks have none.
  unfoldable pub move_entry : MetaKey → MetaKey → List ℕ → TableFs P → Option (ℤ × TableFs P)
  move_entry old_key new_key filename s = do
    (found, c) ← Icache.get P old_key Mode.inode_delete s.inode_cache
    elim found [
      | none ↦ some (neg enoent, record s { inode_cache = c })
      | some old_handle ↦ do
        h ← Icache.handle_at P old_handle c
        (new_handle, d) ← Icache.insert P new_key (renamed_inode_value h.value_ filename) c
        e ← Icache.batch_commit P old_handle new_handle d
        f ← Icache.release P new_handle e
        g ← Icache.release P old_handle f
        i ← Icache.evict P old_key g
        some (
          pos 0,
          record s {
            inode_cache = i;
            dentry_cache = Dentry.evict new_key (Dentry.evict old_key s.dentry_cache);
          },
        )
    ]

  -- `Rename`
  unfoldable pub rename : List ℕ → List ℕ → TableFs P → Option (ℤ × TableFs P)
  rename old_path new_path s = do
    (old, t) ← path_lookup P old_path s
    elim old [
      | none ↦ some (fs_error P t, t)
      | some (old_key, old_name) ↦ do
        (new, u) ← path_lookup P new_path t
        elim new [
          | none ↦ some (fs_error P u, u)
          | some (new_key, filename) ↦ move_entry old_key new_key filename u
        ]
    ]

  -- `OpenDir`, with the handle for `fi->fh`. The entry that is not found leaves errno as it was.
  unfoldable pub open_dir : List ℕ → TableFs P → Option (ℤ × Option Ptr × TableFs P)
  open_dir path s = do
    (out, t) ← path_lookup P path s
    elim out [
      | none ↦ some (fs_error P t, none, t)
      | some (key, filename) ↦ do
        (found, c) ← Icache.get P key Mode.inode_read t.inode_cache
        elim found [
          | none ↦ some (fs_error P t, none, record t { inode_cache = c })
          | some handle ↦ some (pos 0, some handle, record t { inode_cache = c })
        ]
    ]

  -- `ReleaseDir`, for the handle in `fi->fh`
  unfoldable pub release_dir : Ptr → TableFs P → Option (ℤ × TableFs P)
  release_dir handle s = do
    h ← Icache.handle_at P handle s.inode_cache
    c ← Icache.release P handle s.inode_cache
    some (pos 0, record s { inode_cache = c })

  -- `Access`
  unfoldable pub access : List ℕ → ℕ → TableFs P → ℤ × TableFs P
  access path mask s = (pos 0, s)
