-- ===== src/Tfs/Safety/Removing.antt =====
-- fs/tablefs.cpp: Unlink and RemoveDir, with the inode cache as it is kept.
use mathlib.Core.Path.{subst}
use tablefs.Base.{
  ℕ, ◌≡◌, refl, sym, ◌∙◌, Option, none, some, List, ◌∷◌, arith, if◌then◌else◌, Option-cases, inl,
  inr, ltb,
}
use tablefs.Base.Int.{ℤ, pos, neg}
use tablefs.Hash.Tail.{AreBytes}
use tablefs.Key.{MetaKey}
use tablefs.Dentry
use tablefs.Platform.{Platform, Ptr}
use tablefs.Platform.Caching.{CacheLaws}
use tablefs.Icache
use tablefs.Icache.{InodeCache, InodeCacheHandle, Mode}
use tablefs.Icache.Sound.{IsSound}
use tablefs.Icache.Operations.{evict_lem}
use tablefs.Icache.Getting.{get-Got, IsFound, Got}
use tablefs.Tfs.{TableFs, path_delimiter, fs_error, enoent, data_dir, data_file}
use tablefs.Tfs.Path.{path_lookup}
use tablefs.Tfs.Path.Walk.{IsCoherent, resolve}
use tablefs.Tfs.Entries.{drop_entry, unlink, remove_dir}
use tablefs.Tfs.Safety.{IsBalanced, lookup_step, only_released, IsBalanced-same, IsBalanced-eq}

module _ {P : Platform} (laws : CacheLaws P) where
  open laws use {held}

  -- The end of Unlink and RemoveDir.
  drop_entry-IsBalanced :
      (key : MetaKey) (mode : Mode) (p : Ptr) (c : InodeCache P) (s : TableFs P)
      → IsFound laws key mode c p s.inode_cache
      → (t : TableFs P) × (drop_entry P key p s ≡ some (pos 0, t)) × IsBalanced laws c t.inode_cache
  unfolding drop_entry
  drop_entry-IsBalanced key mode p c s f =
      let (g, released, b) = only_released laws c s.inode_cache p f in
      let (e, evicted, k) = evict_lem laws key g b.sound in
      (
        record s { inode_cache = e; dentry_cache = Dentry.evict key s.dentry_cache },
        ground (arith, released, evicted),
        record { sound = k.sound; same_held = λ q. k.same_held q ∙ b.same_held q },
      )

  remove_found :
      (rest : List ℕ) (s t : TableFs P) (key : MetaKey) (filename : List ℕ) (out : Option Ptr)
      (d : InodeCache P)
      → path_lookup P (path_delimiter ∷ rest) s ≡ some (some (key, filename), t)
      → t.inode_cache ≡ s.inode_cache
      → Icache.get P key Mode.inode_delete t.inode_cache ≡ some (out, d)
      → Got laws key Mode.inode_delete t.inode_cache out d
      → (ret : ℤ) × (u : TableFs P) × (remove_dir P (path_delimiter ∷ rest) s ≡ some (ret, u))
        × IsBalanced laws s.inode_cache u.inode_cache
  unfolding remove_dir
  remove_found rest s t key filename none d looked same got good = (
    neg enoent,
    record t { inode_cache = d },
    ground (arith, looked, got),
    IsBalanced-same laws s.inode_cache t.inode_cache d same
        (record { sound = good.sound; same_held = good.same_held }),
  )
  remove_found rest s t key filename (some p) d looked same got good =
      let (u, dropped, b) =
        drop_entry-IsBalanced key Mode.inode_delete p t.inode_cache (record t { inode_cache = d })
          good in
      (
        pos 0,
        u,
        ground (arith, looked, got, dropped),
        IsBalanced-same laws s.inode_cache t.inode_cache u.inode_cache same b,
      )

  -- From a state whose dentry cache agrees with the table and whose inode cache is sound, RemoveDir
  -- returns for a path that begins with a delimiter, uses no freed handle, and leaves the inode
  -- cache sound and the references to its handles as they were.
  pub remove_dir-IsBalanced :
      (rest : List ℕ) (s : TableFs P)
      → AreBytes rest
      → IsCoherent s
      → IsSound laws s.inode_cache
      → (ret : ℤ) × (u : TableFs P) × (remove_dir P (path_delimiter ∷ rest) s ≡ some (ret, u))
        × IsBalanced laws s.inode_cache u.inode_cache
  unfolding remove_dir
  remove_dir-IsBalanced rest s bytes ok v =
      let (t, looked, same) = lookup_step laws rest s bytes ok in
      let v' = subst (IsSound laws) (sym same) v in
      elim (Option-cases (resolve s.inode_cache.metadb_ rest)) [
        | inl missing ↦ (
          fs_error P t,
          t,
          ground (arith, looked, missing),
          IsBalanced-same laws s.inode_cache t.inode_cache t.inode_cache same
              (record { sound = v'; same_held = λ q. refl }),
        )
        | inr ((key, filename), place) ↦
            let (out, d, got, good) = get-Got laws key Mode.inode_delete t.inode_cache v' in
            remove_found rest s t key filename out d (ground (arith, looked, place)) same got good
      ]

  unlink_found :
      (rest : List ℕ) (s t : TableFs P) (key : MetaKey) (filename : List ℕ) (out : Option Ptr)
      (d : InodeCache P)
      → path_lookup P (path_delimiter ∷ rest) s ≡ some (some (key, filename), t)
      → t.inode_cache ≡ s.inode_cache
      → Icache.get P key Mode.inode_delete t.inode_cache ≡ some (out, d)
      → Got laws key Mode.inode_delete t.inode_cache out d
      → (ret : ℤ) × (u : TableFs P) × (unlink P (path_delimiter ∷ rest) s ≡ some (ret, u))
        × IsBalanced laws s.inode_cache u.inode_cache
  unfolding unlink
  unlink_found rest s t key filename none d looked same got good = (
    neg enoent,
    record t { inode_cache = d },
    ground (arith, looked, got),
    IsBalanced-same laws s.inode_cache t.inode_cache d same
        (record { sound = good.sound; same_held = good.same_held }),
  )
  unlink_found rest s t key filename (some p) d looked same got good =
      let st = good.handle.value_.header.fstat in
      let disk =
        if ltb t.state_.threshold_ st.st_size
        then Platform.disk_unlink P (data_dir st.st_ino) (data_file st.st_ino) t.state_.disk
        else t.state_.disk in
      let w = record t { state_ = record (t.state_) { disk = disk }; inode_cache = d } in
      let (u, dropped, b) = drop_entry-IsBalanced key Mode.inode_delete p t.inode_cache w good in
      (
        pos 0,
        u,
        rw (looked, got, good.here) dropped,
        IsBalanced-same laws s.inode_cache t.inode_cache u.inode_cache same b,
      )

  -- From a state whose dentry cache agrees with the table and whose inode cache is sound, Unlink
  -- returns for a path that begins with a delimiter, uses no freed handle, and leaves the inode
  -- cache sound and the references to its handles as they were.
  pub unlink-IsBalanced :
      (rest : List ℕ) (s : TableFs P)
      → AreBytes rest
      → IsCoherent s
      → IsSound laws s.inode_cache
      → (ret : ℤ) × (u : TableFs P) × (unlink P (path_delimiter ∷ rest) s ≡ some (ret, u))
        × IsBalanced laws s.inode_cache u.inode_cache
  unfolding unlink
  unlink-IsBalanced rest s bytes ok v =
      let (t, looked, same) = lookup_step laws rest s bytes ok in
      elim (Option-cases (resolve s.inode_cache.metadb_ rest)) [
        | inl missing ↦ (
          fs_error P t,
          t,
          ground (arith, looked, missing),
          IsBalanced-eq laws s.inode_cache t.inode_cache same v,
        )
        | inr ((key, filename), place) ↦
            let (out, d, got, good) =
              get-Got laws key Mode.inode_delete t.inode_cache
                (subst (IsSound laws) (sym same) v) in
            unlink_found rest s t key filename out d (ground (arith, looked, place)) same got good
      ]
