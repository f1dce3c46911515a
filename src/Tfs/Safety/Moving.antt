-- ===== src/Tfs/Safety/Moving.antt =====
-- fs/tablefs.cpp: Rename, with the inode cache as it is kept.
use mathlib.Core.Path.{subst}
use tablefs.Base.{
  ℕ, ◌<◌, ◌≡◌, sym, ◌∙◌, Option, none, some, List, ◌∷◌, arith, Option-cases, inl, inr,
}
use tablefs.Base.Int.{ℤ, pos, neg}
use tablefs.Hash.Tail.{AreBytes}
use tablefs.Key.{MetaKey}
use tablefs.Dentry
use tablefs.Platform.{Platform, Ptr}
use tablefs.Platform.Caching.{CacheLaws}
use tablefs.Icache
use tablefs.Icache.{InodeCache, InodeCacheHandle, Mode}
use tablefs.Icache.Sound.{IsSound}
use tablefs.Icache.Operations.{evict_lem, release_lem, add_handle_lem}
use tablefs.Icache.Getting.{get-Got, Got}
use tablefs.Icache.Writing.{batch_commit-IsSound}
use tablefs.Tfs.{TableFs, path_delimiter, fs_error, enoent, renamed_inode_value}
use tablefs.Tfs.Path.Walk.{IsCoherent, resolve}
use tablefs.Tfs.Path.Loop.{path_lookup-resolve}
use tablefs.Tfs.Renaming.{move_entry, rename}
use tablefs.Tfs.Safety.{IsBalanced, IsBalanced-same, IsBalanced-eq}

module _ {P : Platform} (laws : CacheLaws P) where
  open laws use {held}

  move_found :
      (old_key new_key : MetaKey) (filename : List ℕ) (s : TableFs P) (out : Option Ptr)
      (c : InodeCache P)
      → Icache.get P old_key Mode.inode_delete s.inode_cache ≡ some (out, c)
      → Got laws old_key Mode.inode_delete s.inode_cache out c
      → (ret : ℤ) × (u : TableFs P) × (move_entry P old_key new_key filename s ≡ some (ret, u))
        × IsBalanced laws s.inode_cache u.inode_cache
  unfolding move_entry Icache.insert
  move_found old_key new_key filename s none c got good = (
    neg enoent,
    record s { inode_cache = c },
    ground (arith, got),
    record { sound = good.sound; same_held = good.same_held },
  )
  move_found old_key new_key filename s (some p) c got good =
      let value = renamed_inode_value good.handle.value_ filename in
      let (r, d, inserted, new) = add_handle_lem laws new_key value Mode.inode_write c good.sound in
      let two : 0 < held r d.cache = ground (arith, new.now_held r) in
      let one : 0 < held p d.cache = ground (arith, new.now_held p, good.now_held p) in
      let (e, committed, ve, counts) = batch_commit-IsSound laws p r d new.sound one two in
      let (f, freed_new, vf, minus_new, _) =
        release_lem laws r e ve (ground (arith, counts r, two)) in
      let (g, freed_old, vg, minus_old, _) =
        release_lem laws p f vf
          (ground (arith, minus_new p, counts p, new.now_held p, new.unheld, good.now_held p)) in
      let (i, evicted, k) = evict_lem laws old_key g vg in
      (
        pos 0,
        record s {
          inode_cache = i;
          dentry_cache = Dentry.evict new_key (Dentry.evict old_key s.dentry_cache);
        },
        ground (arith, got, good.here, inserted, committed, freed_new, freed_old, evicted),
        record {
          sound = k.sound;
          same_held = λ q. ground (
            arith,
            k.same_held q,
            minus_old q,
            minus_new q,
            counts q,
            new.now_held q,
            new.unheld,
            good.now_held q,
          );
        },
      )

  -- The move of an entry, from the key of the old name to that of the new one.
  pub move_entry-IsBalanced :
      (old_key new_key : MetaKey) (filename : List ℕ) (s : TableFs P)
      → IsSound laws s.inode_cache
      → (ret : ℤ) × (u : TableFs P) × (move_entry P old_key new_key filename s ≡ some (ret, u))
        × IsBalanced laws s.inode_cache u.inode_cache
  move_entry-IsBalanced old_key new_key filename s v =
      let (out, c, got, good) = get-Got laws old_key Mode.inode_delete s.inode_cache v in
      move_found old_key new_key filename s out c got good

  -- From a state whose dentry cache agrees with the table and whose inode cache is sound, Rename
  -- returns for two paths that begin with a delimiter, whatever they name, the same entry included.
  -- It uses no freed handle, and leaves the inode cache sound and the references to its handles as
  -- they were.
  pub rename-IsBalanced :
      (old_rest new_rest : List ℕ) (s : TableFs P)
      → AreBytes old_rest
      → AreBytes new_rest
      → IsCoherent s
      → IsSound laws s.inode_cache
      → (ret : ℤ) × (u : TableFs P) × (rename P
            (path_delimiter ∷ old_rest)
            (path_delimiter ∷ new_rest)
            s
          ≡ some (ret, u))
        × IsBalanced laws s.inode_cache u.inode_cache
  unfolding rename
  rename-IsBalanced old_rest new_rest s old_bytes new_bytes ok v =
      let (t, looked, ok', same, _) = path_lookup-resolve old_rest s old_bytes ok in
      let (u, looked', _, same', _) = path_lookup-resolve new_rest t new_bytes ok' in
      let still : u.inode_cache ≡ s.inode_cache = same'.same_inodes ∙ same.same_inodes in
      elim (Option-cases (resolve s.inode_cache.metadb_ old_rest)) [
        | inl missing ↦ (
          fs_error P t,
          t,
          ground (arith, looked, missing),
          IsBalanced-eq laws s.inode_cache t.inode_cache same.same_inodes v,
        )
        | inr ((old_key, old_name), place) ↦
            elim (Option-cases (resolve t.inode_cache.metadb_ new_rest)) [
              | inl missing ↦ (
                fs_error P u,
                u,
                ground (arith, looked, place, looked', missing),
                IsBalanced-eq laws s.inode_cache u.inode_cache still v,
              )
              | inr ((new_key, filename), place') ↦
                  let (ret, w, moved, b) =
                    move_entry-IsBalanced old_key new_key filename u
                      (subst (IsSound laws) (sym still) v) in
                  (
                    ret,
                    w,
                    ground (arith, looked, place, looked', place', moved),
                    IsBalanced-same laws s.inode_cache u.inode_cache w.inode_cache still b,
                  )
            ]
      ]
