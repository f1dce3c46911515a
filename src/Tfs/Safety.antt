-- ===== src/Tfs/Safety.antt =====
-- fs/tablefs.cpp: the handlers on a path, with the inode cache as it is kept. No handler uses a freed
-- handle, and each gives back the references that it takes.
pub mod Removing
pub mod Moving
use mathlib.Core.Path.{subst}
use tablefs.Base.{
  ℕ, suc, ◌+◌, ◌-◌, ◌<◌, ◌≡◌, refl, sym, ap, ◌∙◌, Bool, true, false, Option, none, some, List, [],
  ◌∷◌, arith, nat_beq, if◌then◌else◌, ◌>>=◌, Option-cases, inl, inr,
}
use tablefs.Base.Int.{ℤ, pos, neg}
use tablefs.Hash.Tail.{AreBytes}
use tablefs.Key.{MetaKey}
use tablefs.Value.{Stat, update_attribute}
use tablefs.Platform.{Platform, Ptr}
use tablefs.Platform.Caching.{CacheLaws}
use tablefs.Icache
use tablefs.Icache.{InodeCache, InodeCacheHandle, Mode}
use tablefs.Icache.Sound.{IsSound, set_handle-IsSound}
use tablefs.Icache.Operations.{evict_lem, release_lem}
use tablefs.Icache.Getting.{get-Got, IsFound, IsMissed, Got}
use tablefs.Icache.Heap.{handle_at-set_handle}
use tablefs.Icache.Writing.{write_back-IsWritten}
use tablefs.Tfs.{TableFs, path_delimiter, fs_error, enoent}
use tablefs.Tfs.Path.{path_lookup}
use tablefs.Tfs.Path.Walk.{IsCoherent, resolve}
use tablefs.Tfs.Path.Loop.{path_lookup-resolve}
use tablefs.Tfs.Attributes.{update_stat, get_attr}

module _ {P : Platform} (laws : CacheLaws P) where
  open laws use {held}

  -- The inode cache is sound, and the client holds the same references as in another state.
  pub record IsBalanced (c d : InodeCache P) : Type 0 where
    pub sound : IsSound laws d
    pub same_held : (q : Ptr) → held q d.cache ≡ held q c.cache

  -- A lookup of a path, as the handlers begin with it.
  pub lookup_step :
      (rest : List ℕ) (s : TableFs P)
      → AreBytes rest
      → IsCoherent s
      → (t : TableFs P) × (path_lookup P (path_delimiter ∷ rest) s
          ≡ some (resolve s.inode_cache.metadb_ rest, t))
        × (t.inode_cache ≡ s.inode_cache)
  lookup_step rest s bytes ok =
      let (t, ran, _, same, _) = path_lookup-resolve rest s bytes ok in (t, ran, same.same_inodes)

  -- A handle that `Get` gave goes back after its value has changed and been written back.
  pub written_and_released :
      {key : MetaKey} {mode : Mode} (c d : InodeCache P) (p : Ptr) (h : InodeCacheHandle P)
      → (f : IsFound laws key mode c p d) → h.pointer ≡ f.handle.pointer
      → h.key_ ≡ f.handle.key_
      → (e g : InodeCache P) × (Icache.write_back P p (Icache.set_handle P p h d) ≡ some e)
        × (Icache.release P p e ≡ some g)
        × IsBalanced c g
  unfolding Icache.set_handle
  written_and_released c d p h f same_pointer same_key =
      let changed = Icache.set_handle P p h d in
      let v = set_handle-IsSound laws d p f.handle h f.sound f.here same_pointer same_key in
      let one : 0 < held p changed.cache = ground (arith, f.now_held p) in
      let (e, wrote, w) = write_back-IsWritten laws p changed v one in
      let (g, released, sound, counts, _) =
        release_lem laws p e w.sound (ground (arith, w.same_held p, f.now_held p)) in
      (
        e,
        g,
        wrote,
        released,
        record {
          sound = sound;
          same_held = λ q. ground (arith, counts q, w.same_held q, f.now_held q);
        },
      )

  -- A handle that `Get` gave goes back at once.
  pub only_released :
      {key : MetaKey} {mode : Mode} (c d : InodeCache P) (p : Ptr)
      → IsFound laws key mode c p d
      → (g : InodeCache P) × (Icache.release P p d ≡ some g) × IsBalanced c g
  only_released c d p f =
      let (g, released, sound, counts, _) =
        release_lem laws p d f.sound (ground (arith, f.now_held p)) in
      (
        g,
        released,
        record { sound = sound; same_held = λ q. ground (arith, counts q, f.now_held q) },
      )

  pub IsBalanced-same : (c c' d : InodeCache P) → c' ≡ c → IsBalanced c' d → IsBalanced c d
  IsBalanced-same c c' d same b = subst (λ (o : InodeCache P). IsBalanced o d) same b

  pub IsBalanced-eq : (c d : InodeCache P) → d ≡ c → IsSound laws c → IsBalanced c d
  IsBalanced-eq c d same v = record {
    sound = subst (IsSound laws) (sym same) v;
    same_held = λ q. ap (λ (o : InodeCache P). held q o.cache) same;
  }

  found_step :
      (change : Stat → Stat) (rest : List ℕ) (s t : TableFs P) (key : MetaKey) (filename : List ℕ)
      (out : Option Ptr) (d : InodeCache P)
      → resolve s.inode_cache.metadb_ rest ≡ some (key, filename)
      → path_lookup P (path_delimiter ∷ rest) s ≡ some (resolve s.inode_cache.metadb_ rest, t)
      → t.inode_cache ≡ s.inode_cache
      → Icache.get P key Mode.inode_write t.inode_cache ≡ some (out, d)
      → Got laws key Mode.inode_write t.inode_cache out d
      → (ret : ℤ) × (u : TableFs P) × (update_stat P change (path_delimiter ∷ rest) s
          ≡ some (ret, u))
        × IsBalanced s.inode_cache u.inode_cache
  unfolding update_stat
  found_step change rest s t key filename none d place looked same got good = (
    neg enoent,
    record t { inode_cache = d },
    ground (arith, looked, place, got),
    IsBalanced-same s.inode_cache t.inode_cache d same
        (record { sound = good.sound; same_held = good.same_held }),
  )
  found_step change rest s t key filename (some p) d place looked same got good =
      let h = good.handle in
      let h' = record h { value_ = update_attribute (change h.value_.header.fstat) h.value_ } in
      let (e, g, wrote, released, balanced) =
        written_and_released t.inode_cache d p h' good refl refl in
      (
        pos 0,
        record t { inode_cache = g },
        ground (arith, looked, place, got, good.here, wrote, released),
        IsBalanced-same s.inode_cache t.inode_cache g same balanced,
      )

  -- From a state whose dentry cache agrees with the table and whose inode cache is sound,
  -- UpdateTimens, Chmod and Chown return for a path that begins with a delimiter. They use no freed
  -- handle, and leave the inode cache sound and the references to its handles as they were.
  pub update_stat-IsBalanced :
      (change : Stat → Stat) (rest : List ℕ) (s : TableFs P)
      → AreBytes rest
      → IsCoherent s
      → IsSound laws s.inode_cache
      → (ret : ℤ) × (t : TableFs P) × (update_stat P change (path_delimiter ∷ rest) s
          ≡ some (ret, t))
        × IsBalanced s.inode_cache t.inode_cache
  unfolding update_stat
  update_stat-IsBalanced change rest s bytes ok v =
      let (t, looked, same) = lookup_step rest s bytes ok in
      elim (Option-cases (resolve s.inode_cache.metadb_ rest)) [
        | inl missing ↦ (
          fs_error P t,
          t,
          ground (arith, looked, missing),
          record {
            sound = subst (IsSound laws) (sym same) v;
            same_held = λ q. ap (λ (c : InodeCache P). held q c.cache) same;
          },
        )
        | inr ((key, filename), place) ↦
            let (out, d, got, good) =
              get-Got laws key Mode.inode_write t.inode_cache (subst (IsSound laws) (sym same) v) in
            found_step change rest s t key filename out d place looked same got good
      ]
