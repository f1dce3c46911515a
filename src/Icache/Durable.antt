-- ===== src/Icache/Durable.antt =====
-- A handle in mode WRITE that is written back and released: what it holds is in the table.
use tablefs.Base.{ℕ, ◌-◌, ◌<◌, ◌≡◌, refl, sym, some, arith, nat_beq, if◌then◌else◌}
use mathlib.Core.Path.{subst}
use tablefs.Key.{MetaKey, key_eq}
use tablefs.Adaptor
use tablefs.Platform.{Platform, Ptr}
use tablefs.Platform.Caching.{CacheLaws}
use tablefs.Icache.{InodeCache, InodeCacheHandle, Mode, handle_at, set_handle, write_back, release}
use tablefs.Icache.Heap.{handle_at-set_handle}
use tablefs.Icache.Sound.{IsSound}
use tablefs.Icache.Operations.{release_lem}
use tablefs.Icache.Writing.{cleaned}
use tablefs.Icache.Dropping.{DropLaws, release-IsStill}

module _ {P : Platform} (laws : CacheLaws P) where
  open laws use {held, bound}

  -- `WriteBack(handle)` and then `Release(handle)`
  pub record IsStored (p : Ptr) (h : InodeCacheHandle P) (c d : InodeCache P) : Type 0 where
    pub written : InodeCache P
    pub writes : write_back P p c ≡ some written
    pub clean_there : handle_at P p written ≡ some (record h { mode_ = Mode.inode_read })
    pub releases : release P p written ≡ some d
    pub sound : IsSound laws d
    pub now_held :
        (q : Ptr) → held q d.cache ≡ (if nat_beq q p then held q c.cache - 1 else held q c.cache)
    pub still_bound : (k : MetaKey) (q : Ptr) → bound k d.cache ≡ some q → bound k c.cache ≡ some q
    pub table : d.metadb_ ≡ (Adaptor.put P c.clock h.key_ h.value_ c.metadb_).1
    pub clean : (g : InodeCacheHandle P) → handle_at P p d ≡ some g → g.mode_ ≡ Mode.inode_read

  pub write_back-IsStored :
      (drops : DropLaws laws) (p : Ptr) (h : InodeCacheHandle P) (c : InodeCache P)
      → IsSound laws c
      → 0 < held p c.cache
      → handle_at P p c ≡ some h
      → h.mode_ ≡ Mode.inode_write
      → (d : InodeCache P) × IsStored p h c d
  unfolding write_back set_handle
  write_back-IsStored drops p h c v more here mode =
      let a = (Adaptor.put P c.clock h.key_ h.value_ c.metadb_).1 in
      let h' = record h { mode_ = Mode.inode_read } in
      let b = record c { metadb_ = a } in
      let c1 = set_handle P p h' b in
      let w = cleaned laws a p h c v here in
      let here1 : handle_at P p c1 ≡ some h' = ground (arith, handle_at-set_handle p p h' b) in
      let more1 : 0 < held p c1.cache = subst (λ (n : ℕ). 0 < n) (sym (w.same_held p)) more in
      let (d, ran, sound, count, kept) = release_lem laws p c1 w.sound more1 in
      let still = release-IsStill laws drops p c1 d h' w.sound more1 here1 refl ran in
      (
        d,
        record {
          written = c1;
          writes = ground (arith, here, mode);
          clean_there = here1;
          releases = ran;
          sound = sound;
          now_held = λ q. ground (arith, count q, w.same_held q);
          still_bound = still.still_bound;
          table = still.same_table;
          clean = λ g found. ground (arith, still.sub p g found, here1);
        },
      )
