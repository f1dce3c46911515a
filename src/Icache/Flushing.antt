-- ===== src/Icache/Flushing.antt =====
-- fs/icache.cpp: WriteBack, and what is then in the table.
use tablefs.Base.{
  ◌<◌, ◌≡◌, refl, sym, ap, ◌∙◌, true, false, Option, none, some, nat_beq, arith, if◌then◌else◌,
  ◌==◌, inl, inr,
}
use tablefs.Key.{MetaKey, key_eq}
use tablefs.Value.{InodeValue}
use tablefs.Adaptor
use tablefs.Adaptor.Table.{get-put, get-delete}
use tablefs.Platform.{Platform, Ptr, DbLaws}
use tablefs.Platform.Caching.{CacheLaws}
use tablefs.Icache.{InodeCache, InodeCacheHandle, Mode, handle_at, set_handle, write_back}
use tablefs.Icache.Heap.{handle_at-set_handle}
use tablefs.Icache.Sound.{IsSound}
use tablefs.Icache.Operations.{evict_lem}
use tablefs.Icache.Writing.{Mode-cases, cleaned, set_table-IsSound}
use tablefs.Icache.Tidy.{IsTidy}
use tablefs.Icache.Committing.{evict-IsEvicted}

module _ {P : Platform} (laws : CacheLaws P) (db_laws : DbLaws P) where
  open laws use {held, bound}

  -- The mode that WriteBack leaves.
  abbrev flushed_mode : Mode → Mode
  flushed_mode Mode.inode_write = Mode.inode_read
  flushed_mode Mode.inode_read = Mode.inode_read
  flushed_mode Mode.inode_delete = Mode.inode_delete

  -- What becomes of the entry of the table under `j`, by the mode of the handle.
  abbrev flushed_entry : InodeCacheHandle P → MetaKey → Option InodeValue → Option InodeValue
  flushed_entry h j before = elim h.mode_ [
    | Mode.inode_write ↦ if h.key_ == j then some h.value_ else before
    | Mode.inode_delete ↦ if h.key_ == j then none else before
    | Mode.inode_read ↦ before
  ]

  -- LevelDB does what the mode of the handle asks for without an error.
  abbrev Succeeds : InodeCacheHandle P → InodeCache P → Type 0
  Succeeds h c = elim h.mode_ [
    | Mode.inode_write ↦ (Adaptor.put P c.clock h.key_ h.value_ c.metadb_).0 ≡ true
    | Mode.inode_delete ↦ (Platform.db_delete P h.key_ c.metadb_.db).0 ≡ true
    | Mode.inode_read ↦ Unit
  ]

  -- What WriteBack leaves.
  pub record IsFlushed (p : Ptr) (h : InodeCacheHandle P) (c d : InodeCache P) : Type 0 where
    pub sound : IsSound laws d
    pub table :
        (j : MetaKey) → Adaptor.get P j d.metadb_ ≡ flushed_entry h j (Adaptor.get P j c.metadb_)
    pub here : handle_at P p d ≡ some (record h { mode_ = flushed_mode h.mode_ })
    pub unlisted : h.mode_ ≡ Mode.inode_delete → (q : Ptr) → ¬ (bound h.key_ d.cache ≡ some q)
    pub same_held : (q : Ptr) → held q d.cache ≡ held q c.cache
    pub kept :
        (q : Ptr) → nat_beq q p ≡ false → 0 < held q c.cache → handle_at P q d ≡ handle_at P q c

  write_back_stores :
      (p : Ptr) (h : InodeCacheHandle P) (c : InodeCache P)
      → IsSound laws c
      → handle_at P p c ≡ some h
      → h.mode_ ≡ Mode.inode_write
      → (Adaptor.put P c.clock h.key_ h.value_ c.metadb_).0 ≡ true
      → (d : InodeCache P) × (write_back P p c ≡ some d) × IsFlushed p h c d
  unfolding write_back set_handle
  write_back_stores p h c v here writes ok =
      let a = (Adaptor.put P c.clock h.key_ h.value_ c.metadb_).1 in
      let h' = record h { mode_ = Mode.inode_read } in
      let w = cleaned laws a p h c v here in
      (
        set_handle P p h' (record c { metadb_ = a }),
        ground (arith, here, writes),
        record {
          sound = w.sound;
          table =
              λ j. ground (arith, writes, get-put db_laws c.metadb_ c.clock h.key_ j h.value_ ok);
          here = ground (arith, writes, handle_at-set_handle p p h' (record c { metadb_ = a }));
          unlisted = λ e. absurd (cc (e, writes));
          same_held = w.same_held;
          kept = w.kept;
        },
      )

  write_back_removes :
      (p : Ptr) (h : InodeCacheHandle P) (c : InodeCache P)
      → IsSound laws c
      → IsTidy laws c
      → 0 < held p c.cache
      → handle_at P p c ≡ some h
      → h.mode_ ≡ Mode.inode_delete
      → (Platform.db_delete P h.key_ c.metadb_.db).0 ≡ true
      → (d : InodeCache P) × (write_back P p c ≡ some d) × IsFlushed p h c d
  unfolding write_back handle_at
  write_back_removes p h c v tidy more here removes ok =
      let a = Adaptor.delete P h.key_ c.metadb_ in
      let c1 = record c { metadb_ = a } in
      let (d, ran, k) = evict_lem laws h.key_ c1 (set_table-IsSound laws a c v) in
      let e = evict-IsEvicted laws h.key_ c1 d tidy ran in
      (
        d,
        ground (arith, here, removes, ran),
        record {
          sound = k.sound;
          table = λ j.
              ap (Adaptor.get P j) e.same_table
              ∙ ground (arith, removes, get-delete db_laws c.metadb_ h.key_ j ok);
          here = k.kept p more ∙ ground (arith, here, removes);
          unlisted = λ _ q b.
              (laws.erase_bound h.key_ h.key_ q c.cache
                  (sym (ap (bound h.key_) e.same_cache) ∙ b)).0
                refl;
          same_held = k.same_held;
          kept = λ q _ held_q. k.kept q held_q;
        },
      )

  -- WriteBack of a handle that the client holds, in a sound inode cache where what the client does
  -- not hold is in mode READ, and where LevelDB reports no error for the Put or the Delete, returns.
  -- From mode WRITE the table then has the value of the handle under its key, and the handle is in
  -- mode READ; from mode DELETE the table has nothing under the key, and the cache does not find
  -- the key; from mode READ the table and the handle are as they were. The other entries of the
  -- table, the references, and the other handles that the client holds stay as they are, and the
  -- cache sound.
  pub write_back-IsFlushed :
      (p : Ptr) (h : InodeCacheHandle P) (c : InodeCache P)
      → IsSound laws c
      → IsTidy laws c
      → 0 < held p c.cache
      → handle_at P p c ≡ some h
      → Succeeds h c
      → (d : InodeCache P) × (write_back P p c ≡ some d) × IsFlushed p h c d
  unfolding write_back
  write_back-IsFlushed p h c v tidy more here ok = elim (Mode-cases h.mode_) [
    | inl writes ↦ write_back_stores p h c v here writes (ground (arith, writes, ok))
    | inr (inl removes) ↦
        write_back_removes p h c v tidy more here removes (ground (arith, removes, ok))
    | inr (inr reads) ↦ (
      c,
      ground (arith, here, reads),
      record {
        sound = v;
        table = λ j. ground (arith, reads);
        here = ground (arith, here, reads);
        unlisted = λ e. absurd (cc (e, reads));
        same_held = λ q. refl;
        kept = λ q _ _. refl;
      },
    )
  ]
