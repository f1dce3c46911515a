-- ===== src/Icache/Writing.antt =====
-- `WriteBack` and `BatchCommit` of the inode cache.
use tablefs.Base.{
  ℕ, ◌<◌, ◌≡◌, refl, sym, ◌∙◌, true, false, some, List, [], ◌∷◌, ◌++◌, arith, nat_beq,
  if◌then◌else◌, inl, inr, ◌⊎◌, ◌==◌,
}
use mathlib.Core.Path.{subst}
use tablefs.Key.{MetaKey, key_eq}
use tablefs.Adaptor
use tablefs.Adaptor.{Adaptor}
use tablefs.Adaptor.Table.{get-put}
use tablefs.Platform.{Platform, Ptr, Update, puts, deletes, DbLaws}
use tablefs.Platform.Caching.{CacheLaws}
use tablefs.Icache.{
  InodeCache, InodeCacheHandle, Mode, handle_at, set_handle, write_back, evict, batch_one,
  batch_commit,
}
use tablefs.Icache.Heap.{handle_at-set_handle}
use tablefs.Icache.Sound.{IsSound, set_handle-IsSound, held_there}
use tablefs.Icache.Operations.{evict_lem}

pub Mode-cases :
    (m : Mode) → (m ≡ Mode.inode_write) ⊎ ((m ≡ Mode.inode_delete) ⊎ (m ≡ Mode.inode_read))
Mode-cases Mode.inode_write = inl refl
Mode-cases Mode.inode_delete = inr (inl refl)
Mode-cases Mode.inode_read = inr (inr refl)

module _ {P : Platform} (laws : CacheLaws P) where
  open laws use {held}

  -- What happens to the handle at `p` alone.
  pub record IsWritten (c : InodeCache P) (p : Ptr) (d : InodeCache P) : Type 0 where
    pub sound : IsSound laws d
    pub same_held : (q : Ptr) → held q d.cache ≡ held q c.cache
    pub kept :
        (q : Ptr) → nat_beq q p ≡ false → 0 < held q c.cache → handle_at P q d ≡ handle_at P q c

  -- A new table does not concern the invariant.
  pub set_table-IsSound :
      (a : Adaptor P) (c : InodeCache P) → IsSound laws c → IsSound laws (record c { metadb_ = a })
  unfolding handle_at
  set_table-IsSound a c v = record {
    heap = v.heap;
    fresh = v.fresh;
    owned = v.owned;
    keyed = v.keyed;
  }

  handle_at-set_table :
      (a : Adaptor P) (c : InodeCache P) (q : Ptr)
      → handle_at P q (record c { metadb_ = a }) ≡ handle_at P q c
  unfolding handle_at
  handle_at-set_table a c q = refl

  -- The handle in mode READ, over any table.
  pub cleaned :
      (a : Adaptor P) (p : Ptr) (h : InodeCacheHandle P) (c : InodeCache P)
      → IsSound laws c
      → handle_at P p c ≡ some h
      → IsWritten c p
          (set_handle P p (record h { mode_ = Mode.inode_read }) (record c { metadb_ = a }))
  unfolding set_handle
  cleaned a p h c v here =
      let h' = record h { mode_ = Mode.inode_read } in
      let c1 = record c { metadb_ = a } in
      record {
        sound =
            set_handle-IsSound laws c1 p h h' (set_table-IsSound a c v)
              (handle_at-set_table a c p ∙ here) refl refl;
        same_held = λ q. refl;
        kept = λ q other _.
            ground (arith, handle_at-set_handle p q h' c1, handle_at-set_table a c q, other);
      }

  -- The entry of the handle's key leaves the cache, over any table.
  dropped :
      (a : Adaptor P) (p : Ptr) (key : MetaKey) (c : InodeCache P)
      → IsSound laws c
      → (d : InodeCache P) × (evict P key (record c { metadb_ = a }) ≡ some d) × IsWritten c p d
  dropped a p key c v =
      let (d, ran, k) = evict_lem laws key (record c { metadb_ = a }) (set_table-IsSound a c v) in
      (
        d,
        ran,
        record {
          sound = k.sound;
          same_held = k.same_held;
          kept = λ q _ more. k.kept q more ∙ handle_at-set_table a c q;
        },
      )

  -- In a sound inode cache `WriteBack` of a handle that the client holds returns, uses no freed
  -- handle, and leaves the cache sound, the references as they are, and the other handles that the
  -- client holds as they are.
  pub write_back-IsWritten :
      (p : Ptr) (c : InodeCache P)
      → IsSound laws c
      → 0 < held p c.cache
      → (d : InodeCache P) × (write_back P p c ≡ some d) × IsWritten c p d
  unfolding write_back
  write_back-IsWritten p c v more =
      let (h, here) = held_there laws c p v more in
      elim (Mode-cases h.mode_) [
        | inl writes ↦ (
          set_handle P p (record h { mode_ = Mode.inode_read })
              (record c { metadb_ = (Adaptor.put P c.clock h.key_ h.value_ c.metadb_).1 }),
          ground (arith, here, writes),
          cleaned (Adaptor.put P c.clock h.key_ h.value_ c.metadb_).1 p h c v here,
        )
        | inr (inl removes) ↦
            let (d, ran, w) = dropped (Adaptor.delete P h.key_ c.metadb_) p h.key_ c v in
            (d, ground (arith, here, removes, ran), w)
        | inr (inr reads) ↦ (
          c,
          ground (arith, here, reads),
          record { sound = v; same_held = λ q. refl; kept = λ q _ _. refl },
        )
      ]

  batch_one-IsWritten :
      (p : Ptr) (batch : List Update) (c : InodeCache P)
      → IsSound laws c
      → 0 < held p c.cache
      → (out : List Update) × (d : InodeCache P) × (batch_one P p batch c ≡ some (out, d))
        × IsWritten c p d
  unfolding batch_one
  batch_one-IsWritten p batch c v more =
      let (h, here) = held_there laws c p v more in
      elim (Mode-cases h.mode_) [
        | inl writes ↦ (
          batch ++ puts h.key_ h.value_ ∷ [],
          set_handle P p (record h { mode_ = Mode.inode_read }) c,
          ground (arith, here, writes),
          cleaned c.metadb_ p h c v here,
        )
        | inr (inl removes) ↦
            let (d, ran, w) = dropped c.metadb_ p h.key_ c v in
            (batch ++ deletes h.key_ ∷ [], d, ground (arith, here, removes, ran), w)
        | inr (inr reads) ↦ (
          batch,
          c,
          ground (arith, here, reads),
          record { sound = v; same_held = λ q. refl; kept = λ q _ _. refl },
        )
      ]

  -- The same for `BatchCommit` of two handles that the client holds.
  pub batch_commit-IsSound :
      (p1 p2 : Ptr) (c : InodeCache P)
      → IsSound laws c
      → 0 < held p1 c.cache
      → 0 < held p2 c.cache
      → (d : InodeCache P) × (batch_commit P p1 p2 c ≡ some d)
        × IsSound laws d
        × ((q : Ptr) → held q d.cache ≡ held q c.cache)
  unfolding batch_commit
  batch_commit-IsSound p1 p2 c v one two =
      let (batch1, d, first, w) = batch_one-IsWritten p1 [] c v one in
      let still : 0 < held p2 d.cache = subst (λ (n : ℕ). 0 < n) (sym (w.same_held p2)) two in
      let (batch2, e, second, x) = batch_one-IsWritten p2 batch1 d w.sound still in
      (
        record e { metadb_ = (Adaptor.write P batch2 e.metadb_).1 },
        ground (arith, first, second),
        set_table-IsSound (Adaptor.write P batch2 e.metadb_).1 e x.sound,
        λ q. x.same_held q ∙ w.same_held q,
      )

  -- WriteBack of a handle in mode WRITE, where Put returns 0: the table has the value of the
  -- handle under its key, and what it had under every other key.
  pub write_back-get :
      (db_laws : DbLaws P) (p : Ptr) (h : InodeCacheHandle P) (j : MetaKey) (c : InodeCache P)
      → handle_at P p c ≡ some h
      → h.mode_ ≡ Mode.inode_write
      → (Adaptor.put P c.clock h.key_ h.value_ c.metadb_).0 ≡ true
      → (d : InodeCache P) × (write_back P p c ≡ some d)
        × (Adaptor.get P j d.metadb_
            ≡ (if h.key_ == j then some h.value_ else Adaptor.get P j c.metadb_))
  unfolding write_back set_handle
  write_back-get db_laws p h j c here writes ok = (
    set_handle P p (record h { mode_ = Mode.inode_read })
        (record c { metadb_ = (Adaptor.put P c.clock h.key_ h.value_ c.metadb_).1 }),
    ground (arith, here, writes),
    get-put db_laws c.metadb_ c.clock h.key_ j h.value_ ok,
  )
