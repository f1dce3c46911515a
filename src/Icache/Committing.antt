-- ===== src/Icache/Committing.antt =====
-- BatchCommit of a handle in mode DELETE and one in mode WRITE, and the releases behind it.
use tablefs.Base.{
  ◌<◌, ◌≡◌, refl, sym, ap, ◌∙◌, false, some, [], ◌∷◌, arith, nat_eq, nat_beq, nat_beq→eq,
  Bool-cases, inl, inr,
}
use mathlib.Core.Path.{subst}
use tablefs.Key.{MetaKey}
use tablefs.Adaptor
use tablefs.Platform.{Platform, Ptr, puts, deletes}
use tablefs.Platform.Caching.{CacheLaws}
use tablefs.Icache.{
  InodeCache, InodeCacheHandle, Mode, handle_at, set_handle, release, evict, batch_one,
  batch_commit,
}
use tablefs.Icache.Heap.{handle_at-set_handle}
use tablefs.Icache.Sound.{IsSound}
use tablefs.Icache.Operations.{release_lem, evict_lem}
use tablefs.Icache.Writing.{batch_commit-IsSound}
use tablefs.Icache.Dropping.{AreClean, clean_all-IsQuiet, DropLaws, release-IsStill}
use tablefs.Icache.Deleting.{LifeLaws, IsTidyBut, release-evict-gone}
use tablefs.Icache.Tidy.{IsTidy}

module _ {P : Platform} (laws : CacheLaws P) where
  open laws use {held}
  open P use {cache_erase}

  -- What Evict leaves where all that is not held is in mode READ.
  pub record IsEvicted (key : MetaKey) (c d : InodeCache P) : Type 0 where
    pub same_table : d.metadb_ ≡ c.metadb_
    pub same_cache : d.cache ≡ (cache_erase key c.cache).1
    pub sub :
        (q : Ptr) (h : InodeCacheHandle P) → handle_at P q d ≡ some h → handle_at P q c ≡ some h

  pub evict-IsEvicted :
      (key : MetaKey) (c d : InodeCache P)
      → IsTidy laws c
      → evict P key c ≡ some d
      → IsEvicted key c d
  unfolding evict handle_at
  evict-IsEvicted key c d tidy ran =
      let all = laws.erase_drops key c.cache in
      let erased = record c { cache = (cache_erase key c.cache).1 } in
      let clean : AreClean (cache_erase key c.cache).0 erased =
        λ q g there e. tidy q g e (sym (laws.erase_held key q c.cache) ∙ all.unheld q there) in
      let quiet = clean_all-IsQuiet (cache_erase key c.cache).0 erased d clean ran in
      record { same_table = quiet.same_table; same_cache = quiet.same_cache; sub = quiet.sub }

  -- What BatchCommit leaves.
  pub record IsCommitted (p r : Ptr) (h g : InodeCacheHandle P) (c d : InodeCache P) : Type 0 where
    pub commits : batch_commit P p r c ≡ some d
    pub table :
        d.metadb_ ≡ (Adaptor.write P (deletes h.key_ ∷ puts g.key_ g.value_ ∷ []) c.metadb_).1
    pub old_here : handle_at P p d ≡ some h
    pub new_here : handle_at P r d ≡ some (record g { mode_ = Mode.inode_read })
    pub sound : IsSound laws d
    pub same_held : (q : Ptr) → held q d.cache ≡ held q c.cache
    pub tidy : IsTidy laws d

  pub batch_commit-IsCommitted :
      (p r : Ptr) (h g : InodeCacheHandle P) (c : InodeCache P)
      → IsSound laws c
      → IsTidy laws c
      → 0 < held p c.cache
      → 0 < held r c.cache
      → nat_beq p r ≡ false
      → handle_at P p c ≡ some h
      → h.mode_ ≡ Mode.inode_delete
      → handle_at P r c ≡ some g
      → g.mode_ ≡ Mode.inode_write
      → (d : InodeCache P) × IsCommitted p r h g c d
  unfolding batch_commit batch_one set_handle handle_at
  batch_commit-IsCommitted p r h g c v tidy one two apart here gone there writes =
      let (b, evicted, k) = evict_lem laws h.key_ c v in
      let e = evict-IsEvicted h.key_ c b tidy evicted in
      let here_b : handle_at P p b ≡ some h = k.kept p one ∙ here in
      let there_b : handle_at P r b ≡ some g = k.kept r two ∙ there in
      let g' = record g { mode_ = Mode.inode_read } in
      let us = deletes h.key_ ∷ puts g.key_ g.value_ ∷ [] in
      let set = set_handle P r g' b in
      let d = record set { metadb_ = (Adaptor.write P us b.metadb_).1 } in
      let ran : batch_commit P p r c ≡ some d =
        ground (arith, here, gone, evicted, there_b, writes) in
      let (d', ran', sound, count) = batch_commit-IsSound laws p r c v one two in
      let same : d' ≡ d = cc (ran, ran') in
      (
        d,
        record {
          commits = ran;
          table = ap (λ a. (Adaptor.write P us a).1) e.same_table;
          old_here = ground (arith, handle_at-set_handle r p g' b, apart, here_b);
          new_here = ground (arith, handle_at-set_handle r r g' b);
          sound = subst (IsSound laws) same sound;
          same_held = λ q. k.same_held q;
          tidy = λ q f at un. elim (Bool-cases (nat_beq q r)) [
            | inl it ↦ ground (arith, it, handle_at-set_handle r q g' b, at)
            | inr other ↦
                tidy q f (e.sub q f (ground (arith, other, handle_at-set_handle r q g' b, at)))
                  (sym (k.same_held q) ∙ un)
          ];
        },
      )

  module _ (drops : DropLaws laws) (life : LifeLaws laws) where
    -- BatchCommit, and what Rename does behind it: the release of both handles, and Evict.
    pub committed-gone :
        (p r : Ptr) (h g : InodeCacheHandle P) (c : InodeCache P)
        → IsSound laws c
        → IsTidy laws c
        → held p c.cache ≡ 1
        → held r c.cache ≡ 1
        → nat_beq p r ≡ false
        → handle_at P p c ≡ some h
        → h.mode_ ≡ Mode.inode_delete
        → handle_at P r c ≡ some g
        → g.mode_ ≡ Mode.inode_write
        → (d : InodeCache P) × (e : InodeCache P) × (f : InodeCache P) × (i : InodeCache P)
          × (batch_commit P p r c ≡ some d)
          × (release P r d ≡ some e)
          × (release P p e ≡ some f)
          × (evict P h.key_ f ≡ some i)
          × (i.metadb_
              ≡ Adaptor.delete P h.key_
                  (Adaptor.write P (deletes h.key_ ∷ puts g.key_ g.value_ ∷ []) c.metadb_).1)
    committed-gone p r h g c v tidy one two apart here gone there writes =
        let (d, k) =
          batch_commit-IsCommitted p r h g c v tidy (omega (arith, one)) (omega (arith, two)) apart
            here gone there writes in
        let held_r : 0 < held r d.cache = ground (arith, k.same_held r, two) in
        let (e, released, sound, count, kept) = release_lem laws r d k.sound held_r in
        let still =
          release-IsStill laws drops r d e (record g { mode_ = Mode.inode_read }) k.sound held_r
            k.new_here refl released in
        let once : held p e.cache ≡ 1 = ground (arith, count p, k.same_held p, one, apart) in
        let here_e : handle_at P p e ≡ some h = kept p (omega (arith, once)) ∙ k.old_here in
        let tidy_e : IsTidyBut laws p e = λ q f not_p at un. elim (Bool-cases (nat_beq q r)) [
          | inl it ↦ ground (arith, nat_beq→eq q r it, still.sub q f at, k.new_here)
          | inr other ↦ k.tidy q f (still.sub q f at) (ground (arith, count q, other, un))
        ] in
        let (f, i, released_p, evicted, table) =
          release-evict-gone laws drops life p h e sound tidy_e once here_e gone in
        (
          d,
          e,
          f,
          i,
          k.commits,
          released,
          released_p,
          evicted,
          table ∙ ap (Adaptor.delete P h.key_) (still.same_table ∙ k.table),
        )
