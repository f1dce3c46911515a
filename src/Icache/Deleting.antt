-- ===== src/Icache/Deleting.antt =====
-- A handle in mode DELETE that is released and evicted: its key leaves the table.
use tablefs.Base.{
  ◌<◌, ◌≡◌, sym, ap, ◌∙◌, true, false, some, none, arith, nat_eq, nat_beq, nat_beq→eq, Bool-cases,
  inl, inr,
}
use mathlib.Core.Path.{subst}
use tablefs.Key.{MetaKey, key_eq}
use tablefs.Adaptor
use tablefs.Platform.{Platform, Ptr}
use tablefs.Platform.Caching.{CacheLaws, contains}
use tablefs.Icache.{InodeCache, InodeCacheHandle, Mode, handle_at, release, evict}
use tablefs.Icache.Sound.{IsSound}
use tablefs.Icache.Operations.{release_lem, evict_lem}
use tablefs.Icache.Dropping.{AreClean, clean_all-IsQuiet, DropLaws}
use tablefs.Icache.Gone.{IsGone, clean_all-IsGone}

module _ {P : Platform} (laws : CacheLaws P) where
  open laws use {live, held, bound, held-live}
  open P use {Cache, cache_value, cache_release, cache_erase}

  -- An entry that is neither in the table nor held does not live.
  pub record LifeLaws : Type 0 where
    pub lives_bound :
        (q : Ptr) (c : Cache)
        → live q c ≡ true
        → held q c ≡ 0
        → (k : MetaKey) × (bound k c ≡ some q)

  -- What the client does not hold is in mode READ, `p` aside.
  abbrev pub IsTidyBut : Ptr → InodeCache P → Type 0
  IsTidyBut p c =
      (q : Ptr) (h : InodeCacheHandle P)
      → nat_beq q p ≡ false
      → handle_at P q c ≡ some h
      → held q c.cache ≡ 0
      → h.mode_ ≡ Mode.inode_read

  module _ (drops : DropLaws laws) (life : LifeLaws) where
    release-IsGone :
        (p : Ptr) (h : InodeCacheHandle P) (c d : InodeCache P)
        → IsSound laws c
        → 0 < held p c.cache
        → handle_at P p c ≡ some h
        → h.mode_ ≡ Mode.inode_delete
        → release P p c ≡ some d
        → IsGone p h
            (cache_release h.pointer c.cache).0
            (record c { cache = (cache_release h.pointer c.cache).1 })
            d
    unfolding release handle_at
    release-IsGone p h c d v more here mode ran =
        let own : cache_value h.pointer c.cache ≡ p = v.owned p h here in
        let outstanding : 0 < held (cache_value h.pointer c.cache) c.cache =
          subst (λ (q : Ptr). 0 < held q c.cache) (sym own) more in
        clean_all-IsGone p h (cache_release h.pointer c.cache).0
          (record c { cache = (cache_release h.pointer c.cache).1 }) d here mode
          (laws.release_drops h.pointer c.cache outstanding).distinct
          (λ q g there not_p e.
            absurd (
              ground (arith, drops.release_only h.pointer c.cache q outstanding there, own, not_p)))
          (ground (arith, here, ran))

    -- The eviction of `p`, which is no longer held.
    evict_gone :
        (p : Ptr) (h : InodeCacheHandle P) (c d : InodeCache P)
        → IsSound laws c
        → IsTidyBut p c
        → held p c.cache ≡ 0
        → handle_at P p c ≡ some h
        → h.mode_ ≡ Mode.inode_delete
        → evict P h.key_ c ≡ some d
        → d.metadb_ ≡ Adaptor.delete P h.key_ c.metadb_
    unfolding evict handle_at
    evict_gone p h c d v tidy unheld here mode ran =
        let c' = (cache_erase h.key_ c.cache).1 in
        let dropped = (cache_erase h.key_ c.cache).0 in
        let all = laws.erase_drops h.key_ c.cache in
        let gone =
          clean_all-IsGone p h dropped (record c { cache = c' }) d here mode all.distinct
            (λ q g there not_p e.
              tidy q g not_p e (sym (laws.erase_held h.key_ q c.cache) ∙ all.unheld q there))
            ran in
        elim (Bool-cases (contains dropped p)) [
          | inl there ↦ ground (arith, gone.table, there)
          | inr kept ↦
              let lives : live p c' ≡ true = ground (arith, all.left p, kept, v.heap p, here) in
              let (k, b) =
                life.lives_bound p c' lives (laws.erase_held h.key_ p c.cache ∙ unheld) in
              let (other, before) = laws.erase_bound h.key_ k p c.cache b in
              absurd (other (sym (v.keyed k p h before here)))
        ]

    -- The eviction where all that is not held is in mode READ.
    evict_quiet :
        (p : Ptr) (key : MetaKey) (c d : InodeCache P)
        → IsTidyBut p c
        → handle_at P p c ≡ none
        → evict P key c ≡ some d
        → d.metadb_ ≡ c.metadb_
    unfolding evict handle_at
    evict_quiet p key c d tidy freed ran =
        let all = laws.erase_drops key c.cache in
        let clean : AreClean (cache_erase key c.cache).0
            (record c { cache = (cache_erase key c.cache).1 }) =
          λ q g there e. elim (Bool-cases (nat_beq q p)) [
            | inl it ↦ absurd (ground (arith, nat_beq→eq q p it, e, freed))
            | inr other ↦
                tidy q g other e (sym (laws.erase_held key q c.cache) ∙ all.unheld q there)
          ] in
        (clean_all-IsQuiet (cache_erase key c.cache).0
          (record c { cache = (cache_erase key c.cache).1 }) d clean ran).same_table

    -- `Release(handle)` and then `Evict(key)`, for the only reference to a handle in mode DELETE.
    pub release-evict-gone :
        (p : Ptr) (h : InodeCacheHandle P) (c : InodeCache P)
        → IsSound laws c
        → IsTidyBut p c
        → held p c.cache ≡ 1
        → handle_at P p c ≡ some h
        → h.mode_ ≡ Mode.inode_delete
        → (d : InodeCache P) × (e : InodeCache P) × (release P p c ≡ some d)
          × (evict P h.key_ d ≡ some e)
          × (e.metadb_ ≡ Adaptor.delete P h.key_ c.metadb_)
    unfolding handle_at
    release-evict-gone p h c v tidy once here mode =
        let more : 0 < held p c.cache = omega (arith, once) in
        let (d, released, sound, count, kept) = release_lem laws p c v more in
        let (e, evicted, _) = evict_lem laws h.key_ d sound in
        let gone = release-IsGone p h c d v more here mode released in
        let tidy' : IsTidyBut p d =
          λ q g not_p f un. tidy q g not_p (gone.sub q g f) (ground (arith, count q, not_p, un)) in
        let unheld : held p d.cache ≡ 0 = ground (arith, count p, once) in
        elim (Bool-cases (contains (cache_release h.pointer c.cache).0 p)) [
          | inl there ↦ (
            d,
            e,
            released,
            evicted,
            evict_quiet p h.key_ d e tidy' (gone.freed there) evicted
                ∙ ground (arith, gone.table, there),
          )
          | inr stays ↦ (
            d,
            e,
            released,
            evicted,
            evict_gone p h d e sound tidy' unheld (gone.stays stays) mode evicted
                ∙ ap (Adaptor.delete P h.key_) (ground (arith, gone.table, stays)),
          )
        ]
