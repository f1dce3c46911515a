-- ===== src/Icache/Dropping.antt =====
-- The deleter on handles in mode READ, and what Release and Evict then do to the table: nothing.
-- The laws are those of lib/leveldb/include/leveldb/cache.h: Release gives back one entry, and Erase
-- takes the entry of its key out of the table.
use tablefs.Base.{
  ◌<◌, ◌≡◌, refl, sym, ap, ◌∙◌, true, some, List, [], ◌∷◌, arith, nat_eq, >>=-eq-some,
}
use mathlib.Core.Path.{subst}
use tablefs.Base.Maps
use tablefs.Base.Maps.{lookup-erase}
use tablefs.Key.{MetaKey}
use tablefs.Platform.{Platform, Ptr}
use tablefs.Platform.Caching.{CacheLaws, contains}
use tablefs.Icache.{
  InodeCache, InodeCacheHandle, Mode, handle_at, clean_inode_handle, clean_all, flush, release,
  evict,
}
use tablefs.Icache.Sound.{IsSound}

module _ {P : Platform} where
  -- The handles that `dropped` names are in mode READ.
  abbrev pub AreClean : List Ptr → InodeCache P → Type 0
  AreClean dropped c =
      (q : Ptr) (h : InodeCacheHandle P)
      → contains dropped q ≡ true
      → handle_at P q c ≡ some h
      → h.mode_ ≡ Mode.inode_read

  -- What the deleter does with them.
  pub record IsQuiet (c d : InodeCache P) : Type 0 where
    pub same_table : d.metadb_ ≡ c.metadb_
    pub same_cache : d.cache ≡ c.cache
    pub sub :
        (q : Ptr) (h : InodeCacheHandle P) → handle_at P q d ≡ some h → handle_at P q c ≡ some h

  clean_one :
      (p : Ptr) (c d : InodeCache P)
      → AreClean (p ∷ []) c
      → clean_inode_handle P p c ≡ some d
      → IsQuiet c d
  unfolding clean_inode_handle flush handle_at
  clean_one p c d clean ran =
      let (h, here, made) = >>=-eq-some (handle_at P p c) _ ran in
      let reads : h.mode_ ≡ Mode.inode_read = clean p h (ground arith) here in
      let after = record c {
        metadb_ = flush P c.clock h c.metadb_;
        handles = Maps.erase p c.handles;
      } in
      let same : after ≡ d = cc (made) in
      let quiet : IsQuiet c after = record {
        same_table = ground (arith, reads);
        same_cache = refl;
        sub = λ q g found. ground (arith, lookup-erase p q c.handles);
      } in
      subst (IsQuiet c) same quiet

  pub clean_all-IsQuiet :
      (dropped : List Ptr) (c d : InodeCache P)
      → AreClean dropped c
      → clean_all P dropped c ≡ some d
      → IsQuiet c d
  unfolding clean_all
  clean_all-IsQuiet [] c d clean ran =
      let same : c ≡ d = cc (ran) in
      subst (IsQuiet c) same
        (record { same_table = refl; same_cache = refl; sub = λ q h here. here })
  clean_all-IsQuiet (p ∷ ps) c d clean ran =
      let (b, first, rest) = >>=-eq-some (clean_inode_handle P p c) (λ b. clean_all P ps b) ran in
      let one = clean_one p c b (λ q h there. clean q h (ground (arith, there))) first in
      let more =
        clean_all-IsQuiet ps b d
          (λ q h there here. clean q h (ground (arith, there)) (one.sub q h here)) rest in
      record {
        same_table = more.same_table ∙ one.same_table;
        same_cache = more.same_cache ∙ one.same_cache;
        sub = λ q h here. one.sub q h (more.sub q h here);
      }

  module _ (laws : CacheLaws P) where
    open laws use {held, bound}
    open P use {Cache, Handle, cache_value, cache_release, cache_erase}

    -- Release drops at most the entry that is given back, and Erase the one of its key.
    pub record DropLaws : Type 0 where
      pub release_only :
          (ch : Handle) (c : Cache) (q : Ptr)
          → 0 < held (cache_value ch c) c
          → contains (cache_release ch c).0 q ≡ true
          → q ≡ cache_value ch c
      pub erase_only :
          (k : MetaKey) (c : Cache) (q : Ptr)
          → contains (cache_erase k c).0 q ≡ true
          → bound k c ≡ some q

    -- What Release and Evict leave of the table and of the heap, where what they drop is clean.
    pub record IsStill (c d : InodeCache P) : Type 0 where
      pub same_table : d.metadb_ ≡ c.metadb_
      pub still_bound :
          (k : MetaKey) (q : Ptr) → bound k d.cache ≡ some q → bound k c.cache ≡ some q
      pub sub :
          (q : Ptr) (h : InodeCacheHandle P) → handle_at P q d ≡ some h → handle_at P q c ≡ some h

    module _ (drops : DropLaws) where
      pub release-IsStill :
          (p : Ptr) (c d : InodeCache P) (h : InodeCacheHandle P)
          → IsSound laws c
          → 0 < held p c.cache
          → handle_at P p c ≡ some h
          → h.mode_ ≡ Mode.inode_read
          → release P p c ≡ some d
          → IsStill c d
      unfolding release handle_at
      release-IsStill p c d h v more here reads ran =
          let own : cache_value h.pointer c.cache ≡ p = v.owned p h here in
          let outstanding : 0 < held (cache_value h.pointer c.cache) c.cache =
            subst (λ (q : Ptr). 0 < held q c.cache) (sym own) more in
          let c1 = record c { cache = (cache_release h.pointer c.cache).1 } in
          let ran1 : clean_all P (cache_release h.pointer c.cache).0 c1 ≡ some d =
            ground (arith, here, ran) in
          let clean : AreClean (cache_release h.pointer c.cache).0 c1 = λ q g there found. ground (
            arith,
            drops.release_only h.pointer c.cache q outstanding there,
            own,
            here,
            reads,
            found,
          ) in
          let quiet = clean_all-IsQuiet (cache_release h.pointer c.cache).0 c1 d clean ran1 in
          record {
            same_table = quiet.same_table;
            still_bound = λ k q b.
                laws.release_bound h.pointer k q c.cache outstanding
                  (sym (ap (bound k) quiet.same_cache) ∙ b);
            sub = quiet.sub;
          }

      pub evict-IsStill :
          (key : MetaKey) (c d : InodeCache P)
          → ((q : Ptr) (h : InodeCacheHandle P)
              → bound key c.cache ≡ some q
              → handle_at P q c ≡ some h
              → h.mode_ ≡ Mode.inode_read)
          → evict P key c ≡ some d
          → IsStill c d
      unfolding evict handle_at
      evict-IsStill key c d clean ran =
          let c1 = record c { cache = (cache_erase key c.cache).1 } in
          let quiet =
            clean_all-IsQuiet (cache_erase key c.cache).0 c1 d
              (λ q h there found. clean q h (drops.erase_only key c.cache q there) found) ran in
          record {
            same_table = quiet.same_table;
            still_bound = λ k q b.
                (laws.erase_bound key k q c.cache (sym (ap (bound k) quiet.same_cache) ∙ b)).1;
            sub = quiet.sub;
          }
