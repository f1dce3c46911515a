-- ===== src/Icache/Gone.antt =====
-- The deleter on handles of which one is in mode DELETE.
use tablefs.Base.{
  ◌≡◌, refl, ap, ◌∙◌, true, false, some, none, List, [], ◌∷◌, arith, nat_eq, nat_beq, nat_beq→eq,
  >>=-eq-some, if◌then◌else◌, Bool-cases, Option-cases, inl, inr,
}
use mathlib.Core.Path.{subst}
use tablefs.Base.Maps
use tablefs.Base.Maps.{lookup-erase}
use tablefs.Key.{key_eq}
use tablefs.Adaptor
use tablefs.Platform.{Platform, Ptr}
use tablefs.Platform.Caching.{contains, AreDistinct}
use tablefs.Icache.{
  InodeCache, InodeCacheHandle, Mode, handle_at, clean_inode_handle, clean_all, flush,
}
use tablefs.Icache.Dropping.{AreClean, clean_all-IsQuiet}

module _ {P : Platform} where
  -- All of `dropped` but `p` are in mode READ.
  abbrev pub AreCleanBut : Ptr → List Ptr → InodeCache P → Type 0
  AreCleanBut p dropped c =
      (q : Ptr) (h : InodeCacheHandle P)
      → contains dropped q ≡ true
      → nat_beq q p ≡ false
      → handle_at P q c ≡ some h
      → h.mode_ ≡ Mode.inode_read

  -- What the deleter leaves where it may get `p`, whose handle is in mode DELETE.
  pub record IsGone (p : Ptr) (h : InodeCacheHandle P) (dropped : List Ptr) (c d : InodeCache P)
      : Type 0 where
    pub table :
        d.metadb_ ≡ (if contains dropped p then Adaptor.delete P h.key_ c.metadb_ else c.metadb_)
    pub same_cache : d.cache ≡ c.cache
    pub sub :
        (q : Ptr) (g : InodeCacheHandle P) → handle_at P q d ≡ some g → handle_at P q c ≡ some g
    pub freed : contains dropped p ≡ true → handle_at P p d ≡ none
    pub stays : contains dropped p ≡ false → handle_at P p d ≡ some h

  pub clean_all-IsGone :
      (p : Ptr) (h : InodeCacheHandle P) (dropped : List Ptr) (c d : InodeCache P)
      → handle_at P p c ≡ some h
      → h.mode_ ≡ Mode.inode_delete
      → AreDistinct dropped
      → AreCleanBut p dropped c
      → clean_all P dropped c ≡ some d
      → IsGone p h dropped c d
  unfolding clean_all clean_inode_handle flush handle_at
  clean_all-IsGone p h [] c d here mode distinct clean ran =
      let same : c ≡ d = cc (ran) in
      subst (IsGone p h [] c) same (record {
        table = refl;
        same_cache = refl;
        sub = λ q g e. e;
        freed = λ e. absurd (cc e);
        stays = λ e. here;
      })
  clean_all-IsGone p h (r ∷ rs) c d here mode distinct clean ran =
      let (b, first, rest) = >>=-eq-some (clean_inode_handle P r c) (λ b. clean_all P rs b) ran in
      let (g, there, made) = >>=-eq-some (handle_at P r c) _ first in
      let after = record c {
        metadb_ = flush P c.clock g c.metadb_;
        handles = Maps.erase r c.handles;
      } in
      let same : after ≡ b = cc (made) in
      let rest' : clean_all P rs after ≡ some d = ap (clean_all P rs) same ∙ rest in
      let less : (q : Ptr) (f : InodeCacheHandle P)
          → handle_at P q after ≡ some f
          → handle_at P q c ≡ some f =
        λ q f e. ground (arith, lookup-erase r q c.handles, e) in
      elim (Bool-cases (nat_beq r p)) [
        | inl it ↦
            let own : r ≡ p = nat_beq→eq r p it in
            let clean_rest : AreClean rs after = λ q f in_rs e. elim (Bool-cases (nat_beq q p)) [
              | inl again ↦ absurd (ground (arith, distinct.0, in_rs, nat_beq→eq q p again, own))
              | inr not_p ↦ clean q f (ground (arith, in_rs)) not_p (less q f e)
            ] in
            let quiet = clean_all-IsQuiet rs after d clean_rest rest' in
            record {
              table = ground (arith, own, there, here, mode, quiet.same_table);
              same_cache = quiet.same_cache;
              sub = λ q f e. less q f (quiet.sub q f e);
              freed = λ _. elim (Option-cases (handle_at P p d)) [
                | inl none_there ↦ none_there
                | inr (f, e) ↦
                    absurd (ground (arith, quiet.sub p f e, lookup-erase r p c.handles, it))
              ];
              stays = λ e. absurd (ground (arith, e, it));
            }
        | inr other ↦
            let reads : g.mode_ ≡ Mode.inode_read = clean r g (ground arith) other there in
            let more =
              clean_all-IsGone p h rs after d
                (ground (arith, lookup-erase r p c.handles, other, here)) mode distinct.1
                (λ q f in_rs not_p e. clean q f (ground (arith, in_rs)) not_p (less q f e)) rest' in
            record {
              table = ground (arith, other, reads, more.table);
              same_cache = more.same_cache;
              sub = λ q f e. less q f (more.sub q f e);
              freed = λ e. more.freed (ground (arith, e, other));
              stays = λ e. more.stays (ground (arith, e));
            }
      ]
