-- ===== src/Icache/Tidy.antt =====
-- `Get` where what the client does not hold is in mode READ: the table stays as it is.
use tablefs.Base.{
  suc, ◌≡◌, sym, ap, ◌∙◌, false, some, Option, arith, nat_eq, nat_beq, ◌>>=◌, >>=-eq-some,
  if◌then◌else◌, Option-cases, inl, inr,
}
use mathlib.Core.Path.{subst}
use tablefs.Base.Maps
use tablefs.Base.Maps.{lookup-insert}
use tablefs.Key.{MetaKey}
use tablefs.Adaptor
use tablefs.Value.{InodeValue}
use tablefs.Platform.{Platform, Ptr}
use tablefs.Platform.Caching.{CacheLaws}
use tablefs.Icache.{
  InodeCache, InodeCacheHandle, Mode, above_read, handle_at, set_handle, clean_all, add_handle, get,
}
use tablefs.Icache.Heap.{handle_at-set_handle}
use tablefs.Icache.Sound.{IsSound}
use tablefs.Icache.Getting.{looked, looked-IsSound}
use tablefs.Icache.Dropping.{AreClean, clean_all-IsQuiet}
use tablefs.Icache.Deleting.{IsTidyBut}

module _ {P : Platform} (laws : CacheLaws P) where
  open laws use {live, held, bound, held-live}
  open P use {Cache, cache_value, cache_lookup, cache_insert}

  -- What the client does not hold is in mode READ.
  abbrev pub IsTidy : InodeCache P → Type 0
  IsTidy c =
      (q : Ptr) (h : InodeCacheHandle P)
      → handle_at P q c ≡ some h
      → held q c.cache ≡ 0
      → h.mode_ ≡ Mode.inode_read

  -- The client holds no handle of the key.
  abbrev pub IsUnheld : MetaKey → InodeCache P → Type 0
  IsUnheld key c =
      (q : Ptr) (h : InodeCacheHandle P)
      → handle_at P q c ≡ some h
      → h.key_ ≡ key
      → held q c.cache ≡ 0

  -- What is then known of the handle that Get returns.
  pub record IsOnly (c : InodeCache P) (p : Ptr) (d : InodeCache P) : Type 0 where
    pub same_table : d.metadb_ ≡ c.metadb_
    pub tidy : IsTidyBut laws p d
    pub was_unheld : held p c.cache ≡ 0

  unheld_of_dead : (q : Ptr) (c : Cache) → live q c ≡ false → held q c ≡ 0
  unheld_of_dead q c dead = ground (arith, dead, held-live q c)

  pub added-IsOnly :
      (key : MetaKey) (value : InodeValue) (mode : Mode) (c d : InodeCache P) (p : Ptr)
      → IsSound laws c
      → IsTidy c
      → add_handle P key value mode c ≡ some (p, d)
      → IsOnly c p d
  unfolding add_handle handle_at
  added-IsOnly key value mode c d p v tidy ran =
      let p0 = c.next_handle in
      let free : live p0 c.cache ≡ false = ground (arith, v.fresh p0) in
      let h : InodeCacheHandle P = record {
        key_ = key;
        value_ = value;
        mode_ = mode;
        pointer = (cache_insert key p0 c.cache).0;
      } in
      let after = (cache_insert key p0 c.cache).2 in
      let c2 = record c {
        cache = after;
        handles = Maps.insert p0 h c.handles;
        next_handle = suc p0;
      } in
      let dropped = (cache_insert key p0 c.cache).1 in
      let (b, cleaned, made) = >>=-eq-some (clean_all P dropped c2) _ ran in
      let same_p : p0 ≡ p = cc (made) in
      let same_d : b ≡ d = cc (made) in
      let drops = laws.insert_drops key p0 c.cache free in
      let clean : AreClean dropped c2 = λ q g there e.
        let un = drops.unheld q there in
        let count = laws.insert_held key p0 q c.cache free in
        tidy q g (ground (arith, lookup-insert p0 q h c.handles, un, count, e))
          (ground (arith, un, count)) in
      let quiet = clean_all-IsQuiet dropped c2 b clean cleaned in
      let found : IsOnly c p0 b = record {
        same_table = quiet.same_table;
        tidy = λ q g other e un.
            let count = laws.insert_held key p0 q c.cache free in
            let un' : held q after ≡ 0 = sym (ap (held q) quiet.same_cache) ∙ un in
            tidy q g (ground (arith, lookup-insert p0 q h c.handles, other, quiet.sub q g e))
              (ground (arith, un', count, other));
        was_unheld = unheld_of_dead p0 c.cache free;
      } in
      subst (λ o. IsOnly c o d) same_p (subst (IsOnly c p0) same_d found)

  -- What Get makes of the handle that is added, and of the one that is found.
  abbrev pub made_here : Ptr × InodeCache P → Option (Option Ptr × InodeCache P)
  made_here o = some (some o.0, o.1)

  abbrev pub hit_here :
      Mode → Ptr → InodeCache P → InodeCacheHandle P → Option (Option Ptr × InodeCache P)
  hit_here mode r c h =
      some (some r, if above_read mode then set_handle P r (record h { mode_ = mode }) c else c)

  pub get-IsOnly :
      (key : MetaKey) (mode : Mode) (c d : InodeCache P) (p : Ptr)
      → IsSound laws c
      → IsTidy c
      → IsUnheld key c
      → get P key mode c ≡ some (some p, d)
      → IsOnly c p d
  unfolding get handle_at set_handle
  get-IsOnly key mode c d p v tidy unheld ran = elim (Option-cases (cache_lookup key c.cache).0) [
    | inl missed ↦ elim (Option-cases (Adaptor.get P key c.metadb_)) [
      | inl absent ↦ absurd (ground (arith, ran, missed, absent))
      | inr (value, there) ↦
          let c1 = looked laws key c in
          let same : (q : Ptr) → held q c1.cache ≡ held q c.cache =
            λ q. laws.lookup_missed key q c.cache missed in
          let made : (add_handle P key value mode c1 >>= made_here) ≡ some (some p, d) =
            ground (arith, ran, missed, there) in
          let ((p1, d1), added, out) = >>=-eq-some (add_handle P key value mode c1) _ made in
          let same_p : p1 ≡ p = cc (out) in
          let same_d : d1 ≡ d = cc (out) in
          let added' : add_handle P key value mode c1 ≡ some (p, d) =
            ground (arith, added, same_p, same_d) in
          let only =
            added-IsOnly key value mode c1 d p (looked-IsSound laws key c v)
              (λ q g e un. tidy q g e (sym (same q) ∙ un)) added' in
          record {
            same_table = only.same_table;
            tidy = only.tidy;
            was_unheld = sym (same p) ∙ only.was_unheld;
          }
    ]
    | inr (ch, found) ↦
        let c1 = looked laws key c in
        let r = cache_value ch c1.cache in
        let count : (q : Ptr)
            → held q c1.cache ≡ (if nat_beq q r then suc (held q c.cache) else held q c.cache) =
          λ q. laws.lookup_held key q ch c.cache found in
        let made : (handle_at P r c1 >>= hit_here mode r c1) ≡ some (some p, d) =
          ground (arith, ran, found) in
        let (h, here, out) = >>=-eq-some (handle_at P r c1) _ made in
        let h' = record h { mode_ = mode } in
        let b = if above_read mode then set_handle P r h' c1 else c1 in
        let same_p : r ≡ p = cc (out) in
        let same_d : b ≡ d = cc (out) in
        let only : IsOnly c r b = record {
          same_table = ground arith;
          tidy = λ q g other e un.
              tidy q g (ground (arith, handle_at-set_handle r q h' c1, other, e))
                (ground (arith, un, count q, other));
          was_unheld =
              unheld r h here (v.keyed key r h (laws.lookup_hit key ch c.cache found) here);
        } in
        subst (λ o. IsOnly c o d) same_p (subst (IsOnly c r) same_d only)
  ]
