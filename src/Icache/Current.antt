-- ===== src/Icache/Current.antt =====
-- `Get` where the handles of the key have the value of the table.
use tablefs.Base.{◌≡◌, ◌∙◌, some, arith, if◌then◌else◌, Option-cases, inl, inr, ◌>>=◌, >>=-eq-some}
use tablefs.Key.{MetaKey}
use tablefs.Adaptor
use tablefs.Value.{InodeValue}
use tablefs.Platform.{Platform, Ptr}
use tablefs.Platform.Caching.{CacheLaws}
use tablefs.Icache.{
  InodeCache, InodeCacheHandle, Mode, above_read, handle_at, set_handle, add_handle, get,
}
use tablefs.Icache.Heap.{handle_at-set_handle}
use tablefs.Icache.Sound.{IsSound}
use tablefs.Icache.Operations.{add_handle_lem}
use tablefs.Icache.Getting.{looked, looked-IsSound}
use tablefs.Icache.Tidy.{made_here, hit_here}

module _ {P : Platform} (laws : CacheLaws P) where
  open P use {cache_value, cache_lookup}

  -- The handles of the key have the value.
  abbrev pub IsCurrent : MetaKey → InodeValue → InodeCache P → Type 0
  IsCurrent key value c =
      (q : Ptr) (h : InodeCacheHandle P)
      → handle_at P q c ≡ some h
      → h.key_ ≡ key
      → h.value_ ≡ value

  pub get-value :
      (key : MetaKey) (mode : Mode) (value : InodeValue) (c d : InodeCache P) (p : Ptr)
      (g : InodeCacheHandle P)
      → IsSound laws c
      → IsCurrent key value c
      → Adaptor.get P key c.metadb_ ≡ some value
      → get P key mode c ≡ some (some p, d)
      → handle_at P p d ≡ some g
      → g.value_ ≡ value
  unfolding get handle_at set_handle
  get-value key mode value c d p g v current there ran here =
      elim (Option-cases (cache_lookup key c.cache).0) [
        | inl missed ↦
            let c1 = looked laws key c in
            let made : (add_handle P key value mode c1 >>= made_here laws) ≡ some (some p, d) =
              ground (arith, ran, missed, there) in
            let ((p1, d1), added, out) = >>=-eq-some (add_handle P key value mode c1) _ made in
            let (p2, d2, added2, new) =
              add_handle_lem laws key value mode c1 (looked-IsSound laws key c v) in
            let at : handle_at P p2 d2 ≡ some g = ground (arith, added, added2, out, here) in
            ground (arith, at, new.here, new.its_value)
        | inr (ch, found) ↦
            let c1 = looked laws key c in
            let r = cache_value ch c1.cache in
            let made : (handle_at P r c1 >>= hit_here laws mode r c1) ≡ some (some p, d) =
              ground (arith, ran, found) in
            let (h, at, out) = >>=-eq-some (handle_at P r c1) _ made in
            let own = v.keyed key r h (laws.lookup_hit key ch c.cache found) at in
            let h' = record h { mode_ = mode } in
            let b = if above_read mode then set_handle P r h' c1 else c1 in
            let same_p : r ≡ p = cc (out) in
            let same_d : b ≡ d = cc (out) in
            let at_b : handle_at P r b ≡ some g = ground (arith, same_p, same_d, here) in
            let same : g.value_ ≡ h.value_ =
              ground (arith, at_b, at, handle_at-set_handle r r h' c1) in
            same ∙ current r h at own
      ]
