-- ===== src/Icache/Operations.antt =====
-- The operations of the inode cache keep its invariant, and none of them uses a handle that has
-- been freed.
use tablefs.Base.{
  ℕ, suc, ◌-◌, ◌<◌, ◌≡◌, refl, sym, ap, ◌∙◌, false, ◌||◌, none, some, arith, nat_beq, nat_eq,
  if◌then◌else◌, Bool-cases, inl, inr,
}
use mathlib.Core.Path.{subst}
use tablefs.Base.Maps
use tablefs.Base.Maps.{lookup-insert}
use tablefs.Key.{MetaKey}
use tablefs.Value.{InodeValue}
use tablefs.Platform.{Platform, Ptr}
use tablefs.Platform.Caching.{CacheLaws}
use tablefs.Icache.{InodeCache, InodeCacheHandle, Mode, handle_at, evict, release, add_handle}
use tablefs.Icache.Sound.{
  IsSound, IsPending, IsSettled, clean_all-IsSettled, pending, held_there, stays_owned,
}

module _ {P : Platform} (laws : CacheLaws P) where
  open laws use {live, held, bound, held-live, bound-live}
  open P use {Cache, cache_value, cache_erase, cache_release, cache_lookup, cache_insert}

  -- What an operation leaves as it was: the references that the client holds, and the handles
  -- behind them.
  pub record KeepsHeld (c d : InodeCache P) : Type 0 where
    pub sound : IsSound laws d
    pub same_held : (q : Ptr) → held q d.cache ≡ held q c.cache
    pub kept : (q : Ptr) → 0 < held q c.cache → handle_at P q d ≡ handle_at P q c

  pub evict_lem :
      (key : MetaKey) (c : InodeCache P)
      → IsSound laws c
      → (d : InodeCache P) × (evict P key c ≡ some d) × KeepsHeld c d
  unfolding evict handle_at
  evict_lem key c v =
      let cache' = (cache_erase key c.cache).1 in
      let p =
        pending laws c cache' (cache_erase key c.cache).0 v (laws.erase_drops key c.cache)
          (laws.erase_keeps key c.cache) (λ k q b. (laws.erase_bound key k q c.cache b).1) in
      let (d, ran, done) = clean_all-IsSettled laws p in
      (
        d,
        ran,
        record {
          sound = done.sound;
          same_held = λ q. ap (held q) done.same_cache ∙ laws.erase_held key q c.cache;
          kept =
              λ q h. done.kept q (subst (λ (n : ℕ). 0 < n) (sym (laws.erase_held key q c.cache)) h);
        },
      )

  -- `Release` of a handle that the client holds.
  pub release_lem :
      (p : Ptr) (c : InodeCache P)
      → IsSound laws c
      → 0 < held p c.cache
      → (d : InodeCache P) × (release P p c ≡ some d)
        × IsSound laws d
        × ((q : Ptr)
            → held q d.cache ≡ (if nat_beq q p then held q c.cache - 1 else held q c.cache))
        × ((q : Ptr) → 0 < held q d.cache → handle_at P q d ≡ handle_at P q c)
  unfolding release handle_at
  release_lem p c v h =
      let (g, found) = held_there laws c p v h in
      let own = v.owned p g found in
      let outstanding : 0 < held (cache_value g.pointer c.cache) c.cache =
        subst (λ (q : Ptr). 0 < held q c.cache) (sym own) h in
      let freed =
        pending laws c (cache_release g.pointer c.cache).1 (cache_release g.pointer c.cache).0 v
          (laws.release_drops g.pointer c.cache outstanding)
          (laws.release_keeps g.pointer c.cache outstanding)
          (λ k q b. laws.release_bound g.pointer k q c.cache outstanding b) in
      let (d, ran, done) = clean_all-IsSettled laws freed in
      (
        d,
        ground (arith, found, ran),
        done.sound,
        λ q.
            ap (held q) done.same_cache
            ∙ subst
                (λ (o : Ptr).
                  held q (cache_release g.pointer c.cache).1
                  ≡ (if nat_beq q o then held q c.cache - 1 else held q c.cache))
                own (laws.release_held g.pointer q c.cache outstanding),
        λ q more. done.kept q (subst (λ (n : ℕ). 0 < n) (ap (held q) done.same_cache) more),
      )

  -- The state of `Insert` before the deleter runs.
  abbrev added : MetaKey → InodeCacheHandle P → InodeCache P → InodeCache P
  added key h c = record c {
    cache = (cache_insert key c.next_handle c.cache).2;
    handles = Maps.insert c.next_handle h c.handles;
    next_handle = suc c.next_handle;
  }

  unused_next : (c : InodeCache P) → IsSound laws c → live c.next_handle c.cache ≡ false
  unused_next c v = elim (Bool-cases (live c.next_handle c.cache)) [
    | inl used ↦ absurd (omega (arith, v.fresh c.next_handle used))
    | inr free ↦ free
  ]

  unheld_next : (c : InodeCache P) → IsSound laws c → held c.next_handle c.cache ≡ 0
  unheld_next c v = ground (arith, held-live c.next_handle c.cache, unused_next c v)

  handle_at-added :
      (key : MetaKey) (h : InodeCacheHandle P) (c : InodeCache P) (q : Ptr)
      → handle_at P q (added key h c)
        ≡ (if nat_beq c.next_handle q then some h else handle_at P q c)
  unfolding handle_at
  handle_at-added key h c q = lookup-insert c.next_handle q h c.handles

  added-IsPending :
      (key : MetaKey) (h : InodeCacheHandle P) (c : InodeCache P)
      → IsSound laws c
      → h.key_ ≡ key
      → h.pointer ≡ (cache_insert key c.next_handle c.cache).0
      → IsPending laws
          (λ q. nat_beq q c.next_handle || live q c.cache)
          (cache_insert key c.next_handle c.cache).1
          (added key h c)
  added-IsPending key h c v same_key same_pointer =
      let p = c.next_handle in
      let free = unused_next c v in
      record {
        drops = laws.insert_drops key p c.cache free;
        heap = λ q. ground (arith, handle_at-added key h c q, v.heap q);
        fresh = λ q b. ground (arith, v.fresh q);
        owned = λ q g lives found. ground (
          arith,
          handle_at-added key h c q,
          same_pointer,
          laws.insert_value key p c.cache free,
          stays_owned laws c (cache_insert key p c.cache).2 v (laws.insert_keeps key p c.cache free)
              q g lives,
        );
        keyed = λ k q g b found. elim (laws.insert_bound key k p q c.cache free b) [
          | inl (same_k, same_p) ↦ ground (arith, handle_at-added key h c q, same_key)
          | inr old ↦
              ground
                (arith, handle_at-added key h c q, bound-live k q c.cache old, v.keyed k q g old)
        ];
      }

  -- What a new handle is, and what it leaves alone.
  pub record IsAdded (key : MetaKey) (value : InodeValue) (mode : Mode) (c : InodeCache P) (p : Ptr)
      (d : InodeCache P) : Type 0 where
    pub sound : IsSound laws d
    pub handle : InodeCacheHandle P
    pub here : handle_at P p d ≡ some handle
    pub its_key : handle.key_ ≡ key
    pub its_value : handle.value_ ≡ value
    pub its_mode : handle.mode_ ≡ mode
    pub unheld : held p c.cache ≡ 0
    pub unused : handle_at P p c ≡ none
    pub now_held : (q : Ptr) → held q d.cache ≡ (if nat_beq q p then 1 else held q c.cache)
    pub kept : (q : Ptr) → 0 < held q c.cache → handle_at P q d ≡ handle_at P q c

  added-IsAdded :
      (key : MetaKey) (h : InodeCacheHandle P) (c d : InodeCache P)
      → IsSound laws c
      → h.key_ ≡ key
      → IsSettled laws (added key h c) d
      → IsAdded key h.value_ h.mode_ c c.next_handle d
  added-IsAdded key h c d v same_key done =
      let p = c.next_handle in
      let free = unused_next c v in
      let none_yet = unheld_next c v in
      record {
        sound = done.sound;
        handle = h;
        here =
            ground (
              arith,
              done.kept p,
              laws.insert_held key p p c.cache free,
              handle_at-added key h c p,
            );
        its_key = same_key;
        its_value = refl;
        its_mode = refl;
        unheld = none_yet;
        unused = ground (arith, v.heap p, free);
        now_held = λ q. ap (held q) done.same_cache ∙ laws.insert_held key p q c.cache free;
        kept = λ q more. ground (
          arith,
          done.kept q,
          laws.insert_held key p q c.cache free,
          handle_at-added key h c q,
          none_yet,
        );
      }

  pub add_handle_lem :
      (key : MetaKey) (value : InodeValue) (mode : Mode) (c : InodeCache P)
      → IsSound laws c
      → (p : Ptr) × (d : InodeCache P) × (add_handle P key value mode c ≡ some (p, d))
        × IsAdded key value mode c p d
  unfolding add_handle
  add_handle_lem key value mode c v =
      let h : InodeCacheHandle P = record {
        key_ = key;
        value_ = value;
        mode_ = mode;
        pointer = (cache_insert key c.next_handle c.cache).0;
      } in
      let (d, ran, done) = clean_all-IsSettled laws (added-IsPending key h c v refl refl) in
      (c.next_handle, d, ground (arith, ran), added-IsAdded key h c d v refl done)
