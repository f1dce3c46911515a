-- ===== src/Icache/Sound.antt =====
-- The invariant of the inode cache: the handles on the heap are those of the entries that live.
use tablefs.Base.{◌<◌, ◌≡◌, sym, ap, ◌∙◌, Bool, true, some, List, [], arith, inl, inr, Option-cases}
use tablefs.Key.{MetaKey}
use tablefs.Platform.{Platform, Ptr}
use tablefs.Platform.Caching.{CacheLaws, Drops, Keeps}
use tablefs.Icache.{InodeCache, InodeCacheHandle, handle_at, set_handle, clean_all}
use tablefs.Icache.Heap.{is_some, IsCleaned, clean_all-IsCleaned, handle_at-set_handle, IsReplaced}

module _ {P : Platform} (laws : CacheLaws P) where
  open laws use {live, held, bound, held-live, bound-live}
  open P use {Cache, cache_value}

  pub record IsSound (c : InodeCache P) : Type 0 where
    pub heap : (q : Ptr) → is_some (handle_at P q c) ≡ live q c.cache
    pub fresh : (q : Ptr) → live q c.cache ≡ true → q < c.next_handle
    pub owned :
        (q : Ptr) (h : InodeCacheHandle P)
        → handle_at P q c ≡ some h
        → cache_value h.pointer c.cache ≡ q
    pub keyed :
        (k : MetaKey) (q : Ptr) (h : InodeCacheHandle P)
        → bound k c.cache ≡ some q
        → handle_at P q c ≡ some h
        → h.key_ ≡ k

  -- A state between the call of the cache and the deleter: `before` are the handles on the heap.
  pub record IsPending (before : Ptr → Bool) (dropped : List Ptr) (c : InodeCache P) : Type 0 where
    pub drops : Drops P live held before dropped c.cache
    pub heap : (q : Ptr) → is_some (handle_at P q c) ≡ before q
    pub fresh : (q : Ptr) → before q ≡ true → q < c.next_handle
    pub owned :
        (q : Ptr) (h : InodeCacheHandle P)
        → live q c.cache ≡ true
        → handle_at P q c ≡ some h
        → cache_value h.pointer c.cache ≡ q
    pub keyed :
        (k : MetaKey) (q : Ptr) (h : InodeCacheHandle P)
        → bound k c.cache ≡ some q
        → handle_at P q c ≡ some h
        → h.key_ ≡ k

  -- What the deleter makes of it: the invariant holds again, and no handle that the client holds
  -- is freed.
  pub record IsSettled (c d : InodeCache P) : Type 0 where
    pub sound : IsSound d
    pub same_cache : d.cache ≡ c.cache
    pub kept : (q : Ptr) → 0 < held q c.cache → handle_at P q d ≡ handle_at P q c

  module _ {before : Ptr → Bool} {dropped : List Ptr} {c d : InodeCache P}
      (v : IsPending before dropped c) (done : IsCleaned dropped c d) where
    cleaned_live : (q : Ptr) → live q d.cache ≡ live q c.cache
    cleaned_live q = ap (live q) done.same_cache

    cleaned_there :
        (q : Ptr) (h : InodeCacheHandle P)
        → handle_at P q d ≡ some h
        → (handle_at P q c ≡ some h) × (live q c.cache ≡ true)
    cleaned_there q h e = ground (arith, done.others q, v.drops.left q, v.heap q)

    cleaned_kept : (q : Ptr) → 0 < held q c.cache → handle_at P q d ≡ handle_at P q c
    cleaned_kept q h = ground (arith, done.others q, v.drops.unheld q)

    settle : IsSettled c d
    settle = record {
      sound = record {
        heap = λ q. ground (arith, done.others q, v.drops.left q, v.heap q, cleaned_live q);
        fresh = λ q h. ground (arith, v.drops.left q, v.fresh q, cleaned_live q, done.same_next);
        owned = λ q h e.
            let (here, lives) = cleaned_there q h e in
            ap (cache_value h.pointer) done.same_cache ∙ v.owned q h lives here;
        keyed = λ k q h b e.
            v.keyed k q h (sym (ap (bound k) done.same_cache) ∙ b) (cleaned_there q h e).0;
      };
      same_cache = done.same_cache;
      kept = cleaned_kept;
    }

  pub clean_all-IsSettled :
      {before : Ptr → Bool} {dropped : List Ptr} {c : InodeCache P}
      → IsPending before dropped c
      → (d : InodeCache P) × (clean_all P dropped c ≡ some d) × IsSettled c d
  clean_all-IsSettled {before} {dropped} {c} v =
      let (d, ran, done) =
        clean_all-IsCleaned dropped c v.drops.distinct (λ q h. v.heap q ∙ v.drops.were_live q h) in
      (d, ran, settle v done)

  pub live_there :
      (c : InodeCache P) (q : Ptr) (h : InodeCacheHandle P)
      → IsSound c
      → handle_at P q c ≡ some h
      → live q c.cache ≡ true
  live_there c q h v e = ground (arith, v.heap q, e)

  pub stays_owned :
      (c : InodeCache P) (cache' : Cache)
      → IsSound c
      → Keeps P live held c.cache cache'
      → (q : Ptr) (h : InodeCacheHandle P) → live q cache' ≡ true
      → handle_at P q c ≡ some h
      → cache_value h.pointer cache' ≡ q
  stays_owned c cache' v keeps q h lives e =
      let own = v.owned q h e in
      keeps h.pointer (ap (λ (p : Ptr). live p c.cache) own ∙ live_there c q h v e)
        (ap (λ (p : Ptr). live p cache') own ∙ lives)
      ∙ own

  -- A handle that the client holds is on the heap.
  pub held_there :
      (c : InodeCache P) (p : Ptr)
      → IsSound c
      → 0 < held p c.cache
      → (h : InodeCacheHandle P) × (handle_at P p c ≡ some h)
  held_there c p v h = elim (Option-cases (handle_at P p c)) [
    | inl gone ↦ absurd (ground (arith, v.heap p, held-live p c.cache h, gone))
    | inr found ↦ found
  ]

  -- After a change of the cache that adds no entry.
  pub pending :
      (c : InodeCache P) (cache' : Cache) (dropped : List Ptr)
      → IsSound c
      → Drops P live held (λ q. live q c.cache) dropped cache'
      → Keeps P live held c.cache cache'
      → ((k : MetaKey) (q : Ptr) → bound k cache' ≡ some q → bound k c.cache ≡ some q)
      → IsPending (λ q. live q c.cache) dropped (record c { cache = cache' })
  unfolding handle_at
  pending c cache' dropped v drops keeps table = record {
    drops = drops;
    heap = v.heap;
    fresh = v.fresh;
    owned = λ q h lives e. stays_owned c cache' v keeps q h lives e;
    keyed = λ k q h b e. v.keyed k q h (table k q b) e;
  }

  -- With nothing dropped the deleter has nothing to do.
  pub pending-IsSound : {before : Ptr → Bool} {c : InodeCache P} → IsPending before [] c → IsSound c
  pending-IsSound {before} {c} v = record {
    heap = λ q. ground (arith, v.heap q, v.drops.left q);
    fresh = λ q h. ground (arith, v.fresh q, v.drops.left q);
    owned = λ q h e. v.owned q h (ground (arith, v.heap q, v.drops.left q, e)) e;
    keyed = v.keyed;
  }

  -- A handle that changes in its value or its mode only.
  pub set_handle-IsSound :
      (c : InodeCache P) (p : Ptr) (h h' : InodeCacheHandle P)
      → IsSound c
      → handle_at P p c ≡ some h
      → h'.pointer ≡ h.pointer
      → h'.key_ ≡ h.key_
      → IsSound (set_handle P p h' c)
  unfolding set_handle
  set_handle-IsSound c p h h' v e same_pointer same_key = record {
    heap = λ q. ground (arith, handle_at-set_handle p q h' c, v.heap q, v.heap p, e);
    fresh = v.fresh;
    owned = λ q g found.
        ground (arith, handle_at-set_handle p q h' c, v.owned q g, v.owned p h, same_pointer, e);
    keyed = λ k q g b found.
        ground (arith, handle_at-set_handle p q h' c, v.keyed k q g, v.keyed k p h, same_key, e);
  }

  pub IsReplaced-IsSound :
      (p : Ptr) (h h' : InodeCacheHandle P) (c d : InodeCache P)
      → IsSound c
      → handle_at P p c ≡ some h
      → h'.pointer ≡ h.pointer
      → h'.key_ ≡ h.key_
      → IsReplaced p h' c d
      → IsSound d
  IsReplaced-IsSound p h h' c d v e same_pointer same_key s = record {
    heap = λ q. ground (arith, s.handles_are q, v.heap q, v.heap p, e, ap (live q) s.same_cache);
    fresh = λ q b. ground (arith, v.fresh q, ap (live q) s.same_cache, s.same_next);
    owned = λ q g found.
        ap (cache_value g.pointer) s.same_cache
        ∙ ground (arith, s.handles_are q, v.owned q g, v.owned p h, same_pointer, e);
    keyed = λ k q g b found. ground (
      arith,
      s.handles_are q,
      v.keyed k q g,
      v.keyed k p h,
      same_key,
      e,
      ap (bound k) s.same_cache,
    );
  }
