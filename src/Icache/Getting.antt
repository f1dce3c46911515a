-- ===== src/Icache/Getting.antt =====
-- `Get` of the inode cache, on a hit and on a miss.
use tablefs.Base.{
  suc, ◌<◌, ◌≡◌, refl, sym, ap, ◌∙◌, true, false, Option, none, some, [], arith, nat_beq,
  if◌then◌else◌, Bool-cases, inl, inr, Option-cases,
}
use tablefs.Key.{MetaKey}
use tablefs.Adaptor
use tablefs.Platform.{Platform, Ptr}
use tablefs.Platform.Caching.{CacheLaws, Drops}
use tablefs.Icache.{InodeCache, InodeCacheHandle, Mode, above_read, handle_at, set_handle, get}
use tablefs.Icache.Heap.{handle_at-set_handle}
use tablefs.Icache.Sound.{IsSound, pending, pending-IsSound, set_handle-IsSound}
use tablefs.Icache.Operations.{add_handle_lem}

module _ {P : Platform} (laws : CacheLaws P) where
  open laws use {live, held, bound, bound-live}
  open P use {Cache, cache_value, cache_lookup}

  -- What `Get` promises of the handle that it returns.
  pub record IsFound (key : MetaKey) (mode : Mode) (c : InodeCache P) (p : Ptr) (d : InodeCache P)
      : Type 0 where
    pub sound : IsSound laws d
    pub handle : InodeCacheHandle P
    pub here : handle_at P p d ≡ some handle
    pub its_key : handle.key_ ≡ key
    pub its_mode : above_read mode ≡ true → handle.mode_ ≡ mode
    pub was_there :
        (h : InodeCacheHandle P)
        → handle_at P p c ≡ some h
        → handle ≡ record h { mode_ = if above_read mode then mode else h.mode_ }
    pub was_not :
        handle_at P p c ≡ none
        → (Adaptor.get P key c.metadb_ ≡ some handle.value_) × (handle.mode_ ≡ mode)
    pub now_held :
        (q : Ptr) → held q d.cache ≡ (if nat_beq q p then suc (held q c.cache) else held q c.cache)
    pub kept :
        (q : Ptr) → nat_beq q p ≡ false → 0 < held q c.cache → handle_at P q d ≡ handle_at P q c

  -- Nothing is found in the table either.
  pub record IsMissed (key : MetaKey) (c d : InodeCache P) : Type 0 where
    pub sound : IsSound laws d
    pub absent : Adaptor.get P key c.metadb_ ≡ none
    pub same_held : (q : Ptr) → held q d.cache ≡ held q c.cache
    pub kept : (q : Ptr) → handle_at P q d ≡ handle_at P q c

  abbrev pub Got : MetaKey → Mode → InodeCache P → Option Ptr → InodeCache P → Type 0
  Got key mode c none d = IsMissed key c d
  Got key mode c (some p) d = IsFound key mode c p d

  abbrev pub looked : MetaKey → InodeCache P → InodeCache P
  looked key c = record c { cache = (cache_lookup key c.cache).1 }

  pub looked-IsSound :
      (key : MetaKey) (c : InodeCache P) → IsSound laws c → IsSound laws (looked key c)
  looked-IsSound key c v =
      let drops : Drops P live held (λ q. live q c.cache) [] (cache_lookup key c.cache).1 = record {
        distinct = tt;
        were_live = λ q h. absurd (cc h);
        unheld = λ q h. absurd (cc h);
        left = λ q. ground (arith, laws.lookup_live key q c.cache);
      } in
      pending-IsSound laws (
        pending laws c (cache_lookup key c.cache).1 [] v drops (laws.lookup_keeps key c.cache)
          (λ k q b. sym (laws.lookup_bound key k c.cache) ∙ b))

  handle_at-looked :
      (key : MetaKey) (c : InodeCache P) (q : Ptr) → handle_at P q (looked key c) ≡ handle_at P q c
  unfolding handle_at
  handle_at-looked key c q = refl

  -- The handle on a hit, and the state with its mode set.
  hit :
      (key : MetaKey) (mode : Mode) (c : InodeCache P) (ch : Platform.Handle P)
      → IsSound laws c
      → (cache_lookup key c.cache).0 ≡ some ch
      → (d : InodeCache P) × (get P key mode c
          ≡ some (some (cache_value ch (cache_lookup key c.cache).1), d))
        × IsFound key mode c (cache_value ch (cache_lookup key c.cache).1) d
  unfolding get set_handle
  hit key mode c ch v found =
      let p = cache_value ch (cache_lookup key c.cache).1 in
      let c1 = looked key c in
      let v1 = looked-IsSound key c v in
      let in_table : bound key c1.cache ≡ some p =
        laws.lookup_bound key key c.cache ∙ laws.lookup_hit key ch c.cache found in
      elim (Option-cases (handle_at P p c1)) [
        | inl gone ↦ absurd (ground (arith, v1.heap p, bound-live key p c1.cache in_table, gone))
        | inr (h, here) ↦
            let same_key = v1.keyed key p h in_table here in
            let h' = record h { mode_ = mode } in
            elim (Bool-cases (above_read mode)) [
              | inl above ↦ (
                set_handle P p h' c1,
                ground (arith, found, here, above),
                record {
                  sound = set_handle-IsSound laws c1 p h h' v1 here refl refl;
                  handle = h';
                  here = ground (arith, handle_at-set_handle p p h' c1);
                  its_key = same_key;
                  its_mode = λ _. refl;
                  was_there = λ g e. ground (arith, here, e, above, handle_at-looked key c p);
                  was_not = λ e. absurd (ground (arith, here, e, handle_at-looked key c p));
                  now_held = λ q. laws.lookup_held key q ch c.cache found;
                  kept = λ q other _.
                      ground
                        (arith, handle_at-set_handle p q h' c1, handle_at-looked key c q, other);
                },
              )
              | inr below ↦ (
                c1,
                ground (arith, found, here, below),
                record {
                  sound = v1;
                  handle = h;
                  here = here;
                  its_key = same_key;
                  its_mode = λ above. absurd (ground (arith, above, below));
                  was_there = λ g e. ground (arith, here, e, below, handle_at-looked key c p);
                  was_not = λ e. absurd (ground (arith, here, e, handle_at-looked key c p));
                  now_held = λ q. laws.lookup_held key q ch c.cache found;
                  kept = λ q _ _. handle_at-looked key c q;
                },
              )
            ]
      ]

  -- On a miss the handle is made from the value in the table.
  miss :
      (key : MetaKey) (mode : Mode) (c : InodeCache P)
      → IsSound laws c
      → (cache_lookup key c.cache).0 ≡ none
      → (out : Option Ptr) × (d : InodeCache P) × (get P key mode c ≡ some (out, d))
        × Got key mode c out d
  unfolding get
  miss key mode c v absent =
      let c1 = looked key c in
      let v1 = looked-IsSound key c v in
      let same = λ (q : Ptr). laws.lookup_missed key q c.cache absent in
      elim (Option-cases (Adaptor.get P key c.metadb_)) [
        | inl gone ↦ (
          none,
          c1,
          ground (arith, absent, gone),
          record { sound = v1; absent = gone; same_held = same; kept = handle_at-looked key c },
        )
        | inr (value, there) ↦
            let (p, d, ran, new) = add_handle_lem laws key value mode c1 v1 in
            (
              some p,
              d,
              ground (arith, absent, there, ran),
              record {
                sound = new.sound;
                handle = new.handle;
                here = new.here;
                its_key = new.its_key;
                its_mode = λ _. new.its_mode;
                was_there = λ g e. absurd (ground (arith, e, new.unused, handle_at-looked key c p));
                was_not = λ _. (there ∙ ap some (sym new.its_value), new.its_mode);
                now_held = λ q. ground (arith, new.now_held q, same q, same p, new.unheld);
                kept = λ q _ more. ground (arith, new.kept q, same q, handle_at-looked key c q);
              },
            )
      ]

  -- In a sound inode cache `Get` always returns, uses no freed handle, and leaves the cache sound. It
  -- returns NULL only where the Get of the table gives no value, as the key is not there or the read
  -- fails. Otherwise it returns a handle of that key, to which the client holds one reference more
  -- than before. A handle that was there keeps all but its mode, which becomes the mode asked for
  -- unless that is READ; a new one has the value in the table and the mode asked for. The references
  -- to other handles are as before, and so are the other handles that the client holds.
  pub get-Got :
      (key : MetaKey) (mode : Mode) (c : InodeCache P)
      → IsSound laws c
      → (out : Option Ptr) × (d : InodeCache P) × (get P key mode c ≡ some (out, d))
        × Got key mode c out d
  get-Got key mode c v = elim (Option-cases (cache_lookup key c.cache).0) [
    | inl absent ↦ miss key mode c v absent
    | inr (ch, found) ↦
        let (d, ran, good) = hit key mode c ch v found in
        (some (cache_value ch (cache_lookup key c.cache).1), d, ran, good)
  ]
