-- ===== src/Icache/Heap.antt =====
-- The deleter of the inode cache, on the heap of handles.
use tablefs.Base.{
  ◌≡◌, refl, ◌∙◌, Bool, true, false, Option, none, some, List, [], ◌∷◌, arith, nat_beq,
  if◌then◌else◌, nat_eq, inl, inr, Option-cases,
}
use tablefs.Base.Maps
use tablefs.Base.Maps.{lookup-insert, lookup-erase}
use tablefs.Platform.{Platform, Ptr}
use tablefs.Platform.Caching.{contains, AreDistinct}
use tablefs.Icache.{
  InodeCache, InodeCacheHandle, handle_at, set_handle, clean_inode_handle, clean_all, flush,
}

abbrev pub is_some {ℓ} : {A : Type ℓ} → Option A → Bool
is_some none = false
is_some (some a) = true

module _ {P : Platform} where
  pub handle_at-set_handle :
      (p q : Ptr) (h : InodeCacheHandle P) (c : InodeCache P)
      → handle_at P q (set_handle P p h c) ≡ (if nat_beq p q then some h else handle_at P q c)
  unfolding handle_at set_handle
  handle_at-set_handle p q h c = lookup-insert p q h c.handles

  -- What the deleter leaves alone.
  pub record IsCleaned (dropped : List Ptr) (c d : InodeCache P) : Type 0 where
    pub same_cache : d.cache ≡ c.cache
    pub same_next : d.next_handle ≡ c.next_handle
    pub same_clock : d.clock ≡ c.clock
    pub others :
        (q : Ptr) → handle_at P q d ≡ (if contains dropped q then none else handle_at P q c)

  clean_inode_handle-IsCleaned :
      (p : Ptr) (c : InodeCache P)
      → is_some (handle_at P p c) ≡ true
      → (d : InodeCache P) × (clean_inode_handle P p c ≡ some d) × IsCleaned (p ∷ []) c d
  unfolding clean_inode_handle handle_at
  clean_inode_handle-IsCleaned p c there = elim (Option-cases (handle_at P p c)) [
    | inl gone ↦ absurd (cc gone)
    | inr (h, found) ↦ (
      record c { metadb_ = flush P c.clock h c.metadb_; handles = Maps.erase p c.handles },
      ground (arith, found),
      record {
        same_cache = refl;
        same_next = refl;
        same_clock = refl;
        others = λ q. ground (arith, lookup-erase p q c.handles);
      },
    )
  ]

  -- The deleter at distinct pointers to handles that are there never faults, and frees these
  -- handles and no others.
  pub clean_all-IsCleaned :
      (dropped : List Ptr) (c : InodeCache P)
      → AreDistinct dropped
      → ((q : Ptr) → contains dropped q ≡ true → is_some (handle_at P q c) ≡ true)
      → (d : InodeCache P) × (clean_all P dropped c ≡ some d) × IsCleaned dropped c d
  unfolding clean_all
  clean_all-IsCleaned [] c distinct there = (
    c,
    refl,
    record { same_cache = refl; same_next = refl; same_clock = refl; others = λ q. refl },
  )
  clean_all-IsCleaned (p ∷ ps) c distinct there =
      let here : is_some (handle_at P p c) ≡ true = there p (ground arith) in
      let (d, first, one) = clean_inode_handle-IsCleaned p c here in
      let (e, rest, more) =
        clean_all-IsCleaned ps d distinct.1
          (λ q h. ground (arith, one.others q, there q, distinct.0)) in
      (
        e,
        ground (arith, first, rest),
        record {
          same_cache = more.same_cache ∙ one.same_cache;
          same_next = more.same_next ∙ one.same_next;
          same_clock = more.same_clock ∙ one.same_clock;
          others = λ q. ground (arith, one.others q, more.others q);
        },
      )

  -- Two states that differ in the handle at `p` alone.
  pub record IsReplaced (p : Ptr) (h' : InodeCacheHandle P) (c d : InodeCache P) : Type 0 where
    pub same_table : d.metadb_ ≡ c.metadb_
    pub same_cache : d.cache ≡ c.cache
    pub same_next : d.next_handle ≡ c.next_handle
    pub same_clock : d.clock ≡ c.clock
    pub handles_are :
        (q : Ptr) → handle_at P q d ≡ (if nat_beq p q then some h' else handle_at P q c)

  pub set_handle-IsReplaced :
      (p : Ptr) (h' : InodeCacheHandle P) (c : InodeCache P)
      → IsReplaced p h' c (set_handle P p h' c)
  unfolding set_handle
  set_handle-IsReplaced p h' c = record {
    same_table = refl;
    same_cache = refl;
    same_next = refl;
    same_clock = refl;
    handles_are = λ q. handle_at-set_handle p q h' c;
  }

  pub IsReplaced-trans :
      (p : Ptr) (h h' : InodeCacheHandle P) (c d e : InodeCache P)
      → IsReplaced p h c d
      → IsReplaced p h' d e
      → IsReplaced p h' c e
  IsReplaced-trans p h h' c d e one two = record {
    same_table = two.same_table ∙ one.same_table;
    same_cache = two.same_cache ∙ one.same_cache;
    same_next = two.same_next ∙ one.same_next;
    same_clock = two.same_clock ∙ one.same_clock;
    handles_are = λ q. ground (arith, one.handles_are q, two.handles_are q);
  }
