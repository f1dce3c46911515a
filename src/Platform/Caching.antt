-- ===== src/Platform/Caching.antt =====
-- What lib/leveldb/include/leveldb/cache.h documents of `leveldb::Cache`: an entry lives while it
-- is in the table or the client holds a reference to it, and goes to the deleter once, when it
-- dies. `Insert` and `Lookup` give a reference, `Release` gives one back.
use tablefs.Base.{
  ℕ, suc, ◌-◌, ◌<◌, ◌≡◌, Bool, true, false, not, ◌&&◌, ◌||◌, Option, none, some, List, [], ◌∷◌,
  nat_beq, if◌then◌else◌, ◌⊎◌, ◌≢◌,
}
use tablefs.Key.{MetaKey}
use tablefs.Platform.{Platform, Ptr}

abbrev pub contains : List Ptr → Ptr → Bool
contains [] q = false
contains (p ∷ ps) q = nat_beq q p || contains ps q

abbrev pub AreDistinct : List Ptr → Type 0
AreDistinct [] = Unit
AreDistinct (p ∷ ps) = (contains ps p ≡ false) × AreDistinct ps

module _ (P : Platform) where
  open P use {Cache, Handle, cache_insert, cache_lookup, cache_value, cache_release, cache_erase}

  module _ (live : Ptr → Cache → Bool) (held : Ptr → Cache → ℕ) where
    -- The pointers handed to the deleter are distinct and those that die; none is held.
    pub record Drops (before : Ptr → Bool) (dropped : List Ptr) (after : Cache) : Type 0 where
      pub distinct : AreDistinct dropped
      pub were_live : (q : Ptr) → contains dropped q ≡ true → before q ≡ true
      pub unheld : (q : Ptr) → contains dropped q ≡ true → held q after ≡ 0
      pub left : (q : Ptr) → live q after ≡ (before q && not (contains dropped q))

    -- A handle of an entry that lives on stays the handle of that entry.
    abbrev pub Keeps : Cache → Cache → Type 0
    Keeps c d =
        (ch : Handle)
        → live (cache_value ch c) c ≡ true
        → live (cache_value ch c) d ≡ true
        → cache_value ch d ≡ cache_value ch c

  pub record CacheLaws : Type 0 where
    -- The entries that live, the references that the client holds, the entries in the table.
    pub live : Ptr → Cache → Bool
    pub held : Ptr → Cache → ℕ
    pub bound : MetaKey → Cache → Option Ptr
    pub held-live : (p : Ptr) (c : Cache) → 0 < held p c → live p c ≡ true
    pub bound-live : (k : MetaKey) (p : Ptr) (c : Cache) → bound k c ≡ some p → live p c ≡ true
    pub insert_drops :
        (k : MetaKey) (p : Ptr) (c : Cache)
        → live p c ≡ false
        → Drops live held
            (λ q. nat_beq q p || live q c)
            (cache_insert k p c).1
            (cache_insert k p c).2
    pub insert_held :
        (k : MetaKey) (p q : Ptr) (c : Cache)
        → live p c ≡ false
        → held q (cache_insert k p c).2 ≡ (if nat_beq q p then 1 else held q c)
    pub insert_value :
        (k : MetaKey) (p : Ptr) (c : Cache)
        → live p c ≡ false
        → cache_value (cache_insert k p c).0 (cache_insert k p c).2 ≡ p
    pub insert_keeps :
        (k : MetaKey) (p : Ptr) (c : Cache)
        → live p c ≡ false
        → Keeps live held c (cache_insert k p c).2
    pub insert_bound :
        (k j : MetaKey) (p q : Ptr) (c : Cache)
        → live p c ≡ false
        → bound j (cache_insert k p c).2 ≡ some q
        → ((j ≡ k) × (q ≡ p)) ⊎ (bound j c ≡ some q)
    pub lookup_live : (k : MetaKey) (q : Ptr) (c : Cache) → live q (cache_lookup k c).1 ≡ live q c
    pub lookup_bound : (k j : MetaKey) (c : Cache) → bound j (cache_lookup k c).1 ≡ bound j c
    pub lookup_keeps : (k : MetaKey) (c : Cache) → Keeps live held c (cache_lookup k c).1
    pub lookup_hit :
        (k : MetaKey) (ch : Handle) (c : Cache)
        → (cache_lookup k c).0 ≡ some ch
        → bound k c ≡ some (cache_value ch (cache_lookup k c).1)
    pub lookup_held :
        (k : MetaKey) (q : Ptr) (ch : Handle) (c : Cache)
        → (cache_lookup k c).0 ≡ some ch
        → held q (cache_lookup k c).1
          ≡ (if nat_beq q (cache_value ch (cache_lookup k c).1) then suc (held q c) else held q c)
    pub lookup_missed :
        (k : MetaKey) (q : Ptr) (c : Cache)
        → (cache_lookup k c).0 ≡ none
        → held q (cache_lookup k c).1 ≡ held q c
    pub release_drops :
        (ch : Handle) (c : Cache)
        → 0 < held (cache_value ch c) c
        → Drops live held (λ q. live q c) (cache_release ch c).0 (cache_release ch c).1
    pub release_held :
        (ch : Handle) (q : Ptr) (c : Cache)
        → 0 < held (cache_value ch c) c
        → held q (cache_release ch c).1
          ≡ (if nat_beq q (cache_value ch c) then held q c - 1 else held q c)
    pub release_keeps :
        (ch : Handle) (c : Cache)
        → 0 < held (cache_value ch c) c
        → Keeps live held c (cache_release ch c).1
    pub release_bound :
        (ch : Handle) (j : MetaKey) (q : Ptr) (c : Cache)
        → 0 < held (cache_value ch c) c
        → bound j (cache_release ch c).1 ≡ some q
        → bound j c ≡ some q
    pub erase_drops :
        (k : MetaKey) (c : Cache)
        → Drops live held (λ q. live q c) (cache_erase k c).0 (cache_erase k c).1
    pub erase_held : (k : MetaKey) (q : Ptr) (c : Cache) → held q (cache_erase k c).1 ≡ held q c
    pub erase_keeps : (k : MetaKey) (c : Cache) → Keeps live held c (cache_erase k c).1
    pub erase_bound :
        (k j : MetaKey) (q : Ptr) (c : Cache)
        → bound j (cache_erase k c).1 ≡ some q
        → (j ≢ k) × (bound j c ≡ some q)
