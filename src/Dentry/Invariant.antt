-- ===== src/Dentry/Invariant.antt =====
-- What every method of the dentry cache keeps, and what it does to the entries that can be found.
use tablefs.Base.{
  ℕ, suc, ◌≤◌, ◌<◌, ◌≡◌, refl, ◌≢◌, Option, none, some, ◌∷◌, arith, ◌==◌, if◌then◌else◌, length,
  Option-cases, Bool-cases, inl, inr,
}
use tablefs.Base.Maps
use tablefs.Base.Maps.{lookup-insert, lookup-erase, lookup-nil}
use tablefs.Key.{Inode, MetaKey, key_eq, key_beq, key_beq_iff}
use tablefs.Dentry.{DentryCache, init, deref, erase_at, find, evict}
use tablefs.Dentry.Nodes.{deref-erase_at, length-erase_at}

-- An iterator that the map holds for a key reads a node with that key.
pub record Points (c : DentryCache) (k : MetaKey) (it : ℕ) : Type 0 where
  pub inode : Inode
  pub reads : deref it c.cache ≡ some (k, inode)
  pub below : it < c.fresh

pub record IsValid (c : DentryCache) : Type 0 where
  pub linked : (k : MetaKey) (it : ℕ) → Maps.lookup k c.lookup ≡ some it → Points c k it
  pub bounded : length c.cache ≤ c.maxsize

-- The inode that `Find` would return.
unfoldable pub stored : MetaKey → DentryCache → Option Inode
unfolding deref Maps.lookup
stored k c = elim (Maps.lookup k c.lookup) [
  | none ↦ none
  | some it ↦ elim (deref it c.cache) [ none ↦ none | some e ↦ some e.1 ]
]

pub init-IsValid : (size : ℕ) → IsValid (init size)
unfolding init
init-IsValid size = record {
  linked = λ k it h. absurd (ground (arith, lookup-nil {V = ℕ} k));
  bounded = omega arith;
}

-- The state after a hit of `Find`.
abbrev pub moved : MetaKey → Inode → ℕ → DentryCache → DentryCache
moved k v it c = record c {
  cache = erase_at it ((c.fresh, (k, v)) ∷ c.cache);
  lookup = Maps.insert k c.fresh c.lookup;
  fresh = suc c.fresh;
}

module _ {c : DentryCache} (valid : IsValid c) (k : MetaKey) where
  moved-Points :
      (v : Inode) (it : ℕ)
      → Maps.lookup k c.lookup ≡ some it
      → deref it c.cache ≡ some (k, v)
      → it < c.fresh
      → (j : MetaKey) (a : ℕ) → Maps.lookup j (moved k v it c).lookup ≡ some a
      → Points (moved k v it c) j a
  unfolding deref erase_at
  moved-Points v it h r lt j a m = elim (Bool-cases (key_beq k j)) [
    | inl same ↦
        let e : k ≡ j = (key_beq_iff k j).0 same in
        record {
          inode = v;
          reads = ground (arith, lookup-insert k j c.fresh c.lookup);
          below = ground (arith, lookup-insert k j c.fresh c.lookup);
        }
    | inr other ↦
        let p : Points c j a =
          valid.linked j a (ground (arith, lookup-insert k j c.fresh c.lookup)) in
        let q : it ≢ a = (λ w. ground (arith, key_beq_iff k j, p.reads)) in
        record {
          inode = p.inode;
          reads = ground (arith, p.reads, p.below, deref-erase_at it a c.cache q);
          below = ground (arith, p.below);
        }
  ]

  stored-moved :
      (v : Inode) (it : ℕ)
      → Maps.lookup k c.lookup ≡ some it
      → deref it c.cache ≡ some (k, v)
      → (j : MetaKey) → stored j (moved k v it c) ≡ stored j c
  unfolding stored erase_at
  stored-moved v it h r j = elim (Option-cases (Maps.lookup j c.lookup)) [
    | inl out ↦ ground (arith, lookup-insert k j c.fresh c.lookup, key_beq_iff k j)
    | inr (a, m) ↦
        let p : Points c j a = valid.linked j a m in
        let q : Points c k it = valid.linked k it h in
        ground (
          arith,
          lookup-insert k j c.fresh c.lookup,
          key_beq_iff k j,
          p.reads,
          p.below,
          q.below,
          deref-erase_at it a c.cache,
        )
  ]

  -- On a valid dentry cache, Find uses no dead iterator, returns what is stored, and leaves a
  -- valid cache of the same size with the same entries to be found.
  pub find-stored :
      (d : DentryCache) × (find k c ≡ some (stored k c, d))
      × IsValid d
      × ((j : MetaKey) → stored j d ≡ stored j c)
      × (d.maxsize ≡ c.maxsize)
  unfolding find stored erase_at
  find-stored = elim (Option-cases (Maps.lookup k c.lookup)) [
    | inl miss ↦ (c, ground arith, valid, λ j. refl, refl)
    | inr (it, hit) ↦
        let p : Points c k it = valid.linked k it hit in
        let v = p.inode in
        (
          moved k v it c,
          ground (arith, p.reads),
          record {
            linked = moved-Points v it hit p.reads p.below;
            bounded =
                ground (arith, p.below, length-erase_at it c.cache (k, v) p.reads, valid.bounded);
          },
          stored-moved v it hit p.reads,
          refl,
        )
  ]

  lookup-evict :
      (j : MetaKey)
      → Maps.lookup j (evict k c).lookup ≡ (if k == j then none else Maps.lookup j c.lookup)
  unfolding evict
  lookup-evict j = ground (arith, lookup-erase k j c.lookup, key_beq_iff k j)

  evict_rest :
      ((evict k c).cache ≡ c.cache)
      × ((evict k c).fresh ≡ c.fresh)
      × ((evict k c).maxsize ≡ c.maxsize)
  unfolding evict
  evict_rest = ground arith

  evict-Points :
      (j : MetaKey) (a : ℕ) → Maps.lookup j (evict k c).lookup ≡ some a → Points (evict k c) j a
  evict-Points j a m =
      let p : Points c j a = valid.linked j a (ground (arith, lookup-evict j)) in
      record {
        inode = p.inode;
        reads = ground (arith, p.reads, evict_rest);
        below = ground (arith, p.below, evict_rest);
      }

  -- On a valid dentry cache, Evict leaves a valid cache of the same size in which the key is not
  -- found and every other entry is as before.
  pub evict-stored :
      IsValid (evict k c)
      × ((j : MetaKey) → stored j (evict k c) ≡ (if k == j then none else stored j c))
      × ((evict k c).maxsize ≡ c.maxsize)
  unfolding stored
  evict-stored = (
    record { linked = evict-Points; bounded = ground (arith, valid.bounded, evict_rest) },
    λ j. ground (arith, lookup-evict j, evict_rest),
    evict_rest.2,
  )
