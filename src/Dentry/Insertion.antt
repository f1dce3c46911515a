-- ===== src/Dentry/Insertion.antt =====
-- `DentryCache::Insert`: the new entry, and the one that is dropped when the cache is full.
use tablefs.Base.{
  ℕ, suc, ◌≤◌, ◌≡◌, Bool, false, ◌&&◌, none, some, ◌∷◌, arith, ◌==◌, ltb, if◌then◌else◌, length,
  Option-cases, Bool-cases, inl, inr,
}
use tablefs.Base.Maps
use tablefs.Base.Maps.{lookup-insert, lookup-erase, lookup-nil}
use tablefs.Key.{Inode, MetaKey, key_eq, key_beq_iff}
use tablefs.Dentry.{DentryCache, Node, deref, back_key, insert}
use tablefs.Dentry.Nodes.{length-pop_back, deref-pop_back}
use tablefs.Dentry.Invariant.{Points, IsValid, stored}

-- The node that `Insert` makes.
abbrev node : MetaKey → Inode → DentryCache → Node
node k v c = (c.fresh, (k, v))

-- Whether `Insert` drops what is stored for `j`: the cache is full, and the node at its end, the
-- new one counted, carries `j`.
pub drops : MetaKey → Inode → DentryCache → MetaKey → Bool
drops k v c j = ltb c.maxsize (suc (length c.cache)) && back_key (c.fresh, (k, v)) c.cache == j

module _ (c : DentryCache) (k : MetaKey) (v : Inode) where
  lookup-insert-drops :
      (j : MetaKey)
      → Maps.lookup j (insert k v c).lookup
        ≡ (if drops k v c j then none else if k == j then some c.fresh else Maps.lookup j c.lookup)
  unfolding insert drops
  lookup-insert-drops j = ground (
    arith,
    lookup-insert k j c.fresh c.lookup,
    lookup-erase (back_key (node k v c) c.cache) j (Maps.insert k c.fresh c.lookup),
  )

  deref-insert :
      (a : ℕ) (j : MetaKey) (w : Inode)
      → deref a (node k v c ∷ c.cache) ≡ some (j, w)
      → drops k v c j ≡ false
      → deref a (insert k v c).cache ≡ some (j, w)
  unfolding insert drops
  deref-insert a j w h n = ground (
    arith,
    deref-pop_back a (node k v c) c.cache j w h,
    key_beq_iff (back_key (node k v c) c.cache) j,
  )

  insert_rest :
      ((insert k v c).fresh ≡ suc c.fresh)
      × ((insert k v c).maxsize ≡ c.maxsize)
      × (length c.cache ≤ c.maxsize → length (insert k v c).cache ≤ c.maxsize)
  unfolding insert
  insert_rest = ground (arith, length-pop_back (node k v c) c.cache)

module _ {c : DentryCache} (valid : IsValid c) (k : MetaKey) (v : Inode) where
  insert-Points :
      (j : MetaKey) (a : ℕ)
      → Maps.lookup j (insert k v c).lookup ≡ some a
      → Points (insert k v c) j a
  unfolding deref
  insert-Points j a m = elim (Bool-cases (k == j)) [
    | inl same ↦
        let e : k ≡ j = (key_beq_iff k j).0 same in
        let kept : drops k v c j ≡ false = ground (arith, lookup-insert-drops c k v j) in
        let at : a ≡ c.fresh = ground (arith, lookup-insert-drops c k v j) in
        record {
          inode = v;
          reads = deref-insert c k v a j v (ground arith) kept;
          below = ground (arith, insert_rest c k v);
        }
    | inr other ↦
        let p : Points c j a = valid.linked j a (ground (arith, lookup-insert-drops c k v j)) in
        let kept : drops k v c j ≡ false = ground (arith, lookup-insert-drops c k v j) in
        record {
          inode = p.inode;
          reads = deref-insert c k v a j p.inode (ground (arith, p.reads, p.below)) kept;
          below = ground (arith, p.below, insert_rest c k v);
        }
  ]

  stored-insert :
      (j : MetaKey)
      → stored j (insert k v c)
        ≡ (if drops k v c j then none else if k == j then some v else stored j c)
  unfolding stored deref
  stored-insert j = elim (Bool-cases (drops k v c j)) [
    | inl gone ↦ ground (arith, lookup-insert-drops c k v j)
    | inr kept ↦ elim (Bool-cases (k == j)) [
      | inl same ↦
          let e : k ≡ j = (key_beq_iff k j).0 same in
          let r : deref c.fresh (insert k v c).cache ≡ some (j, v) =
            deref-insert c k v c.fresh j v (ground arith) kept in
          ground (arith, lookup-insert-drops c k v j)
      | inr other ↦ elim (Option-cases (Maps.lookup j c.lookup)) [
        | inl out ↦ ground (arith, lookup-insert-drops c k v j)
        | inr (a, m) ↦
            let p : Points c j a = valid.linked j a m in
            let r : deref a (insert k v c).cache ≡ some (j, p.inode) =
              deref-insert c k v a j p.inode (ground (arith, p.reads, p.below)) kept in
            ground (arith, lookup-insert-drops c k v j, p.reads)
      ]
    ]
  ]

  -- On a valid dentry cache, Insert keeps it valid and its size as it was; then the new entry is
  -- found and every other one is as before, but for an entry with the key of the last node where
  -- the cache was full.
  pub insert-stored :
      IsValid (insert k v c)
      × ((j : MetaKey)
          → stored j (insert k v c)
            ≡ (if drops k v c j then none else if k == j then some v else stored j c))
      × ((insert k v c).maxsize ≡ c.maxsize)
  insert-stored = (
    record { linked = insert-Points; bounded = ground (arith, insert_rest c k v, valid.bounded) },
    stored-insert,
    (insert_rest c k v).1,
  )
