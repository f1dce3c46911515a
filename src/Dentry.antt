-- ===== src/Dentry.antt =====
-- fs/dcache.h and fs/dcache.cpp: the cache from (parent inode, name hash) to inode, least recently
-- used last. `cache` is the `std::list`, each node with the address that an iterator holds, and
-- `lookup` the `std::unordered_map` from keys to iterators. Each method runs under the cache's
-- mutex from its first line to its last, so a method is one step. `none` is the use of an
-- iterator whose node is gone, which is undefined behaviour.
mod Nodes
pub mod Invariant
pub mod Insertion
pub mod History
use tablefs.Base.{
  ℕ, zero, suc, ◌+◌, ◌≡◌, Bool, true, false, Option, none, some, List, [], ◌∷◌, ltb, nat_beq,
  if◌then◌else◌, length, ◌>>=◌,
}
use tablefs.Base.Maps
use tablefs.Key.{Inode, MetaKey, key_eq}

abbrev pub Entry : Type 0
Entry = MetaKey × Inode

-- A node of the list: its address and its entry.
abbrev pub Node : Type 0
Node = ℕ × Entry

pub record DentryCache : Type 0 where
  pub maxsize : ℕ
  pub cache : List Node
  pub lookup : List (MetaKey × ℕ)
  pub fresh : ℕ

-- `DentryCache(size)`
unfoldable pub init : ℕ → DentryCache
init size = record { maxsize = size; cache = []; lookup = []; fresh = 0 }

-- `*it`
unfoldable pub deref : ℕ → List Node → Option Entry
deref it [] = none
deref it ((a, e) ∷ l) = if nat_beq a it then some e else deref it l

-- `cache.erase(it)`
unfoldable pub erase_at : ℕ → List Node → List Node
erase_at it [] = []
erase_at it ((a, e) ∷ l) = if nat_beq a it then l else (a, e) ∷ erase_at it l

-- `cache.back().first`, of the list with `n` in front
unfoldable pub back_key : Node → List Node → MetaKey
back_key (a, (k, v)) [] = k
back_key n (m ∷ l) = back_key m l

-- `cache.pop_back()`
unfoldable pub pop_back : Node → List Node → List Node
pop_back n [] = []
pop_back n (m ∷ l) = n ∷ pop_back m l

-- `Find`: the entry moves to the front. A hit makes a new node and erases the old one.
pub find : MetaKey → DentryCache → Option (Option Inode × DentryCache)
unfolding deref erase_at Maps.lookup Maps.insert
find key c = elim (Maps.lookup key c.lookup) [
  | none ↦ some (none, c)
  | some it ↦ elim (deref it c.cache) [
    | none ↦ none
    | some e ↦ some (
      some e.1,
      record c {
        cache = erase_at it ((c.fresh, e) ∷ c.cache);
        lookup = Maps.insert key c.fresh c.lookup;
        fresh = suc c.fresh;
      },
    )
  ]
]

-- `Insert`: a new node in front; the node at the back goes when there are more than `maxsize`.
pub insert : MetaKey → Inode → DentryCache → DentryCache
unfolding back_key pop_back Maps.insert Maps.erase
insert key value c =
    let node : Node = (c.fresh, (key, value)) in
    let mapped = Maps.insert key c.fresh c.lookup in
    if ltb c.maxsize (length (node ∷ c.cache))
    then record c {
      cache = pop_back node c.cache;
      lookup = Maps.erase (back_key node c.cache) mapped;
      fresh = suc c.fresh;
    }
    else record c { cache = node ∷ c.cache; lookup = mapped; fresh = suc c.fresh }

-- `Evict`: the key leaves the map, its node stays in the list.
pub evict : MetaKey → DentryCache → DentryCache
unfolding Maps.lookup Maps.erase
evict key c = elim (Maps.lookup key c.lookup) [
  | none ↦ c
  | some it ↦ record c { lookup = Maps.erase key c.lookup }
]
