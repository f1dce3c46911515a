-- ===== src/Icache.antt =====
-- fs/icache.h and fs/icache.cpp: the cache of inodes. An `InodeCacheHandle` lives on the heap at
-- an address until the deleter frees it; `none` is an access through the address of a handle that
-- has been freed. `clock` is what `time(NULL)` returns.
pub mod Heap
pub mod Sound
pub mod Operations
pub mod Getting
pub mod Writing
pub mod Dropping
pub mod Durable
pub mod Deleting
pub mod Gone
pub mod Tidy
pub mod Committing
pub mod Flushing
pub mod Current
use tablefs.Base.{
  ℕ, suc, Bool, true, false, Option, none, some, List, [], ◌∷◌, ◌++◌, if◌then◌else◌, ◌>>=◌, nat_eq,
}
use tablefs.Base.Maps
use tablefs.Key.{MetaKey}
use tablefs.Value.{InodeValue}
use tablefs.Platform.{Platform, Ptr, Update, puts, deletes}
use tablefs.Adaptor
use tablefs.Adaptor.{Adaptor}

pub data Mode : Type 0 where
  inode_read inode_delete inode_write : Mode

-- `mode > INODE_READ`
abbrev pub above_read : Mode → Bool
above_read Mode.inode_read = false
above_read Mode.inode_delete = true
above_read Mode.inode_write = true

pub record InodeCacheHandle (P : Platform) : Type 0 where
  pub key_ : MetaKey
  pub value_ : InodeValue
  pub mode_ : Mode
  pub pointer : Platform.Handle P

pub record InodeCache (P : Platform) : Type 0 where
  pub metadb_ : Adaptor P
  pub cache : Platform.Cache P
  pub handles : List (Ptr × InodeCacheHandle P)
  pub next_handle : Ptr
  pub clock : ℕ

module _ (P : Platform) where
  open P use {cache_insert, cache_lookup, cache_value, cache_release, cache_erase}

  -- `*handle`
  unfoldable pub handle_at : Ptr → InodeCache P → Option (InodeCacheHandle P)
  unfolding Maps.lookup
  handle_at p c = Maps.lookup p c.handles

  unfoldable pub set_handle : Ptr → InodeCacheHandle P → InodeCache P → InodeCache P
  unfolding Maps.insert
  set_handle p h c = record c { handles = Maps.insert p h c.handles }

  -- What becomes of a handle's value in the table when the handle is cleaned.
  unfoldable pub flush : ℕ → InodeCacheHandle P → Adaptor P → Adaptor P
  flush now h a = elim h.mode_ [
    | Mode.inode_write ↦ (Adaptor.put P now h.key_ h.value_ a).1
    | Mode.inode_delete ↦ Adaptor.delete P h.key_ a
    | Mode.inode_read ↦ a
  ]

  -- `CleanInodeHandle`, the deleter
  unfoldable pub clean_inode_handle : Ptr → InodeCache P → Option (InodeCache P)
  clean_inode_handle p c = do
    h ← handle_at p c
    some (record c { metadb_ = flush c.clock h c.metadb_; handles = Maps.erase p c.handles })

  -- The deleter at each pointer that the cache drops.
  unfoldable pub clean_all : List Ptr → InodeCache P → Option (InodeCache P)
  clean_all [] c = some c
  clean_all (p ∷ ps) c = do d ← clean_inode_handle p c; clean_all ps d

  -- `new InodeCacheHandle(key, value, mode)`, put into the cache
  unfoldable pub add_handle :
      MetaKey → InodeValue → Mode → InodeCache P → Option (Ptr × InodeCache P)
  add_handle key value mode c =
      let p = c.next_handle in
      let (ch, dropped, cache') = cache_insert key p c.cache in
      let h : InodeCacheHandle P = record {
        key_ = key;
        value_ = value;
        mode_ = mode;
        pointer = ch;
      } in
      do
        d ←
            clean_all dropped (record c {
              cache = cache';
              handles = Maps.insert p h c.handles;
              next_handle = suc p;
            })
        some (p, d)

  -- `Insert`
  unfoldable pub insert : MetaKey → InodeValue → InodeCache P → Option (Ptr × InodeCache P)
  insert key value c = add_handle key value Mode.inode_write c

  -- `Get`: NULL is none
  unfoldable pub get : MetaKey → Mode → InodeCache P → Option (Option Ptr × InodeCache P)
  get key mode c =
      let (found, cache') = cache_lookup key c.cache in
      let c1 = record c { cache = cache' } in
      elim found [
        | none ↦ elim (Adaptor.get P key c.metadb_) [
          | none ↦ some (none, c1)
          | some value ↦ do (p, d) ← add_handle key value mode c1; some (some p, d)
        ]
        | some ch ↦ do
          h ← handle_at (cache_value ch cache') c1
          some (
            some (cache_value ch cache'),
            if above_read mode
                then set_handle (cache_value ch cache') (record h { mode_ = mode }) c1
                else c1,
          )
      ]

  -- `Release`
  unfoldable pub release : Ptr → InodeCache P → Option (InodeCache P)
  release p c = do
    h ← handle_at p c
    let (dropped, cache') = cache_release h.pointer c.cache
    clean_all dropped (record c { cache = cache' })

  -- `Evict`
  unfoldable pub evict : MetaKey → InodeCache P → Option (InodeCache P)
  evict key c =
      let (dropped, cache') = cache_erase key c.cache in
      clean_all dropped (record c { cache = cache' })

  -- `WriteBack`
  unfoldable pub write_back : Ptr → InodeCache P → Option (InodeCache P)
  write_back p c = do
    h ← handle_at p c
    elim h.mode_ [
      | Mode.inode_write ↦ some (
          set_handle p (record h { mode_ = Mode.inode_read })
            (record c { metadb_ = (Adaptor.put P c.clock h.key_ h.value_ c.metadb_).1 }))
      | Mode.inode_delete ↦ evict h.key_ (record c { metadb_ = Adaptor.delete P h.key_ c.metadb_ })
      | Mode.inode_read ↦ some c
    ]

  -- One of the two halves of `BatchCommit`: the update for the batch.
  unfoldable pub batch_one : Ptr → List Update → InodeCache P → Option (List Update × InodeCache P)
  batch_one p batch c = do
    h ← handle_at p c
    elim h.mode_ [
      | Mode.inode_write ↦ some (
        batch ++ puts h.key_ h.value_ ∷ [],
        set_handle p (record h { mode_ = Mode.inode_read }) c,
      )
      | Mode.inode_delete ↦ do d ← evict h.key_ c; some (batch ++ deletes h.key_ ∷ [], d)
      | Mode.inode_read ↦ some (batch, c)
    ]

  -- `BatchCommit`
  unfoldable pub batch_commit : Ptr → Ptr → InodeCache P → Option (InodeCache P)
  batch_commit p1 p2 c = do
    (batch1, d) ← batch_one p1 [] c
    (batch2, e) ← batch_one p2 batch1 d
    some (record e { metadb_ = (Adaptor.write P batch2 e.metadb_).1 })
