-- ===== src/Tfs/Removal.antt =====
-- fs/tablefs.cpp: what Unlink and RemoveDir do to the table.
use mathlib.Core.Path.{subst}
use tablefs.Base.{
  ℕ, ◌≡◌, refl, ap, ◌∙◌, true, Option, none, some, List, ◌∷◌, arith, if◌then◌else◌, ◌==◌, ltb,
}
use tablefs.Base.Int.{pos}
use tablefs.Hash.Tail.{AreBytes}
use tablefs.Key.{MetaKey, key_eq}
use tablefs.Dentry
use tablefs.Value.{InodeValue}
use tablefs.Adaptor
use tablefs.Adaptor.Table.{get-delete}
use tablefs.Platform.{Platform, Ptr, DbLaws}
use tablefs.Platform.Caching.{CacheLaws}
use tablefs.Icache
use tablefs.Icache.{InodeCache, InodeCacheHandle, Mode}
use tablefs.Icache.Sound.{IsSound}
use tablefs.Icache.Getting.{get-Got, Got}
use tablefs.Icache.Dropping.{DropLaws}
use tablefs.Icache.Deleting.{LifeLaws, release-evict-gone}
use tablefs.Icache.Tidy.{IsTidy, IsUnheld, get-IsOnly}
use tablefs.Tfs.{TableFs, data_dir, data_file, path_delimiter}
use tablefs.Tfs.Path.Walk.{IsCoherent, resolve}
use tablefs.Tfs.Path.Loop.{path_lookup-resolve}
use tablefs.Tfs.Entries.{drop_entry, unlink, remove_dir}

module _ {P : Platform} (laws : CacheLaws P) (drops : DropLaws laws) (life : LifeLaws laws) where
  open laws use {held}

  -- Get in mode DELETE, and the end of Unlink and RemoveDir, of an entry in the table.
  removed :
      (key : MetaKey) (value : InodeValue) (c : InodeCache P)
      → IsSound laws c
      → IsTidy laws c
      → IsUnheld laws key c
      → Adaptor.get P key c.metadb_ ≡ some value
      → (p : Ptr) × (h : InodeCacheHandle P) × (d : InodeCache P) × (e : InodeCache P)
        × (f : InodeCache P) × (Icache.get P key Mode.inode_delete c ≡ some (some p, d))
        × (Icache.handle_at P p d ≡ some h)
        × (Icache.release P p d ≡ some e)
        × (Icache.evict P key e ≡ some f)
        × (f.metadb_ ≡ Adaptor.delete P key c.metadb_)
  removed key value c v tidy unheld there =
      let (out, d, got, good) = get-Got laws key Mode.inode_delete c v in go out d got good
    where
      go :
          (out : Option Ptr) (d : InodeCache P)
          → Icache.get P key Mode.inode_delete c ≡ some (out, d)
          → Got laws key Mode.inode_delete c out d
          → (p : Ptr) × (h : InodeCacheHandle P) × (d : InodeCache P) × (e : InodeCache P)
            × (f : InodeCache P) × (Icache.get P key Mode.inode_delete c ≡ some (some p, d))
            × (Icache.handle_at P p d ≡ some h)
            × (Icache.release P p d ≡ some e)
            × (Icache.evict P key e ≡ some f)
            × (f.metadb_ ≡ Adaptor.delete P key c.metadb_)
      go none d got good = absurd (ground (arith, good.absent, there))
      go (some p) d got good =
          let only = get-IsOnly laws key Mode.inode_delete c d p v tidy unheld got in
          let (e, f, released, evicted, table) =
            release-evict-gone laws drops life p good.handle d good.sound only.tidy
              (ground (arith, good.now_held p, only.was_unheld)) good.here (good.its_mode refl) in
          (
            p,
            good.handle,
            d,
            e,
            f,
            got,
            good.here,
            released,
            subst (λ k. Icache.evict P k e ≡ some f) good.its_key evicted,
            ground (arith, table, good.its_key, only.same_table),
          )

  -- Unlink and RemoveDir of a path that begins with a delimiter and that the table resolves to a key
  -- it has a value for, from a state whose dentry cache agrees with the table and whose inode cache
  -- is sound, with no handle of the key held and all that is not held in mode READ, where the
  -- delete of LevelDB succeeds: both return 0, and the table then has no value for the key, and for
  -- any other key what it had.
  pub unlink-remove_dir-get :
      (db_laws : DbLaws P) (rest : List ℕ) (s : TableFs P) (key : MetaKey) (filename : List ℕ)
      (value : InodeValue)
      → AreBytes rest
      → IsCoherent s
      → IsSound laws s.inode_cache
      → IsTidy laws s.inode_cache
      → IsUnheld laws key s.inode_cache
      → resolve s.inode_cache.metadb_ rest ≡ some (key, filename)
      → Adaptor.get P key s.inode_cache.metadb_ ≡ some value
      → (Platform.db_delete P key s.inode_cache.metadb_.db).0 ≡ true
      → ((u : TableFs P) × (unlink P (path_delimiter ∷ rest) s ≡ some (pos 0, u))
          × ((j : MetaKey)
              → Adaptor.get P j u.inode_cache.metadb_
                ≡ (if key == j then none else Adaptor.get P j s.inode_cache.metadb_)))
        × ((w : TableFs P) × (remove_dir P (path_delimiter ∷ rest) s ≡ some (pos 0, w))
            × ((j : MetaKey)
                → Adaptor.get P j w.inode_cache.metadb_
                  ≡ (if key == j then none else Adaptor.get P j s.inode_cache.metadb_)))
  unfolding unlink remove_dir drop_entry
  unlink-remove_dir-get db_laws rest s key filename value bytes ok v tidy unheld place there gone =
      let (t, looked, _, same, _) = path_lookup-resolve rest s bytes ok in
      let (p, h, d, e, f, got, here, released, evicted, table) =
        removed key value s.inode_cache v tidy unheld there in
      let got' = ap (Icache.get P key Mode.inode_delete) same.same_inodes ∙ got in
      let st = h.value_.header.fstat in
      let kept = Platform.disk_unlink P (data_dir st.st_ino) (data_file st.st_ino) t.state_.disk in
      let disk' = if ltb t.state_.threshold_ st.st_size then kept else t.state_.disk in
      let after : (j : MetaKey)
          → Adaptor.get P j f.metadb_
            ≡ (if key == j then none else Adaptor.get P j s.inode_cache.metadb_) =
        λ j. ap (Adaptor.get P j) table ∙ get-delete db_laws s.inode_cache.metadb_ key j gone in
      (
        (
          record t {
            state_ = record (t.state_) { disk = disk' };
            inode_cache = f;
            dentry_cache = Dentry.evict key t.dentry_cache;
          },
          ground (arith, looked, place, got', here, released, evicted),
          after,
        ),
        (
          record t { inode_cache = f; dentry_cache = Dentry.evict key t.dentry_cache },
          ground (arith, looked, place, got', released, evicted),
          after,
        ),
      )
