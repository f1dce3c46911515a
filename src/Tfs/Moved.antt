-- ===== src/Tfs/Moved.antt =====
-- fs/tablefs.cpp: what Rename does to the table.
use mathlib.Core.Path.{subst}
use tablefs.Base.{
  ℕ, ◌≡◌, refl, sym, ap, ◌∙◌, true, false, Option, none, some, List, [], ◌∷◌, arith, if◌then◌else◌,
  ◌==◌, nat_beq,
}
use tablefs.Base.Int.{pos}
use tablefs.Key.{MetaKey, key_eq}
use tablefs.Dentry
use tablefs.Value.{InodeValue}
use tablefs.Adaptor
use tablefs.Adaptor.{Adaptor}
use tablefs.Adaptor.Table.{get-delete, get-write, after_batch}
use tablefs.Platform.{Platform, Ptr, DbLaws, puts, deletes}
use tablefs.Platform.Caching.{CacheLaws}
use tablefs.Icache
use tablefs.Icache.{InodeCache, InodeCacheHandle, Mode}
use tablefs.Icache.Sound.{IsSound}
use tablefs.Icache.Operations.{add_handle_lem}
use tablefs.Icache.Getting.{get-Got, Got}
use tablefs.Icache.Dropping.{DropLaws}
use tablefs.Icache.Deleting.{LifeLaws}
use tablefs.Icache.Tidy.{IsTidy, IsUnheld, get-IsOnly, added-IsOnly}
use tablefs.Icache.Committing.{committed-gone}
use tablefs.Icache.Current.{IsCurrent, get-value}
use tablefs.Hash.Tail.{AreBytes}
use tablefs.Tfs.Path.Walk.{IsCoherent, resolve}
use tablefs.Tfs.Path.Loop.{path_lookup-resolve}
use tablefs.Tfs.{TableFs, path_delimiter, renamed_inode_value}
use tablefs.Tfs.Renaming.{move_entry, rename}

module _ {P : Platform} (laws : CacheLaws P) (drops : DropLaws laws) (life : LifeLaws laws) where
  open laws use {held}

  -- The table behind the move: the batch, and the delete of the handle of the old name.
  abbrev pub moved_table : MetaKey → MetaKey → InodeValue → Adaptor P → Adaptor P
  moved_table old_key new_key value a =
      Adaptor.delete P old_key (Adaptor.write P (deletes old_key ∷ puts new_key value ∷ []) a).1

  move_entry-table :
      (old_key new_key : MetaKey) (filename : List ℕ) (s : TableFs P) (out : Option Ptr)
      (c : InodeCache P) (value : InodeValue)
      → IsSound laws s.inode_cache
      → IsTidy laws s.inode_cache
      → IsUnheld laws old_key s.inode_cache
      → IsCurrent laws old_key value s.inode_cache
      → Adaptor.get P old_key s.inode_cache.metadb_ ≡ some value
      → Icache.get P old_key Mode.inode_delete s.inode_cache ≡ some (out, c)
      → Got laws old_key Mode.inode_delete s.inode_cache out c
      → (u : TableFs P) × (move_entry P old_key new_key filename s ≡ some (pos 0, u))
        × (u.inode_cache.metadb_
            ≡ moved_table old_key new_key
                (renamed_inode_value value filename)
                s.inode_cache.metadb_)
  unfolding move_entry Icache.insert
  move_entry-table old_key new_key filename s none c value v tidy unheld current there got good =
      absurd (ground (arith, good.absent, there))
  move_entry-table old_key new_key filename s (some p) c value v tidy unheld current there got
        good =
      let only = get-IsOnly laws old_key Mode.inode_delete s.inode_cache c p v tidy unheld got in
      let h = good.handle in
      let once : held p c.cache ≡ 1 = ground (arith, good.now_held p, only.was_unheld) in
      let tidy_c : IsTidy laws c = λ q g at un. only.tidy q g (ground (arith, un, once)) at un in
      let value' = renamed_inode_value h.value_ filename in
      let (r, d, inserted, new) =
        add_handle_lem laws new_key value' Mode.inode_write c good.sound in
      let added =
        added-IsOnly laws new_key value' Mode.inode_write c d r good.sound tidy_c inserted in
      let apart : nat_beq p r ≡ false = ground (arith, new.unheld, once) in
      let once_d : held p d.cache ≡ 1 = ground (arith, new.now_held p, once, apart) in
      let new_d : held r d.cache ≡ 1 = ground (arith, new.now_held r, new.unheld) in
      let tidy_d : IsTidy laws d = λ q g at un. added.tidy q g (ground (arith, un, new_d)) at un in
      let (e, f, g, i, committed, freed_new, freed_old, evicted, table) =
        committed-gone laws drops life p r h new.handle d new.sound tidy_d once_d new_d apart
          (new.kept p (ground (arith, once)) ∙ good.here) (good.its_mode refl) new.here
          new.its_mode in
      let old_value : h.value_ ≡ value =
        get-value laws old_key Mode.inode_delete value s.inode_cache c p h v current there got
          good.here in
      (
        record s {
          inode_cache = i;
          dentry_cache = Dentry.evict new_key (Dentry.evict old_key s.dentry_cache);
        },
        ground (
          arith,
          got,
          good.here,
          inserted,
          committed,
          freed_new,
          freed_old,
          subst (λ k. Icache.evict P k g ≡ some i) good.its_key evicted,
        ),
        ground (
          arith, table, good.its_key, new.its_key, new.its_value, old_value, added.same_table,
          only.same_table,
        ),
      )

  -- Rename of two paths that begin with a delimiter, where the table resolves them to two keys and has
  -- a value for the first, from a state whose dentry cache agrees with the table and whose inode
  -- cache is sound, with no handle of the old key held, the handles of that key as the table has
  -- it, and all that is not held in mode READ, where the batch and the delete behind it succeed: it
  -- returns 0; the table then has the value with the new name under the new key, no value for the
  -- old key, and for any other key what it had. Where the two keys are the same, it has none.
  pub rename-get :
      (db_laws : DbLaws P) (old_rest new_rest : List ℕ) (s : TableFs P) (old_key new_key : MetaKey)
      (old_name filename : List ℕ) (value : InodeValue)
      → AreBytes old_rest
      → AreBytes new_rest
      → IsCoherent s
      → IsSound laws s.inode_cache
      → IsTidy laws s.inode_cache
      → IsUnheld laws old_key s.inode_cache
      → IsCurrent laws old_key value s.inode_cache
      → resolve s.inode_cache.metadb_ old_rest ≡ some (old_key, old_name)
      → resolve s.inode_cache.metadb_ new_rest ≡ some (new_key, filename)
      → Adaptor.get P old_key s.inode_cache.metadb_ ≡ some value
      → (Adaptor.write P
          (deletes old_key ∷ puts new_key (renamed_inode_value value filename) ∷ [])
          s.inode_cache.metadb_).0
        ≡ true
      → (Platform.db_delete P old_key
          (Adaptor.write P
            (deletes old_key ∷ puts new_key (renamed_inode_value value filename) ∷ [])
            s.inode_cache.metadb_).1.db).0
        ≡ true
      → (u : TableFs P) × (rename P (path_delimiter ∷ old_rest) (path_delimiter ∷ new_rest) s
          ≡ some (pos 0, u))
        × ((j : MetaKey)
            → Adaptor.get P j u.inode_cache.metadb_ ≡ (
                if old_key == j
                then none
                else if new_key == j
                then some (renamed_inode_value value filename)
                else Adaptor.get P j s.inode_cache.metadb_))
  unfolding rename after_batch
  rename-get db_laws old_rest new_rest s old_key new_key old_name filename value old_bytes new_bytes
        ok v tidy unheld current place place' there wrote gone =
      let (t, looked, ok', same, _) = path_lookup-resolve old_rest s old_bytes ok in
      let (w, looked', _, same', _) = path_lookup-resolve new_rest t new_bytes ok' in
      let still : s.inode_cache ≡ w.inode_cache = sym (same'.same_inodes ∙ same.same_inodes) in
      let (out, c, got, good) =
        get-Got laws old_key Mode.inode_delete w.inode_cache (subst (IsSound laws) still v) in
      let (u, moved, table) =
        move_entry-table old_key new_key filename w out c value (subst (IsSound laws) still v)
          (subst (IsTidy laws) still tidy) (subst (IsUnheld laws old_key) still unheld)
          (subst (IsCurrent laws old_key value) still current)
          (subst (λ (o : InodeCache P). Adaptor.get P old_key o.metadb_ ≡ some value) still there)
          got good in
      let us = deletes old_key ∷ puts new_key (renamed_inode_value value filename) ∷ [] in
      let a = s.inode_cache.metadb_ in
      let table' : u.inode_cache.metadb_
          ≡ moved_table old_key new_key (renamed_inode_value value filename) a =
        subst
          (λ (o : InodeCache P).
            u.inode_cache.metadb_
            ≡ moved_table old_key new_key (renamed_inode_value value filename) o.metadb_)
          (sym still) table in
      (
        u,
        ground (
          arith,
          looked,
          place,
          looked',
          place',
          ap (λ (o : InodeCache P). resolve o.metadb_ new_rest) same.same_inodes,
          moved,
        ),
        λ j.
            ap (Adaptor.get P j) table'
            ∙ get-delete db_laws (Adaptor.write P us a).1 old_key j gone
            ∙ ground (arith, get-write db_laws a us j wrote),
      )
