-- ===== src/Tfs/Durable.antt =====
-- fs/tablefs.cpp: what is in the table after Release.
use tablefs.Base.{
  ℕ, ◌+◌, ◌-◌, ◌<◌, ◌≤◌, ◌≡◌, refl, sym, ap, ◌∙◌, true, none, some, List, arith, nat_beq,
  if◌then◌else◌, ◌==◌, length,
}
use mathlib.Core.Path.{subst}
use tablefs.Base.Int.{pos}
use tablefs.Key.{MetaKey, key_eq}
use tablefs.Value.{InodeValue, update_ihandle_value, update_attribute}
use tablefs.Adaptor
use tablefs.Adaptor.Table.{get-put}
use tablefs.Platform.{Platform, Ptr, DbLaws}
use tablefs.Platform.Caching.{CacheLaws}
use tablefs.Icache.{InodeCache, InodeCacheHandle, Mode, handle_at, set_handle}
use tablefs.Icache.Heap.{handle_at-set_handle}
use tablefs.Icache.Sound.{IsSound, set_handle-IsSound, IsReplaced-IsSound}
use tablefs.Icache.Operations.{evict_lem}
use tablefs.Icache.Dropping.{DropLaws, evict-IsStill}
use tablefs.Icache.Durable.{write_back-IsStored}
use tablefs.Tfs.{TableFs}
use tablefs.Tfs.Content.{FileHandle, write_file}
use tablefs.Tfs.Closing.{release_file, close_descriptor, touch}
use tablefs.Tfs.Inline.{IsInline, write_file-IsInline}

-- The value that Release stores.
abbrev pub touched : ℕ → InodeValue → InodeValue
touched now v = update_attribute (record (v.header.fstat) { st_atim = now; st_mtim = now }) v

touched-IsInline :
    {threshold : ℕ} {name content : List ℕ} (now : ℕ) (v : InodeValue)
    → IsInline threshold v name content
    → IsInline threshold (touched now v) name content
unfolding update_attribute
touched-IsInline now v i = record {
  laid = record { bytes = i.laid.bytes; named = i.laid.named };
  no_blob = i.no_blob;
  sized = i.sized;
  small = i.small;
}

module _ {P : Platform} (laws : CacheLaws P) (drops : DropLaws laws) (db_laws : DbLaws P) where
  open laws use {held, bound}

  -- The handle is the only one that the cache has for its key.
  abbrev pub IsTheEntry : Ptr → MetaKey → InodeCache P → Type 0
  IsTheEntry p key c = (q : Ptr) → bound key c.cache ≡ some q → q ≡ p

  pub release_file-stored :
      (fh : FileHandle) (s : TableFs P) (h : InodeCacheHandle P) (j : MetaKey)
      → IsSound laws s.inode_cache
      → 0 < held fh.handle_ s.inode_cache.cache
      → handle_at P fh.handle_ s.inode_cache ≡ some h
      → h.mode_ ≡ Mode.inode_write
      → fh.fd_ ≡ none
      → IsTheEntry fh.handle_ h.key_ s.inode_cache
      → (Adaptor.put P s.inode_cache.clock h.key_
          (touched s.inode_cache.clock h.value_)
          s.inode_cache.metadb_).0
        ≡ true
      → (t : TableFs P) × (release_file P fh s ≡ some (pos 0, t))
        × IsSound laws t.inode_cache
        × ((q : Ptr)
            → held q t.inode_cache.cache ≡ (
                if nat_beq q fh.handle_
                then held q s.inode_cache.cache - 1
                else held q s.inode_cache.cache))
        × (Adaptor.get P j t.inode_cache.metadb_ ≡ (
            if h.key_ == j
            then some (touched s.inode_cache.clock h.value_)
            else Adaptor.get P j s.inode_cache.metadb_))
  unfolding release_file close_descriptor touch set_handle
  release_file-stored fh s h j v more here mode closed only ok =
      let p = fh.handle_ in
      let c = s.inode_cache in
      let h1 = record h { value_ = touched c.clock h.value_ } in
      let c1 = set_handle P p h1 c in
      let here1 : handle_at P p c1 ≡ some h1 = ground (arith, handle_at-set_handle p p h1 c) in
      let v1 = set_handle-IsSound laws c p h h1 v here refl refl in
      let (d, st) = write_back-IsStored laws drops p h1 c1 v1 more here1 mode in
      let clean : (q : Ptr) (g : InodeCacheHandle P)
          → bound h.key_ d.cache ≡ some q
          → handle_at P q d ≡ some g
          → g.mode_ ≡ Mode.inode_read =
        λ q g b found.
          st.clean g (
            sym (ap (λ (o : Ptr). handle_at P o d) (only q (st.still_bound h.key_ q b))) ∙ found) in
      let (e, ran, kept) = evict_lem laws h.key_ d st.sound in
      let still = evict-IsStill laws drops h.key_ d e clean ran in
      (
        record s { inode_cache = e },
        ground (arith, here, mode, closed, st.writes, st.clean_there, st.releases, ran),
        kept.sound,
        λ q. kept.same_held q ∙ st.now_held q,
        ap (Adaptor.get P j) (still.same_table ∙ st.table)
            ∙ get-put db_laws c.metadb_ c.clock h.key_ j h1.value_ ok,
      )

  -- A write within the threshold through a handle that the client holds, and that is the entry of
  -- its key, to a file in the table with no file open on the disk, and then Release, where Put
  -- returns 0 for values with the name and the new data: both return, and the
  -- table has a value under the key of the file, with its name, whose data is the old one with the
  -- buffer in its place. The inode cache stays sound.
  pub release_file-write_file :
      {name content : List ℕ} (at flags : ℕ) (buf : List ℕ) (fh : FileHandle) (s : TableFs P)
      (h : InodeCacheHandle P)
      → IsSound laws s.inode_cache
      → 0 < held fh.handle_ s.inode_cache.cache
      → handle_at P fh.handle_ s.inode_cache ≡ some h
      → fh.fd_ ≡ none
      → IsTheEntry fh.handle_ h.key_ s.inode_cache
      → IsInline s.state_.threshold_ h.value_ name content
      → at + length buf ≤ s.state_.threshold_
      → ((v : InodeValue)
          → IsInline s.state_.threshold_ v name (update_ihandle_value at buf content)
          → (Adaptor.put P s.inode_cache.clock h.key_ v s.inode_cache.metadb_).0 ≡ true)
      → (t : TableFs P) × (u : TableFs P) × (v : InodeValue) × (write_file P buf at flags fh s
          ≡ some (pos (length buf), fh, t))
        × (release_file P fh t ≡ some (pos 0, u))
        × IsSound laws u.inode_cache
        × (Adaptor.get P h.key_ u.inode_cache.metadb_ ≡ some v)
        × IsInline s.state_.threshold_ v name (update_ihandle_value at buf content)
  release_file-write_file {name} {content} at flags buf fh s h v more here closed only i fits ok =
      let p = fh.handle_ in
      let (t, h', wrote, same, here', mode, good, same_key, same_pointer, set) =
        write_file-IsInline at flags buf fh s h here i fits in
      let sound =
        IsReplaced-IsSound laws p h h' s.inode_cache t.inode_cache v here same_pointer same_key
          set in
      let more' : 0 < held p t.inode_cache.cache =
        subst (λ (c : Platform.Cache P). 0 < held p c) (sym set.same_cache) more in
      let now = t.inode_cache.clock in
      let only' : IsTheEntry p h'.key_ t.inode_cache = λ q b. only q (
        sym (
          ap (λ (k : MetaKey). bound k t.inode_cache.cache) same_key
          ∙ ap (bound h.key_) set.same_cache)
        ∙ b) in
      let ok' : (Adaptor.put P now h'.key_ (touched now h'.value_) t.inode_cache.metadb_).0 ≡ true =
        ground (
          arith,
          ok (touched s.inode_cache.clock h'.value_)
              (touched-IsInline s.inode_cache.clock h'.value_ good),
          set.same_clock,
          same_key,
          set.same_table,
        ) in
      let (u, released, sound', count, table) =
        release_file-stored fh t h' h'.key_ sound more' here' mode closed only' ok' in
      (
        t,
        u,
        touched now h'.value_,
        wrote,
        released,
        sound',
        ground (arith, table, same_key, key_eq.beq_iff h'.key_ h'.key_),
        touched-IsInline now h'.value_ good,
      )
