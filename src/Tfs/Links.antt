-- ===== src/Tfs/Links.antt =====
-- fs/tablefs.cpp: what Readlink returns after Symlink.
use tablefs.Base.{
  ℕ, ◌-◌, ◌<◌, ◌≡◌, refl, sym, ap, ◌∙◌, true, Bool, some, List, [], ◌∷◌, ◌++◌, arith, length, take,
}
use tablefs.Base.Int.{pos}
use tablefs.Key.{Inode, MetaKey, u32, key_eq}
use tablefs.Value.{InodeValue, get_inline_data}
use tablefs.Value.Data.{IsLaidOut, append_assoc, get_inline_data-slice}
use tablefs.Platform.{Platform, DbLaws}
use tablefs.Adaptor
use tablefs.Adaptor.Table.{get-put}
use tablefs.Tfs.{TableFs}
use tablefs.Tfs.Path.{path_lookup}
use tablefs.Tfs.Entries.{put_entry, take_inode, symlink_value, symlink, readlink}

symlink_value-IsLaidOut :
    {P : Platform} (inum : Inode) (target filename : List ℕ) (s : TableFs P)
    → length filename < u32
    → IsLaidOut (symlink_value P inum target filename s) filename target
unfolding symlink_value
symlink_value-IsLaidOut inum target filename s short = record {
  bytes = sym (append_assoc filename (0 ∷ []) target);
  named = omega arith;
}

module _ {P : Platform} (laws : DbLaws P) (target filename : List ℕ) (key : MetaKey)
    (t : TableFs P) where
  -- The value that `Symlink` puts, and the state after it.
  abbrev link_value : InodeValue
  link_value = let (inum, u) = take_inode P t in symlink_value P inum target filename u

  abbrev pub linked : Bool × TableFs P
  linked = put_entry P key link_value (take_inode P t).1

  get-linked : linked.0 ≡ true → Adaptor.get P key linked.1.inode_cache.metadb_ ≡ some link_value
  unfolding put_entry
  get-linked ok =
      let a = (take_inode P t).1.inode_cache.metadb_ in
      get-put laws a (take_inode P t).1.inode_cache.clock key key link_value ok
      ∙ ground (arith, key_eq.beq_iff key key)

  -- Let the lookup of Symlink give a key and a name shorter than 2 ^ 32 bytes, and let Put
  -- return 0 for the value that Symlink makes. Then Symlink returns 0; if the lookup of Readlink
  -- in the state after it gives the same key and leaves the inode cache and the table as they
  -- are, Readlink with a buffer of at least one byte returns 0 and the target, cut to one byte
  -- less than the buffer, with a zero byte at its end.
  pub readlink-symlink :
      (path : List ℕ) (size : ℕ) (s w : TableFs P)
      → length filename < u32
      → 0 < size
      → linked.0 ≡ true
      → path_lookup P path s ≡ some (some (key, filename), t)
      → path_lookup P path linked.1 ≡ some (some (key, filename), w)
      → w.inode_cache ≡ linked.1.inode_cache
      → (symlink P target path s ≡ some (pos 0, linked.1))
        × (readlink P path size linked.1 ≡ some (pos 0, take (size - 1) target ++ 0 ∷ [], w))
  unfolding symlink readlink
  readlink-symlink path size s w short room ok before after same =
      let got : Adaptor.get P key w.inode_cache.metadb_ ≡ some link_value =
        ap (λ c. Adaptor.get P key c.metadb_) same ∙ get-linked ok in
      let laid =
        symlink_value-IsLaidOut (take_inode P t).0 target filename (take_inode P t).1 short in
      let shown : get_inline_data link_value 0 (size - 1) ≡ take (size - 1) target =
        get_inline_data-slice laid 0 (size - 1) in
      (rw before refl, ground (arith, after, got, shown))
