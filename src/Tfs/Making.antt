-- ===== src/Tfs/Making.antt =====
-- fs/tablefs.cpp: the table after MakeNode and MakeDir.
use tablefs.Base.{
  ℕ, ◌+◌, ◌%◌, ◌<◌, ◌≡◌, refl, ◌∙◌, true, Option, none, some, List, [], ◌∷◌, arith, length,
  if◌then◌else◌, ◌==◌, >>=-eq-some, Bool-cases, inl, inr,
}
use tablefs.Base.Int.{ℤ, pos}
use Prim.Native.Nat.{bit_or}
use tablefs.Hash.Tail.{AreBytes}
use tablefs.Key.{Inode, MetaKey, key_eq, u32, u64}
use tablefs.Value.{InodeValue}
use tablefs.Value.Data.{IsLaidOut}
use tablefs.Platform.{Platform, DbLaws}
use tablefs.Adaptor
use tablefs.Adaptor.{Adaptor}
use tablefs.Adaptor.Table.{get-put}
use tablefs.Tfs.{TableFs, path_delimiter, new_inode, init_stat, init_inode_value}
use tablefs.Tfs.Naming.{init_inode_value-IsLaidOut}
use tablefs.Tfs.Path.Walk.{IsCoherent, walk, resolve, key_of}
use tablefs.Tfs.Path.Loop.{path_lookup-resolve}
use tablefs.Tfs.Entries.{put_entry, take_inode, make_entry, make_node, make_dir}

module _ {P : Platform} where
  -- The second table has all that the first one has.
  abbrev Extends : Adaptor P → Adaptor P → Type 0
  Extends a b =
      (k : MetaKey) (v : InodeValue) → Adaptor.get P k a ≡ some v → Adaptor.get P k b ≡ some v

  walk-Extends :
      (a b : Adaptor P) (inode : Inode) (before : MetaKey) (c : List ℕ) (ds : List (List ℕ))
      (out : MetaKey × List ℕ)
      → Extends a b
      → walk a inode before c ds ≡ some out
      → walk b inode before c ds ≡ some out
  unfolding walk
  walk-Extends a b inode before c [] out more ran = ran
  walk-Extends a b inode before c (d ∷ ds) out more ran =
      let (v, there, rest) = >>=-eq-some (Adaptor.get P (key_of inode c) a) _ ran in
      ground (
        arith,
        more (key_of inode c) v there,
        walk-Extends a b v.header.fstat.st_ino (key_of inode c) d ds out more rest,
      )

  -- The value of a new entry.
  pub record IsNew (mode dev : ℕ) (filename : List ℕ) (s : TableFs P) (v : InodeValue)
      : Type 0 where
    pub laid : IsLaidOut v filename []
    pub no_blob : v.header.has_blob ≡ 0
    pub its_mode : v.header.fstat.st_mode ≡ mode
    pub its_number : v.header.fstat.st_ino ≡ (s.state_.max_inode_num + 1) % u64
    pub its_device : v.header.fstat.st_dev ≡ dev
    pub empty : v.header.fstat.st_size ≡ 0
    pub made_now : v.header.fstat.st_mtim ≡ s.inode_cache.clock

  -- What a handler that makes an entry returns, for the mode with the type of the file.
  pub record IsMade (mode dev : ℕ) (rest : List ℕ) (key : MetaKey) (filename : List ℕ)
      (s : TableFs P) (out : Option (ℤ × TableFs P)) : Type 0 where
    pub after : TableFs P
    pub returns : out ≡ some (pos 0, after)
    pub value : InodeValue
    pub is_new : IsNew mode dev filename s value
    pub table :
        (j : MetaKey)
        → Adaptor.get P j after.inode_cache.metadb_
          ≡ (if key == j then some value else Adaptor.get P j s.inode_cache.metadb_)
    pub number_taken : after.state_.max_inode_num ≡ value.header.fstat.st_ino
    pub coherent : IsCoherent after
    pub resolves : resolve after.inode_cache.metadb_ rest ≡ some (key, filename)

  -- LevelDB stores a new value without an error.
  abbrev pub Stores : ℕ → ℕ → MetaKey → List ℕ → TableFs P → Type 0
  Stores mode dev key filename s =
      (v : InodeValue)
      → IsNew mode dev filename s v
      → (Adaptor.put P s.inode_cache.clock key v s.inode_cache.metadb_).0 ≡ true

  module _ (laws : DbLaws P) (rest : List ℕ) (key : MetaKey) (filename : List ℕ) (s : TableFs P)
      (bytes : AreBytes rest) (ok : IsCoherent s) (short : length filename < u32)
      (place : resolve s.inode_cache.metadb_ rest ≡ some (key, filename))
      (absent : Adaptor.get P key s.inode_cache.metadb_ ≡ none) where
    make_entry-IsMade :
        (mode dev : ℕ)
        → Stores mode dev key filename s
        → IsMade mode dev rest key filename s (make_entry P (path_delimiter ∷ rest) mode dev s)
    unfolding make_entry take_inode put_entry new_inode init_inode_value init_stat resolve
    make_entry-IsMade mode dev stores =
        let (t, looked, ok', same, _) = path_lookup-resolve rest s bytes ok in
        let u = (take_inode P t).1 in
        let v = init_inode_value P (take_inode P t).0 mode dev filename u in
        let fresh : IsNew mode dev filename s v = record {
          laid = (init_inode_value-IsLaidOut (take_inode P t).0 mode dev filename u short).0;
          no_blob = refl;
          its_mode = refl;
          its_number = ground (arith, same.same_state);
          its_device = refl;
          empty = refl;
          made_now = ground (arith, same.same_inodes);
        } in
        let stored : (Adaptor.put P t.inode_cache.clock key v t.inode_cache.metadb_).0 ≡ true =
          ground (arith, stores v fresh, same.same_inodes) in
        let a = (Adaptor.put P t.inode_cache.clock key v t.inode_cache.metadb_).1 in
        let w = record u { inode_cache = record (u.inode_cache) { metadb_ = a } } in
        let got : (j : MetaKey)
            → Adaptor.get P j a
              ≡ (if key == j then some v else Adaptor.get P j s.inode_cache.metadb_) =
          λ j.
            get-put laws t.inode_cache.metadb_ t.inode_cache.clock key j v stored
            ∙ ground (arith, same.same_inodes) in
        let more : Extends s.inode_cache.metadb_ a = λ j x there. elim (Bool-cases (key == j)) [
          | inl e ↦ absurd (ground (arith, key_eq.beq_iff key j, e, there, absent))
          | inr ne ↦ ground (arith, got j, ne, there)
        ] in
        record {
          after = w;
          returns = ground (arith, looked, place, stored);
          value = v;
          is_new = fresh;
          table = got;
          number_taken = refl;
          coherent = record {
            valid = ok'.valid;
            agrees = λ k inode h.
                let (x, there, number) = ok'.agrees k inode h in
                (x, more k x (ground (arith, there, same.same_inodes)), number);
          };
          resolves = walk-Extends s.inode_cache.metadb_ a _ _ _ _ (key, filename) more place;
        }

    -- MakeNode and MakeDir of a path that begins with a delimiter and that the table resolves to a
    -- key it has no value for, under a name shorter than 2 ^ 32 bytes, from a state whose dentry
    -- cache agrees with the table, where Put returns 0 for the new value: both return 0. The table
    -- then has a value under the key, with the name and no data, the next number, and the mode
    -- together with the bit of a regular file or of a directory; for any other key it has what it
    -- had. The dentry cache agrees with the new table, in which the path resolves to the same key.
    pub make_node-make_dir-get :
        (mode dev : ℕ)
        → Stores (bit_or mode 0o100000) dev key filename s
        → Stores (bit_or mode 0o040000) 0 key filename s
        → IsMade
            (bit_or mode 0o100000)
            dev
            rest
            key
            filename
            s
            (make_node P (path_delimiter ∷ rest) mode dev s)
          × IsMade
              (bit_or mode 0o040000)
              0
              rest
              key
              filename
              s
              (make_dir P (path_delimiter ∷ rest) mode s)
    unfolding make_node make_dir
    make_node-make_dir-get mode dev node dir = (
      make_entry-IsMade (bit_or mode 0o100000) dev node,
      make_entry-IsMade (bit_or mode 0o040000) 0 dir,
    )
