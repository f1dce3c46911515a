-- ===== src/Tfs/Path/Walk.antt =====
-- Path lookup against a walk that asks the metadata table alone.
use tablefs.Base.{
  ℕ, ◌≡◌, refl, sym, ap, ◌∙◌, Option, none, some, List, [], ◌∷◌, ◌++◌, ◌>>=◌, if◌then◌else◌,
  nat_beq, length, arith, Option-cases, Bool-cases, inl, inr, ◌==◌,
}
use tablefs.Key.{Inode, MetaKey, root_inode_id, key_eq, key_beq_iff}
use tablefs.Hash.Tail.{AreBytes}
use tablefs.Hash.Reference.{reference, murmur64-reference}
use tablefs.Dentry
use tablefs.Dentry.{DentryCache}
use tablefs.Dentry.Invariant.{IsValid, stored, find-stored}
use tablefs.Dentry.Insertion.{insert-stored}
use tablefs.Adaptor
use tablefs.Adaptor.{Adaptor}
use tablefs.Value.{InodeValue}
use tablefs.Platform.{Platform}
use tablefs.Tfs.{TableFs, path_delimiter, enoent, build_meta_key}
use tablefs.Tfs.Path.{strchr, look_in}

-- A path behind its first delimiter: the first component, and the later ones.
unfoldable pub split : List ℕ → List ℕ × List (List ℕ)
split [] = ([], [])
split (b ∷ bs) =
    let (c, cs) = split bs in if nat_beq b path_delimiter then ([], c ∷ cs) else (b ∷ c, cs)

-- The key of a name in a directory.
pub key_of : Inode → List ℕ → MetaKey
key_of inode name = record { inode_id = inode; hash_id = reference name 123 }

unfoldable pub root_key : MetaKey
unfolding key_of
root_key = key_of root_inode_id []

-- At the last component: an empty one, behind a final delimiter, stands for what came before it.
unfoldable pub arrive : Inode → MetaKey → List ℕ → MetaKey × List ℕ
arrive inode before [] = (before, path_delimiter ∷ [])
arrive inode before (b ∷ bs) = (key_of inode (b ∷ bs), b ∷ bs)

module _ {P : Platform} (a : Adaptor P) where
  -- Each component but the last is looked up in the table, in the directory found so far.
  unfoldable pub walk : Inode → MetaKey → List ℕ → List (List ℕ) → Option (MetaKey × List ℕ)
  walk inode before c [] = some (arrive inode before c)
  walk inode before c (d ∷ ds) = do
    v ← Adaptor.get P (key_of inode c) a
    walk v.header.fstat.st_ino (key_of inode c) d ds

  -- The key and the name that a path stands for.
  unfoldable pub resolve : List ℕ → Option (MetaKey × List ℕ)
  unfolding walk
  resolve rest = walk root_inode_id root_key (split rest).0 (split rest).1

-- The dentry cache is sound, and what it holds is what the table says.
pub record IsCoherent {P : Platform} (s : TableFs P) : Type 0 where
  pub valid : IsValid s.dentry_cache
  pub agrees :
      (k : MetaKey) (inode : Inode)
      → stored k s.dentry_cache ≡ some inode
      → (v : InodeValue) × (Adaptor.get P k s.inode_cache.metadb_ ≡ some v)
        × (v.header.fstat.st_ino ≡ inode)

-- What a lookup may change: the dentry cache and `errno`.
pub record IsSame {P : Platform} (s t : TableFs P) : Type 0 where
  pub same_state : t.state_ ≡ s.state_
  pub same_inodes : t.inode_cache ≡ s.inode_cache

pub strchr-split :
    (bs : List ℕ) (n : ℕ) (r : List ℕ)
    → strchr bs ≡ some (n, r)
    → (name rest : List ℕ) × (bs ≡ name ++ r)
      × (length name ≡ n)
      × (r ≡ path_delimiter ∷ rest)
      × (split bs ≡ (name, (split rest).0 ∷ (split rest).1))
unfolding strchr split
strchr-split [] n r h = ground arith
strchr-split (b ∷ bs) n r h = elim (Bool-cases (nat_beq b path_delimiter)) [
  | inl here ↦ ([], bs, ground arith, ground arith, ground arith, ground arith)
  | inr later ↦ elim (Option-cases (strchr bs)) [
    | inl out ↦ absurd (ground arith)
    | inr ((m, q), found) ↦
        let (name, rest, e1, e2, e3, e4) = strchr-split bs m q found in
        let at : q ≡ r = ground arith in
        (b ∷ name, rest, ground arith, ground arith, sym at ∙ e3, ground arith)
  ]
]

pub strchr-none : (bs : List ℕ) → strchr bs ≡ none → split bs ≡ (bs, [])
unfolding strchr split
strchr-none [] h = refl
strchr-none (b ∷ bs) h = ground (arith, strchr-none bs)

pub build_meta_key-key_of :
    (name rest : List ℕ) (inode : Inode)
    → AreBytes (name ++ rest)
    → build_meta_key (name ++ rest) (length name) inode ≡ some (key_of inode name)
unfolding build_meta_key key_of
build_meta_key-key_of name rest inode bytes = rw (murmur64-reference name rest 123 bytes)

-- The inode that a value found in the table is about.
abbrev pub child_of : Option InodeValue → Option Inode
child_of none = none
child_of (some v) = some v.header.fstat.st_ino

module _ {P : Platform} {s : TableFs P} (ok : IsCoherent s) (k : MetaKey) where
  after_insert :
      (d : DentryCache) (v : InodeValue)
      → IsValid d
      → ((j : MetaKey) → stored j d ≡ stored j s.dentry_cache)
      → Adaptor.get P k s.inode_cache.metadb_ ≡ some v
      → IsCoherent (record s { dentry_cache = Dentry.insert k v.header.fstat.st_ino d })
  after_insert d v valid same got =
      let inode = v.header.fstat.st_ino in
      let (kept, now, _) = insert-stored valid k inode in
      record {
        valid = kept;
        agrees = λ j i h. elim (Bool-cases (k == j)) [
          | inl here ↦
              let e : k ≡ j = (key_beq_iff k j).0 here in
              (
                v,
                ap (λ (t : MetaKey). Adaptor.get P t s.inode_cache.metadb_) (sym e) ∙ got,
                ground (arith, now j),
              )
          | inr other ↦ ok.agrees j i (ground (arith, now j, same j))
        ];
      }

  -- A search for one directory finds what the table says, whether or not the cache has it.
  pub look_in_lem :
      (t : TableFs P) × (look_in P k s ≡ some (child_of (Adaptor.get P k s.inode_cache.metadb_), t))
      × IsCoherent t
      × IsSame s t
  unfolding look_in
  look_in_lem =
      let (d, found, valid, same, _) = find-stored ok.valid k in
      elim (Option-cases (stored k s.dentry_cache)) [
        | inr (inode, hit) ↦
            let (v, got, e) = ok.agrees k inode hit in
            (
              record s { dentry_cache = d },
              ground arith,
              record { valid = valid; agrees = λ j i h. ok.agrees j i (ground (arith, same j)) },
              record { same_state = refl; same_inodes = refl },
            )
        | inl miss ↦ elim (Option-cases (Adaptor.get P k s.inode_cache.metadb_)) [
          | inl out ↦ (
            record s { dentry_cache = d; errno = enoent },
            ground arith,
            record { valid = valid; agrees = λ j i h. ok.agrees j i (ground (arith, same j)) },
            record { same_state = refl; same_inodes = refl },
          )
          | inr (v, got) ↦ (
            record s { dentry_cache = Dentry.insert k v.header.fstat.st_ino d },
            ground arith,
            after_insert d v valid same got,
            record { same_state = refl; same_inodes = refl },
          )
        ]
      ]
