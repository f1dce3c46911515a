-- ===== src/Tests/Removal.antt =====
-- MakeNode, MakeDir, Unlink, RemoveDir and Rename at concrete inputs.
use Prim.Native.Nat.{bit_or}
use tablefs.Base.{true, ◌≡◌, refl, some, none, [], ◌∷◌, arith, if◌then◌else◌, ◌==◌, nat_eq}
use tablefs.Base.Int.{pos}
use tablefs.Base.Maps
use tablefs.Key.{MetaKey, key_eq}
use tablefs.Adaptor
use tablefs.Platform.{puts, deletes}
use tablefs.Icache.{handle_at}
use tablefs.Icache.Deleting.{LifeLaws}
use tablefs.Icache.Current.{IsCurrent}
use tablefs.Icache.Tidy.{IsTidy, IsUnheld}
use tablefs.Tfs.{TableFs, renamed_inode_value, path_delimiter}
use tablefs.Dentry.{init}
use tablefs.Dentry.Invariant.{stored, init-IsValid}
use tablefs.Tfs.Path.Walk.{IsCoherent, resolve, walk, split, arrive}
use tablefs.Tfs.Entries.{unlink, remove_dir, make_node, make_dir}
use tablefs.Tfs.Renaming.{rename}
use tablefs.Tfs.Making.{IsMade, make_node-make_dir-get}
use tablefs.Tfs.Moved.{rename-get}
use tablefs.Tfs.Removal.{unlink-remove_dir-get}
use tablefs.Tests.{mounted, mounted-IsCoherent, key_of, directory_value}
use tablefs.Tests.Memory.{memory, memory-CacheLaws, memory-DbLaws}
use tablefs.Tests.Memory.Files.{memory-DropLaws}
use tablefs.Tests.Caching.{mounted-IsSound}

memory-LifeLaws : LifeLaws memory-CacheLaws
memory-LifeLaws = record { lives_bound = λ q c lives un. absurd (ground (arith, lives, un)) }

mounted-IsTidy : IsTidy memory-CacheLaws mounted.inode_cache
unfolding handle_at Maps.lookup
mounted-IsTidy q h e un = absurd (cc e)

mounted-IsUnheld : IsUnheld memory-CacheLaws (key_of 0 (b'a' ∷ [])) mounted.inode_cache
unfolding handle_at Maps.lookup
mounted-IsUnheld q h e own = absurd (cc e)

a_resolves :
    resolve mounted.inode_cache.metadb_ (b'a' ∷ []) ≡ some (key_of 0 (b'a' ∷ []), b'a' ∷ [])
unfolding resolve walk split arrive
a_resolves = refl

a_there :
    Adaptor.get memory (key_of 0 (b'a' ∷ [])) mounted.inode_cache.metadb_ ≡ some directory_value
unfolding Adaptor.get Maps.lookup
a_there = ground (arith, key_eq.beq_iff (key_of 0 (b'a' ∷ [])) (key_of 0 (b'a' ∷ [])))

unlink-remove_dir-get_example :
    ((u : TableFs memory) × (unlink memory (path_delimiter ∷ b'a' ∷ []) mounted ≡ some (pos 0, u))
      × ((j : MetaKey)
          → Adaptor.get memory j u.inode_cache.metadb_ ≡ (
              if key_of 0 (b'a' ∷ []) == j
              then none
              else Adaptor.get memory j mounted.inode_cache.metadb_)))
    × ((w : TableFs memory) × (remove_dir memory (path_delimiter ∷ b'a' ∷ []) mounted
          ≡ some (pos 0, w))
        × ((j : MetaKey)
            → Adaptor.get memory j w.inode_cache.metadb_ ≡ (
                if key_of 0 (b'a' ∷ []) == j
                then none
                else Adaptor.get memory j mounted.inode_cache.metadb_)))
unlink-remove_dir-get_example =
    unlink-remove_dir-get memory-CacheLaws memory-DropLaws memory-LifeLaws memory-DbLaws (b'a' ∷ [])
      mounted (key_of 0 (b'a' ∷ [])) (b'a' ∷ []) directory_value (omega arith) mounted-IsCoherent
      mounted-IsSound mounted-IsTidy mounted-IsUnheld a_resolves a_there refl

mounted-IsCurrent :
    IsCurrent memory-CacheLaws (key_of 0 (b'a' ∷ [])) directory_value mounted.inode_cache
unfolding handle_at Maps.lookup
mounted-IsCurrent q h e own = absurd (cc e)

b_resolves :
    resolve mounted.inode_cache.metadb_ (b'b' ∷ []) ≡ some (key_of 0 (b'b' ∷ []), b'b' ∷ [])
unfolding resolve walk split arrive
b_resolves = refl

batch_works :
    (Adaptor.write memory
      (deletes (key_of 0 (b'a' ∷ []))
        ∷ puts (key_of 0 (b'b' ∷ [])) (renamed_inode_value directory_value (b'b' ∷ []))
        ∷ [])
      mounted.inode_cache.metadb_).0
    ≡ true
unfolding Adaptor.write
batch_works = refl

-- A file system with an empty table.
abbrev blank : TableFs memory
blank = record mounted {
  inode_cache = record (mounted.inode_cache) {
    metadb_ = record (mounted.inode_cache.metadb_) { db = [] };
  };
}

blank-IsCoherent : IsCoherent blank
unfolding stored init Maps.lookup
blank-IsCoherent = record { valid = init-IsValid 2; agrees = λ k i h. absurd (ground arith) }

blank_resolves :
    resolve blank.inode_cache.metadb_ (b'b' ∷ []) ≡ some (key_of 0 (b'b' ∷ []), b'b' ∷ [])
unfolding resolve walk split arrive
blank_resolves = refl

blank_absent : Adaptor.get memory (key_of 0 (b'b' ∷ [])) blank.inode_cache.metadb_ ≡ none
unfolding Adaptor.get Maps.lookup
blank_absent = refl

-- /b, as a file and as a directory
make_node-make_dir-get_example :
    IsMade
      (bit_or 0o644 0o100000)
      0
      (b'b' ∷ [])
      (key_of 0 (b'b' ∷ []))
      (b'b' ∷ [])
      blank
      (make_node memory (path_delimiter ∷ b'b' ∷ []) 0o644 0 blank)
    × IsMade
        (bit_or 0o644 0o040000)
        0
        (b'b' ∷ [])
        (key_of 0 (b'b' ∷ []))
        (b'b' ∷ [])
        blank
        (make_dir memory (path_delimiter ∷ b'b' ∷ []) 0o644 blank)
unfolding Adaptor.put
make_node-make_dir-get_example =
    make_node-make_dir-get memory-DbLaws (b'b' ∷ []) (key_of 0 (b'b' ∷ [])) (b'b' ∷ []) blank
      (omega arith) blank-IsCoherent (omega arith) blank_resolves blank_absent 0o644 0 (λ v n. refl)
      (λ v n. refl)

-- /a becomes /b.
rename-get_example :
    (u : TableFs memory) × (rename memory
        (path_delimiter ∷ b'a' ∷ [])
        (path_delimiter ∷ b'b' ∷ [])
        mounted
      ≡ some (pos 0, u))
    × ((j : MetaKey)
        → Adaptor.get memory j u.inode_cache.metadb_ ≡ (
            if key_of 0 (b'a' ∷ []) == j
            then none
            else if key_of 0 (b'b' ∷ []) == j
            then some (renamed_inode_value directory_value (b'b' ∷ []))
            else Adaptor.get memory j mounted.inode_cache.metadb_))
rename-get_example =
    rename-get memory-CacheLaws memory-DropLaws memory-LifeLaws memory-DbLaws (b'a' ∷ [])
      (b'b' ∷ []) mounted (key_of 0 (b'a' ∷ [])) (key_of 0 (b'b' ∷ [])) (b'a' ∷ []) (b'b' ∷ [])
      directory_value (omega arith) (omega arith) mounted-IsCoherent mounted-IsSound mounted-IsTidy
      mounted-IsUnheld mounted-IsCurrent a_resolves b_resolves a_there batch_works refl
