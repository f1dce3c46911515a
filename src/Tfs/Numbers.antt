-- ===== src/Tfs/Numbers.antt =====
-- `FileSystemState::NewInode`: fresh numbers, each with a directory for its file.
use tablefs.Base.{ℕ, ◌+◌, ◌%◌, ◌≤◌, ◌<◌, ◌≡◌, refl, true, arith, Bool-cases, inl, inr, nat_beq}
use native.Mathlib.Decide.{ℕ_discrete}
use tablefs.Key.{u32, u64}
use tablefs.Platform.{Platform, DiskLaws, gives}
use tablefs.Tfs.{FileSystemState, new_inode, data_dir}

module _ {P : Platform} (laws : DiskLaws P) where
  open laws use {has_dir}

  -- Every directory up to that of the highest number is there.
  pub record HasDirs (s : FileSystemState P) : Type 0 where
    pub made : (d : ℕ) → d ≤ data_dir s.max_inode_num → has_dir d s.disk ≡ true

  new_dirs :
      (s : FileSystemState P)
      → HasDirs s
      → s.max_inode_num + 1 < u32
      → (nat_beq ((s.max_inode_num + 1) % 16384) 0 ≡ true
          → (Platform.disk_mkdir P (data_dir (s.max_inode_num + 1)) s.disk).0 ≡ gives tt)
      → (d : ℕ) → d ≤ data_dir (new_inode P s).0
      → has_dir d (new_inode P s).1.disk ≡ true
  unfolding new_inode
  new_dirs s dirs room works d h =
      let n = (s.max_inode_num + 1) % u64 in
      let same : n ≡ s.max_inode_num + 1 = omega arith in
      elim (Bool-cases (nat_beq (n % 16384) 0)) [
        | inl opens ↦ rw opens (elim (ℕ_discrete d (data_dir n)) [
          | yes e ↦ rw e (laws.mkdir_makes (data_dir n) s.disk (ground (arith, works, same, opens)))
          | no ne ↦ laws.mkdir_keeps (data_dir n) d s.disk (dirs.made d (ground arith))
        ])
        | inr stays ↦ rw stays (dirs.made d (ground arith))
      ]

  -- While the next number is below 2 ^ 32, the directories up to that of the highest number exist,
  -- and the mkdir for a multiple of 16384 succeeds, NewInode returns and records the next number,
  -- and the directories up to that of the new number exist.
  pub new_inode-HasDirs :
      (s : FileSystemState P)
      → HasDirs s
      → s.max_inode_num + 1 < u32
      → (nat_beq ((s.max_inode_num + 1) % 16384) 0 ≡ true
          → (Platform.disk_mkdir P (data_dir (s.max_inode_num + 1)) s.disk).0 ≡ gives tt)
      → ((new_inode P s).0 ≡ s.max_inode_num + 1)
        × ((new_inode P s).1.max_inode_num ≡ (new_inode P s).0)
        × (has_dir (data_dir (new_inode P s).0) (new_inode P s).1.disk ≡ true)
        × HasDirs (new_inode P s).1
  unfolding new_inode
  new_inode-HasDirs s dirs room works = (
    omega arith,
    refl,
    new_dirs s dirs room works (data_dir (new_inode P s).0) (omega arith),
    record { made = new_dirs s dirs room works },
  )
