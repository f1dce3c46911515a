-- ===== src/Tfs/Remounting.antt =====
-- fs/tfs_state.cpp: inode numbers from one mount to the next.
use tablefs.Base.{ℕ, ◌+◌, ◌%◌, ◌<◌, ◌≡◌, refl, ap, ◌∙◌, true, some, [], ◌∷◌, arith}
use tablefs.Base.Int.{pos}
use tablefs.Key.{u32}
use tablefs.Platform.{Platform, DiskLaws}
use tablefs.Tfs.{FileSystemState, new_inode}
use tablefs.Tfs.Numbers.{HasDirs}
use tablefs.Tfs.Mounting.{
  RootFile, scan_unsigned, scanned, unsigned_line, threshold_name, load_number, new_state, setup,
  destroy,
}
use tablefs.Util.Properties.{Properties, get_property_int}
use tablefs.Util.Text.{skip_spaces}
use tablefs.Util.Text.Decimal.{print_int_digits}

scan_unsigned-unsigned_line : (n : ℕ) → n < u32 → scan_unsigned (unsigned_line n) ≡ scanned n
unfolding unsigned_line scan_unsigned skip_spaces
scan_unsigned-unsigned_line n small =
    let (d, u, e, digit, got) = print_int_digits (n % u32) (10 ∷ []) refl in
    let same : n % u32 ≡ n = omega (arith, small) in
    ap scan_unsigned e ∙ ground (arith, digit, got, same)

module _ {P : Platform} (laws : DiskLaws P) (prop : Properties) {threshold : ℕ}
    (limit : get_property_int threshold_name (pos 4096) prop ≡ pos threshold) where
  -- A file system whose highest number is below 2 ^ 32, unmounted by Destroy with a root.dat that
  -- can be written, and mounted again by Setup, where LevelDB opens: Setup returns 0 and leaves
  -- root.dat alone, the directories of the numbers are there, and the first new number is the one
  -- behind the highest before.
  pub setup-destroy :
      (root : RootFile) (s : FileSystemState P)
      → root.writable ≡ true
      → s.max_inode_num < u32
      → HasDirs laws s
      → (t : FileSystemState P) × (setup P prop true (destroy P s root) (new_state P s.disk)
          ≡ some (pos 0, destroy P s root, t))
        × HasDirs laws t
        × ((new_inode P t).0 ≡ s.max_inode_num + 1)
  unfolding setup load_number new_state destroy new_inode
  setup-destroy root s writable small dirs = (
    record { max_inode_num = s.max_inode_num; threshold_ = threshold; disk = s.disk },
    ground (arith, limit, writable, scan_unsigned-unsigned_line s.max_inode_num small),
    record { made = dirs.made },
    omega (arith, small),
  )
