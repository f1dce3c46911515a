-- ===== src/Tfs/Listing.antt =====
-- fs/tablefs.cpp: ReadDir. The iterator reads the table as it is when the iterator is made. The
-- filler is the caller's: it gets a name and gives an `int`, and may call the file system itself;
-- `W` is its own state.
use tablefs.Base.{ℕ, Bool, true, false, Option, some, List, [], ◌∷◌, if◌then◌else◌, nat_beq, ◌>>=◌}
use tablefs.Base.Int.{ℤ, pos, negsuc}
use tablefs.Key.{MetaKey, Inode, root_inode_id}
use tablefs.Value.{InodeValue, c_string}
use tablefs.Platform.{Platform, Ptr}
use tablefs.Icache
use tablefs.Tfs.{TableFs, fs_error}

abbrev pub is_negative : ℤ → Bool
is_negative (pos n) = false
is_negative (negsuc n) = true

-- `IsKeyInDir`
unfoldable pub is_key_in_dir : MetaKey → MetaKey → Bool
is_key_in_dir key dirkey = nat_beq key.inode_id dirkey.inode_id

-- Where `ReadDir` begins: behind the key of the root itself, in the root.
unfoldable pub first_child : Inode → MetaKey
first_child inode = record {
  inode_id = inode;
  hash_id = if nat_beq inode root_inode_id then 1 else 0;
}

abbrev pub Filler : Platform → Type 0 → Type 0
Filler P W = List ℕ → W → TableFs P → Option (ℤ × W × TableFs P)

module _ (P : Platform) {W : Type 0} where
  -- The loop over the entries of the directory.
  unfoldable pub fill_loop :
      Filler P W
      → MetaKey
      → List (MetaKey × InodeValue)
      → W
      → TableFs P
      → Option (ℤ × W × TableFs P)
  fill_loop filler dir [] w s = some (pos 0, w, s)
  fill_loop filler dir ((key, value) ∷ entries) w s = elim (is_key_in_dir key dir) [
    | false ↦ some (pos 0, w, s)
    | true ↦ do
      (out, w', t) ← filler (c_string value.bytes) w s
      elim (is_negative out) [
        | true ↦ some (negsuc 0, w', t)
        | false ↦ fill_loop filler dir entries w' t
      ]
  ]

  -- A name that ends the call at once where the filler refuses it, "." or "..".
  unfoldable pub fill_or :
      Filler P W
      → List ℕ
      → (W → TableFs P → Option (ℤ × W × TableFs P))
      → W
      → TableFs P
      → Option (ℤ × W × TableFs P)
  fill_or filler name next w s = do
    (out, w', t) ← filler name w s
    elim (is_negative out) [ true ↦ some (fs_error P t, w', t) | false ↦ next w' t ]

  -- `ReadDir(path, buf, filler, offset, fi)` for the handle in `fi->fh`
  unfoldable pub read_dir : Filler P W → Ptr → W → TableFs P → Option (ℤ × W × TableFs P)
  read_dir filler phandle w s = do
    h ← Icache.handle_at P phandle s.inode_cache
    let childkey = first_child h.value_.header.fstat.st_ino
    let entries = Platform.db_from P childkey s.inode_cache.metadb_.db
    fill_or filler (b'.' ∷ [])
        (fill_or filler (b'.' ∷ b'.' ∷ []) (fill_loop filler childkey entries)) w s
