-- ===== src/Platform/Files.antt =====
-- What the C library documents of regular files: open(2), pread(2), pwrite(2), close(2). A call may
-- fail; the laws say what holds where it does not. They speak of descriptors opened without O_TRUNC
-- and O_APPEND, and of writes of all of a buffer that is not empty.
use Prim.Native.Nat.{bit_and}
use tablefs.Base.{ℕ, ◌<◌, ◌≡◌, Bool, true, List, length, take, drop}
use tablefs.Value.{update_ihandle_value}
use tablefs.Platform.{Platform, gives}

-- `O_TRUNC | O_APPEND`
abbrev pub trunc_or_append : ℕ
trunc_or_append = 0o3000

module _ (P : Platform) where
  open P use {Disk, disk_create, disk_open, disk_pread, disk_pwrite}

  pub record FileLaws : Type 0 where
    -- The bytes of a file, none where there is no such file; whether a descriptor is open on it.
    pub file_content : ℕ → ℕ → Disk → List ℕ
    pub is_open : ℕ → ℕ → ℕ → Disk → Bool
    pub create_opens :
        (d f flags mode fd : ℕ) (k k' : Disk)
        → bit_and flags trunc_or_append ≡ 0
        → disk_create d f flags mode k ≡ (gives fd, k')
        → (is_open fd d f k' ≡ true) × (file_content d f k' ≡ file_content d f k)
    pub open_opens :
        (d f fd : ℕ) (k k' : Disk)
        → disk_open d f k ≡ (gives fd, k')
        → (is_open fd d f k' ≡ true) × (file_content d f k' ≡ file_content d f k)
    pub pwrite_writes :
        (fd d f at : ℕ) (buf : List ℕ) (k k' : Disk)
        → is_open fd d f k ≡ true
        → 0 < length buf
        → disk_pwrite fd buf at k ≡ (gives (length buf), k')
        → (is_open fd d f k' ≡ true)
          × (file_content d f k' ≡ update_ihandle_value at buf (file_content d f k))
    pub pread_reads :
        (fd d f n at : ℕ) (bytes : List ℕ) (k : Disk)
        → is_open fd d f k ≡ true
        → disk_pread fd n at k ≡ gives bytes
        → bytes ≡ take n (drop at (file_content d f k))
