-- ===== src/Tfs/Blob.antt =====
-- fs/tablefs.cpp: Write and Read where the data of a file moves to the disk.
use Prim.Native.Nat.{bit_and}
use tablefs.Base.{
  ℕ, ◌<◌, ◌≡◌, refl, sym, ap, ◌∙◌, true, some, List, [], ◌∷◌, arith, if◌then◌else◌, nat_beq,
  take_of_length-le, length, take, drop, Bool-cases, inl, inr,
}
use mathlib.Core.Path.{subst}
use tablefs.Base.Int.{pos}
use tablefs.Value.{InodeValue, update_ihandle_value, drop_inline_data, data_start}
use tablefs.Value.Data.{IsLaidOut, drop_inline_data-IsLaidOut, content_behind}
use tablefs.Value.Bytes.{update_ihandle_value-nil}
use tablefs.Platform.{Platform, Ptr, Call, gives}
use tablefs.Platform.Files.{FileLaws, trunc_or_append}
use tablefs.Icache.{InodeCacheHandle, handle_at, set_handle}
use tablefs.Icache.Heap.{handle_at-set_handle}
use tablefs.Tfs.{TableFs, data_dir, data_file}
use tablefs.Tfs.Disk.{set_disk, move_inline_data}
use tablefs.Tfs.Inline.{IsInline}

empty_of_length : (xs : List ℕ) → length xs ≡ 0 → xs ≡ []
empty_of_length [] h = refl
empty_of_length (x ∷ xs) h = absurd (omega arith)

module _ {P : Platform} (laws : FileLaws P) where
  open laws use {file_content, is_open}
  open P use {Disk, disk_create, disk_pwrite, disk_pread}

  -- A file on the disk: the value holds the name and no data, and the size, above the threshold,
  -- of what the file of its number holds.
  pub record IsBlob (threshold : ℕ) (disk : Disk) (v : InodeValue) (name content : List ℕ)
      : Type 0 where
    pub laid : IsLaidOut v name []
    pub blob : v.header.has_blob ≡ 1
    pub sized : v.header.fstat.st_size ≡ length content
    pub large : threshold < length content
    pub on_disk :
        file_content (data_dir v.header.fstat.st_ino) (data_file v.header.fstat.st_ino) disk
        ≡ content

  -- The write of the data of the table to a new file, which is left out where there is none.
  abbrev pub FirstWrite : ℕ → List ℕ → Disk → Disk → Type 0
  FirstWrite fd content k k' =
      (if nat_beq (length content) 0 then (gives 0, k) else disk_pwrite fd content 0 k)
      ≡ (gives (length content), k')

  FirstWrite_lem :
      (fd d f : ℕ) (content : List ℕ) (k k' : Disk)
      → is_open fd d f k ≡ true
      → file_content d f k ≡ []
      → FirstWrite fd content k k'
      → (is_open fd d f k' ≡ true) × (file_content d f k' ≡ content)
  FirstWrite_lem fd d f content k k' opened fresh wrote =
      elim (Bool-cases (nat_beq (length content) 0)) [
        | inl empty ↦
            let none_left : content ≡ [] = empty_of_length content (ground (arith, empty)) in
            let moved : (gives 0, k) ≡ (gives (length content), k') = rw empty at wrote in
            let same : k ≡ k' = ap (λ (o : Call ℕ × Disk). o.1) moved in
            (
              subst (λ (o : Disk). is_open fd d f o ≡ true) same opened,
              subst (λ (o : Disk). file_content d f o ≡ content) same (fresh ∙ sym none_left),
            )
        | inr filled ↦
            let written : disk_pwrite fd content 0 k ≡ (gives (length content), k') =
              rw filled at wrote in
            let (still, now) =
              laws.pwrite_writes fd d f 0 content k k' opened (ground (arith, filled)) written in
            (
              still,
              now ∙ ap (update_ihandle_value 0 content) fresh ∙ update_ihandle_value-nil content,
            )
      ]

  -- What the move of the inline data to a descriptor of an empty file leaves.
  pub record IsMoved (p : Ptr) (s : TableFs P) (h : InodeCacheHandle P) (name : List ℕ) (k : Disk)
      (t : TableFs P) : Type 0 where
    pub handle : InodeCacheHandle P
    pub here : handle_at P p t.inode_cache ≡ some handle
    pub laid : IsLaidOut handle.value_ name []
    pub same_header : handle.value_.header ≡ h.value_.header
    pub same_mode : handle.mode_ ≡ h.mode_
    pub state_is : t.state_ ≡ record (s.state_) { disk = k }

  pub move_inline_data-IsMoved :
      {threshold : ℕ} {name content : List ℕ} (p : Ptr) (fd : ℕ) (s : TableFs P)
      (h : InodeCacheHandle P) (k : Disk)
      → handle_at P p s.inode_cache ≡ some h
      → IsInline threshold h.value_ name content
      → FirstWrite fd content s.state_.disk k
      → (t : TableFs P) × (move_inline_data P p fd s ≡ some (pos 0, t)) × IsMoved p s h name k t
  unfolding move_inline_data drop_inline_data
  move_inline_data-IsMoved {name} {content} p fd s h k here i wrote =
      let behind = content_behind i.laid in
      let buffer : take h.value_.header.fstat.st_size (drop (data_start h.value_) h.value_.bytes)
          ≡ content =
        ap (take h.value_.header.fstat.st_size) behind
        ∙ take_of_length-le h.value_.header.fstat.st_size content (omega (arith, i.sized)) in
      elim (Bool-cases (nat_beq (length content) 0)) [
        | inl empty ↦
            let none_left : content ≡ [] = empty_of_length content (ground (arith, empty)) in
            let moved : ◌≡◌ {A = Call ℕ × Disk} (gives 0, s.state_.disk)
                (gives (length content), k) =
              rw empty at wrote in
            let same : s.state_.disk ≡ k = ap (λ (o : Call ℕ × Disk). o.1) moved in
            (
              s,
              ground (arith, here, i.sized, empty),
              record {
                handle = h;
                here = here;
                laid = subst (IsLaidOut h.value_ name) none_left i.laid;
                same_header = refl;
                same_mode = refl;
                state_is = ap (λ (d : Disk). record (s.state_) { disk = d }) same;
              },
            )
        | inr filled ↦
            let h' = record h { value_ = drop_inline_data h.value_ } in
            let c = set_handle P p h' s.inode_cache in
            let written : disk_pwrite fd content 0 s.state_.disk ≡ (gives (length content), k) =
              rw filled at wrote in
            (
              set_disk P k (record s { inode_cache = c }),
              ground (arith, here, i.sized, filled, buffer, written),
              record {
                handle = h';
                here = ground (arith, handle_at-set_handle p p h' s.inode_cache);
                laid = drop_inline_data-IsLaidOut i.laid;
                same_header = refl;
                same_mode = refl;
                state_is = refl;
              },
            )
      ]

  -- The descriptor that is opened, and what the disk is after each call.
  pub record Migrates (flags at : ℕ) (buf content : List ℕ) (v : InodeValue) (k : Disk) (fd : ℕ)
      (k3 : Disk) : Type 0 where
    pub opened_disk : Disk
    pub moved_disk : Disk
    pub creates :
        disk_create
          (data_dir v.header.fstat.st_ino)
          (data_file v.header.fstat.st_ino)
          flags
          v.header.fstat.st_mode
          k
        ≡ (gives fd, opened_disk)
    pub moves : FirstWrite fd content opened_disk moved_disk
    pub writes : disk_pwrite fd buf at moved_disk ≡ (gives (length buf), k3)

  -- What the disk then holds.
  pub migrated_content :
      (flags at : ℕ) (buf content : List ℕ) (v : InodeValue) (k : Disk) (fd : ℕ) (k3 : Disk)
      → bit_and flags trunc_or_append ≡ 0
      → 0 < length buf
      → file_content (data_dir v.header.fstat.st_ino) (data_file v.header.fstat.st_ino) k ≡ []
      → Migrates flags at buf content v k fd k3
      → (is_open fd (data_dir v.header.fstat.st_ino) (data_file v.header.fstat.st_ino) k3 ≡ true)
        × (file_content (data_dir v.header.fstat.st_ino) (data_file v.header.fstat.st_ino) k3
            ≡ update_ihandle_value at buf content)
  migrated_content flags at buf content v k fd k3 plain some_bytes fresh m =
      let d = data_dir v.header.fstat.st_ino in
      let f = data_file v.header.fstat.st_ino in
      let (open1, same1) =
        laws.create_opens d f flags v.header.fstat.st_mode fd k m.opened_disk plain m.creates in
      let moved : (is_open fd d f m.moved_disk ≡ true) × (file_content d f m.moved_disk ≡ content) =
        FirstWrite_lem fd d f content m.opened_disk m.moved_disk open1 (same1 ∙ fresh) m.moves in
      let (open3, same3) =
        laws.pwrite_writes fd d f at buf m.moved_disk k3 moved.0 some_bytes m.writes in
      (open3, same3 ∙ ap (update_ihandle_value at buf) moved.1)
