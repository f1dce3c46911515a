-- ===== src/Tfs/Inline.antt =====
-- fs/tablefs.cpp: Read, Write and Truncate on a file whose data is in the table.
use mathlib.Core.Path.{subst}
use tablefs.Base.{
  ℕ, ◌+◌, ◌≤◌, ◌≡◌, refl, sym, ◌∙◌, some, List, arith, if◌then◌else◌, ltb, length, Bool-cases, inl,
  inr,
}
use tablefs.Base.Int.{pos}
use tablefs.Value.{InodeValue, update_ihandle_value, update_inline_data, update_inode_header}
use tablefs.Value.Data.{IsLaidOut, slice, get_inline_data-slice, update_inline_data-IsLaidOut}
use tablefs.Value.Bytes.{length-update_ihandle_value}
use tablefs.Platform.{Platform, Ptr}
use tablefs.Icache.{InodeCacheHandle, Mode, handle_at, set_handle}
use tablefs.Icache.Heap.{handle_at-set_handle, IsReplaced, set_handle-IsReplaced, IsReplaced-trans}
use tablefs.Tfs.{TableFs, FileSystemState}
use tablefs.Tfs.Content.{FileHandle, set_value, set_size, grow, write_file, read_file}

-- A file in the table: its data stands behind its name, its size is that of the data, and it is
-- not above the threshold.
pub record IsInline (threshold : ℕ) (v : InodeValue) (name content : List ℕ) : Type 0 where
  pub laid : IsLaidOut v name content
  pub no_blob : v.header.has_blob ≡ 0
  pub sized : v.header.fstat.st_size ≡ length content
  pub small : length content ≤ threshold

-- The size after a write of `buf` at `offset`, set where it has grown.
written_value : ℕ → List ℕ → InodeValue → InodeValue
written_value offset buf v =
    if ltb v.header.fstat.st_size (offset + length buf)
    then set_size (offset + length buf) (update_inline_data offset buf v)
    else update_inline_data offset buf v

written_value-IsInline :
    {threshold : ℕ} {name content : List ℕ} (offset : ℕ) (buf : List ℕ) (v : InodeValue)
    → IsInline threshold v name content
    → offset + length buf ≤ threshold
    → IsInline threshold (written_value offset buf v) name (update_ihandle_value offset buf content)
unfolding written_value update_inode_header update_inline_data
written_value-IsInline {threshold} {name} {content} offset buf v i fits =
    let laid = update_inline_data-IsLaidOut i.laid offset buf in
    let long = length-update_ihandle_value offset buf content in
    elim (Bool-cases (ltb v.header.fstat.st_size (offset + length buf))) [
      | inl larger ↦ rw larger (record {
        laid = record { bytes = laid.bytes; named = laid.named };
        no_blob = i.no_blob;
        sized = ground (arith, long, i.sized);
        small = ground (arith, long, i.small);
      })
      | inr covered ↦ rw covered (record {
        laid = laid;
        no_blob = i.no_blob;
        sized = ground (arith, long, i.sized);
        small = ground (arith, long, i.small);
      })
    ]

module _ {P : Platform} where
  pub set_value_lem :
      (p : Ptr) (change : InodeValue → InodeValue) (s : TableFs P) (h : InodeCacheHandle P)
      → handle_at P p s.inode_cache ≡ some h
      → (t : TableFs P) × (set_value P p change s ≡ some t)
        × (t.state_ ≡ s.state_)
        × (handle_at P p t.inode_cache ≡ some (record h { value_ = change h.value_ }))
        × IsReplaced p (record h { value_ = change h.value_ }) s.inode_cache t.inode_cache
  unfolding set_value
  set_value_lem p change s h here =
      let h' = record h { value_ = change h.value_ } in
      (
        record s { inode_cache = set_handle P p h' s.inode_cache },
        ground (arith, here),
        refl,
        ground (arith, handle_at-set_handle p p h' s.inode_cache),
        set_handle-IsReplaced p h' s.inode_cache,
      )

  -- Write within the threshold, on a file in the table.
  pub write_file-IsInline :
      {name content : List ℕ} (offset flags : ℕ) (buf : List ℕ) (fh : FileHandle) (s : TableFs P)
      (h : InodeCacheHandle P)
      → handle_at P fh.handle_ s.inode_cache ≡ some h
      → IsInline s.state_.threshold_ h.value_ name content
      → offset + length buf ≤ s.state_.threshold_
      → (t : TableFs P) × (h' : InodeCacheHandle P) × (write_file P buf offset flags fh s
          ≡ some (pos (length buf), fh, t))
        × (t.state_ ≡ s.state_)
        × (handle_at P fh.handle_ t.inode_cache ≡ some h')
        × (h'.mode_ ≡ Mode.inode_write)
        × IsInline s.state_.threshold_ h'.value_ name (update_ihandle_value offset buf content)
        × (h'.key_ ≡ h.key_)
        × (h'.pointer ≡ h.pointer)
        × IsReplaced fh.handle_ h' s.inode_cache t.inode_cache
  unfolding write_file written_value grow
  write_file-IsInline {name} {content} offset flags buf fh s h here i fits =
      let end = offset + length buf in
      let h1 = record h { mode_ = Mode.inode_write } in
      let s1 = record s { inode_cache = set_handle P fh.handle_ h1 s.inode_cache } in
      let here1 : handle_at P fh.handle_ s1.inode_cache ≡ some h1 =
        ground (arith, handle_at-set_handle fh.handle_ fh.handle_ h1 s.inode_cache) in
      let set1 = set_handle-IsReplaced fh.handle_ h1 s.inode_cache in
      let (s2, stored, same2, here2, set2) =
        set_value_lem fh.handle_ (update_inline_data offset buf) s1 h1 here1 in
      let h2 = record h1 { value_ = update_inline_data offset buf h1.value_ } in
      let (s3, grown, same3, here3, set3) = set_value_lem fh.handle_ (set_size end) s2 h2 here2 in
      let set12 =
        IsReplaced-trans fh.handle_ h1 h2 s.inode_cache s1.inode_cache s2.inode_cache set1 set2 in
      let good = written_value-IsInline offset buf h.value_ i fits in
      elim (Bool-cases (ltb h.value_.header.fstat.st_size end)) [
        | inl larger ↦ (
          s3,
          record h2 { value_ = set_size end h2.value_ },
          ground (arith, here, i.no_blob, fits, stored, grown, larger),
          same3 ∙ same2,
          here3,
          refl,
          rw larger at good,
          refl,
          refl,
          IsReplaced-trans fh.handle_ h2 (record h2 { value_ = set_size end h2.value_ })
              s.inode_cache s2.inode_cache s3.inode_cache set12 set3,
        )
        | inr covered ↦ (
          s2,
          h2,
          ground (arith, here, i.no_blob, fits, stored, covered),
          same2,
          here2,
          refl,
          rw covered at good,
          refl,
          refl,
          set12,
        )
      ]

  -- Read of a file in the table gives the bytes of the data from the offset on, as many as asked
  -- for or as there are, and changes nothing.
  pub read_file-IsInline :
      {threshold : ℕ} {name content : List ℕ} (size offset : ℕ) (fh : FileHandle) (s : TableFs P)
      (h : InodeCacheHandle P)
      → handle_at P fh.handle_ s.inode_cache ≡ some h
      → IsInline threshold h.value_ name content
      → read_file P size offset fh s
        ≡ some (pos (length (slice offset size content)), slice offset size content, fh, s)
  unfolding read_file
  read_file-IsInline size offset fh s h here i =
      ground (arith, here, i.no_blob, get_inline_data-slice i.laid offset size)

  -- A write to a file in the table that stays within the threshold returns the number of bytes
  -- written, and a read after it gives the bytes from its offset on, of the data with the buffer
  -- in its place: zero bytes where the write leaves a gap, the rest as it was. The file is in the
  -- table still, its size is that of the data, and its handle is in mode WRITE.
  pub read_file-write_file :
      {name content : List ℕ} (at flags size offset : ℕ) (buf : List ℕ) (fh : FileHandle)
      (s : TableFs P) (h : InodeCacheHandle P)
      → handle_at P fh.handle_ s.inode_cache ≡ some h
      → IsInline s.state_.threshold_ h.value_ name content
      → at + length buf ≤ s.state_.threshold_
      → (t : TableFs P) × (h' : InodeCacheHandle P) × (write_file P buf at flags fh s
          ≡ some (pos (length buf), fh, t))
        × (handle_at P fh.handle_ t.inode_cache ≡ some h')
        × (h'.mode_ ≡ Mode.inode_write)
        × IsInline t.state_.threshold_ h'.value_ name (update_ihandle_value at buf content)
        × (read_file P size offset fh t
            ≡ some (
              pos (length (slice offset size (update_ihandle_value at buf content))),
              slice offset size (update_ihandle_value at buf content),
              fh,
              t,
            ))
  read_file-write_file {name} {content} at flags size offset buf fh s h here i fits =
      let (t, h', wrote, same, here', mode, good, same_key, same_pointer, set) =
        write_file-IsInline at flags buf fh s h here i fits in
      (
        t,
        h',
        wrote,
        here',
        mode,
        subst
            (λ (k : FileSystemState P).
              IsInline k.threshold_ h'.value_ name (update_ihandle_value at buf content))
            (sym same) good,
        read_file-IsInline size offset fh t h' here' good,
      )
