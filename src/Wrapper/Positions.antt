-- ===== src/Wrapper/Positions.antt =====
-- fs/fswrapper.cpp: Write, Seek and Read on a descriptor of a file whose data is in the table, and
-- the position that they move.
use mathlib.Core.Path.{subst}
use tablefs.Base.{ℕ, ◌+◌, ◌≤◌, ◌≡◌, refl, sym, ap, some, List, arith, length, get_elem?}
use tablefs.Base.Int.{pos}
use tablefs.Platform.{Platform}
use tablefs.Value.{update_ihandle_value}
use tablefs.Value.Data.{slice}
use tablefs.Icache.{InodeCacheHandle, handle_at}
use tablefs.Tfs.{FileSystemState}
use tablefs.Tfs.Content.{FileHandle}
use tablefs.Tfs.Inline.{IsInline, write_file-IsInline, read_file-IsInline}
use tablefs.Wrapper.{FsWrapper, Slot, set_slot, write, seek, read}
use tablefs.Wrapper.Slots.{get_elem?-set_slot_same}

-- The file behind a descriptor: it is in the table, with its name and data, and the descriptor
-- stands at a position.
pub record IsAt {P : Platform} (fd : ℕ) (name content : List ℕ) (offset : ℕ) (w : FsWrapper P)
    : Type 0 where
  pub slot : Slot
  pub slot_here : get_elem? w.slots fd ≡ some slot
  pub position : slot.offset ≡ offset
  pub fh : FileHandle
  pub opened : slot.fh ≡ some fh
  pub handle : InodeCacheHandle P
  pub handle_here : handle_at P fh.handle_ w.fs.inode_cache ≡ some handle
  pub inline : IsInline w.fs.state_.threshold_ handle.value_ name content

module _ {P : Platform} (fd : ℕ) {name : List ℕ} where
  pub write-IsAt :
      {content : List ℕ} {offset : ℕ} (buf : List ℕ) (w : FsWrapper P)
      → IsAt fd name content offset w
      → offset + length buf ≤ w.fs.state_.threshold_
      → (v : FsWrapper P) × (write P fd buf w ≡ some (pos (length buf), v))
        × (v.fs.state_ ≡ w.fs.state_)
        × IsAt fd name (update_ihandle_value offset buf content) (offset + length buf) v
  unfolding write
  write-IsAt {content} {offset} buf w i fits =
      let at : offset ≡ i.slot.offset = sym i.position in
      let (t, h, wrote, same, here, mode, good, same_key, same_pointer, set) =
        write_file-IsInline i.slot.offset i.slot.flags buf i.fh w.fs i.handle i.handle_here i.inline
          (omega (arith, fits, at)) in
      let s = record (i.slot) { offset = i.slot.offset + length buf; fh = some i.fh } in
      (
        record { fs = t; slots = set_slot w.slots fd s },
        ground (arith, i.slot_here, i.opened, wrote),
        same,
        record {
          slot = s;
          slot_here = get_elem?-set_slot_same w.slots fd s i.slot_here;
          position = ap (λ n. n + length buf) i.position;
          fh = i.fh;
          opened = refl;
          handle = h;
          handle_here = here;
          inline =
              subst
                (λ n.
                  IsInline t.state_.threshold_ h.value_ name (update_ihandle_value n buf content))
                i.position
                (subst
                  (λ (k : FileSystemState P).
                    IsInline k.threshold_ h.value_ name
                      (update_ihandle_value i.slot.offset buf content))
                  (sym same) good);
        },
      )

  pub seek-IsAt :
      {content : List ℕ} {offset : ℕ} (to : ℕ) (w : FsWrapper P)
      → IsAt fd name content offset w
      → (v : FsWrapper P) × (seek P fd to w ≡ some (pos 0, v)) × IsAt fd name content to v
  unfolding seek
  seek-IsAt to w i =
      let s = record (i.slot) { offset = to } in
      (
        record w { slots = set_slot w.slots fd s },
        ground (arith, i.slot_here),
        record {
          slot = s;
          slot_here = get_elem?-set_slot_same w.slots fd s i.slot_here;
          position = refl;
          fh = i.fh;
          opened = i.opened;
          handle = i.handle;
          handle_here = i.handle_here;
          inline = i.inline;
        },
      )

  pub read-IsAt :
      {content : List ℕ} {offset : ℕ} (size : ℕ) (w : FsWrapper P)
      → IsAt fd name content offset w
      → (v : FsWrapper P) × (read P fd size w
          ≡ some (pos (length (slice offset size content)), slice offset size content, v))
        × IsAt fd name content (offset + length (slice offset size content)) v
  unfolding read
  read-IsAt {content} {offset} size w i =
      let got = read_file-IsInline size i.slot.offset i.fh w.fs i.handle i.handle_here i.inline in
      let n = i.slot.offset + length (slice i.slot.offset size content) in
      let s = record (i.slot) { offset = n; fh = some i.fh } in
      (
        record w { slots = set_slot w.slots fd s },
        ground (arith, i.slot_here, i.opened, got, i.position),
        record {
          slot = s;
          slot_here = get_elem?-set_slot_same w.slots fd s i.slot_here;
          position = ap (λ k. k + length (slice k size content)) i.position;
          fh = i.fh;
          opened = refl;
          handle = i.handle;
          handle_here = i.handle_here;
          inline = i.inline;
        },
      )

  pub IsAt-subst :
      {c d : List ℕ} {p q : ℕ} {w : FsWrapper P}
      → c ≡ d
      → p ≡ q
      → IsAt fd name c p w
      → IsAt fd name d q w
  IsAt-subst {d} {p} {w} same at i =
      subst (λ o. IsAt fd name d o w) at (subst (λ c. IsAt fd name c p w) same i)
