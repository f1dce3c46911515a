-- ===== src/Wrapper/Streams.antt =====
-- fs/fswrapper.cpp: files written and read through a descriptor piece by piece.
use Prim.Native.Nat.{min}
use mathlib.Core.List.{append-nil}
use tablefs.Base.{
  ℕ, zero, suc, ◌+◌, ◌-◌, ◌*◌, ◌<◌, ◌≤◌, ◌≡◌, refl, sym, ap, ◌∙◌, Option, some, List, [], ◌∷◌, ◌++◌,
  map, nat_beq, false, arith, length, length-append, length-drop, length-take_of_le, drop, ltb,
  ltb→lt, Bool-cases, inl, inr, ◌>>=◌, take_of_length-le,
}
use tablefs.Base.Int.{ℤ, pos}
use tablefs.Platform.{Platform}
use tablefs.Value.{update_ihandle_value}
use tablefs.Value.Data.{slice}
use tablefs.Value.Bytes.{update_ihandle_value-append, slice-update_ihandle_value}
use tablefs.Tfs.{FileSystemState}
use tablefs.Wrapper.{FsWrapper, write, seek, read}
use tablefs.Wrapper.Scanning.{scan_loop}
use tablefs.Wrapper.Positions.{IsAt, write-IsAt, seek-IsAt, read-IsAt, IsAt-subst}

-- All the bytes of some buffers, in their order.
abbrev pub joined : List (List ℕ) → List ℕ
joined [] = []
joined (buf ∷ bufs) = buf ++ joined bufs

-- Calls of Write, one after another, with their results.
unfoldable pub write_each :
    {P : Platform} → ℕ → List (List ℕ) → FsWrapper P → Option (List ℤ × FsWrapper P)
write_each fd [] w = some ([], w)
write_each {P} fd (buf ∷ bufs) w = do
  (ret, v) ← write P fd buf w
  (rets, u) ← write_each fd bufs v
  some (ret ∷ rets, u)

length-slice :
    (offset size : ℕ) (content : List ℕ)
    → length (slice offset size content) ≡ min size (length content - offset)
length-slice offset size content =
    let rest = drop offset content in
    ground
      (arith, length-drop offset content, length-take_of_le size rest, take_of_length-le size rest)

-- One turn of the loop, which reads `n` bytes.
turn_inside :
    (size all offset n : ℕ) → offset ≤ all → n ≡ min size (all - offset) → offset + n ≤ all
turn_inside size all offset n inside got = omega arith

turn_enough :
    (all offset n fuel : ℕ)
    → n ≡ min 4096 (all - offset)
    → 0 < all - offset
    → all - offset + 4096 ≤ 4096 * suc fuel
    → all - (offset + n) + 4096 ≤ 4096 * fuel
turn_enough all offset n fuel got more enough = omega arith

turn_reads : (left n : ℕ) → n ≡ min 4096 left → 0 < left → nat_beq n 0 ≡ false
turn_reads left n got more = ground arith

module _ {P : Platform} (fd : ℕ) {name : List ℕ} where
  write_each-IsAt :
      (bufs : List (List ℕ)) (buf : List ℕ) {content : List ℕ} {offset : ℕ} (w : FsWrapper P)
      → IsAt fd name content offset w
      → offset + length (joined (buf ∷ bufs)) ≤ w.fs.state_.threshold_
      → (v : FsWrapper P) × (write_each fd (buf ∷ bufs) w
          ≡ some (map (λ b. pos (length b)) (buf ∷ bufs), v))
        × IsAt fd name
            (update_ihandle_value offset (joined (buf ∷ bufs)) content)
            (offset + length (joined (buf ∷ bufs)))
            v
  unfolding write_each
  write_each-IsAt [] buf {content} {offset} w i fits =
      let (v, wrote, same, at) =
        write-IsAt fd buf w i (omega (arith, fits, length-append buf [])) in
      (
        v,
        ground (arith, wrote),
        IsAt-subst fd (ap (λ b. update_ihandle_value offset b content) (sym (append-nil buf)))
            (omega (arith, length-append buf [])) at,
      )
  write_each-IsAt (next ∷ bufs) buf {content} {offset} w i fits =
      let (v, wrote, same, at) =
        write-IsAt fd buf w i (omega (arith, fits, length-append buf (joined (next ∷ bufs)))) in
      let limit : v.fs.state_.threshold_ ≡ w.fs.state_.threshold_ =
        ap (λ (k : FileSystemState P). k.threshold_) same in
      let long = length-append buf (joined (next ∷ bufs)) in
      let room : offset + length buf + length (joined (next ∷ bufs)) ≤ v.fs.state_.threshold_ =
        omega (arith, fits, long, limit) in
      let (u, rest, after) = write_each-IsAt bufs next v at room in
      (
        u,
        ground (arith, wrote, rest),
        IsAt-subst fd (update_ihandle_value-append offset buf (joined (next ∷ bufs)) content)
            (omega (arith, long)) after,
      )

  -- Buffers written one after another to a file in the table, of which all fit within the
  -- threshold, and a Seek back to where the first began: each Write returns the length of its
  -- buffer, and a Read of as many bytes gives all of them in their order.
  pub read-write_each :
      {content : List ℕ} {offset : ℕ} (buf : List ℕ) (bufs : List (List ℕ)) (w : FsWrapper P)
      → IsAt fd name content offset w
      → offset + length (joined (buf ∷ bufs)) ≤ w.fs.state_.threshold_
      → (v : FsWrapper P) × (u : FsWrapper P) × (x : FsWrapper P) × (write_each fd (buf ∷ bufs) w
          ≡ some (map (λ b. pos (length b)) (buf ∷ bufs), v))
        × (seek P fd offset v ≡ some (pos 0, u))
        × (read P fd (length (joined (buf ∷ bufs))) u
            ≡ some (pos (length (joined (buf ∷ bufs))), joined (buf ∷ bufs), x))
  read-write_each {content} {offset} buf bufs w i fits =
      let all = joined (buf ∷ bufs) in
      let (v, wrote, at) = write_each-IsAt bufs buf w i fits in
      let (u, sought, back) = seek-IsAt fd offset v at in
      let (x, got, after) = read-IsAt fd (length all) u back in
      (
        v,
        u,
        x,
        wrote,
        sought,
        got ∙ ap (λ b. some (pos (length b), b, x)) (slice-update_ihandle_value offset all content),
      )

  -- The loop of `scanfile_filler` on a file in the table ends, and it has then read all of it: as
  -- each turn reads 4096 bytes or what is left, one turn for each of these and one more are enough.
  pub scan_loop-ends :
      (fuel : ℕ) {content : List ℕ} {offset : ℕ} (w : FsWrapper P)
      → IsAt fd name content offset w
      → offset ≤ length content
      → length content - offset + 4096 ≤ 4096 * fuel
      → (v : FsWrapper P) × (scan_loop P (pos 0) fuel fd (length content - offset) w ≡ some v)
        × IsAt fd name content (length content) v
  unfolding scan_loop
  scan_loop-ends zero w i inside enough = absurd (omega arith)
  scan_loop-ends (suc fuel) {content} {offset} w i inside enough =
      elim (Bool-cases (ltb 0 (length content - offset))) [
        | inr done ↦ (w, ground (arith, done), IsAt-subst fd refl (ground arith) i)
        | inl more ↦
            let n = length (slice offset 4096 content) in
            let (v, got, at) = read-IsAt fd 4096 w i in
            let size = length-slice offset 4096 content in
            let left : length content - (offset + n) ≡ length content - offset - n = omega arith in
            let (u, rest, after) =
              scan_loop-ends fuel v at (turn_inside 4096 (length content) offset n inside size) (
                turn_enough (length content) offset n fuel size
                  (ltb→lt 0 (length content - offset) more) enough) in
            let some_read : nat_beq n 0 ≡ false =
              turn_reads (length content - offset) n size
                (ltb→lt 0 (length content - offset) more) in
            (u, ground (arith, more, got, some_read, left, rest), after)
      ]
