-- ===== src/Wrapper/Descriptors.antt =====
-- fs/fswrapper.cpp: Open, Close, Seek, Read and Write on descriptors.
use tablefs.Base.{
  ℕ, ◌≡◌, refl, ap, ◌∙◌, Bool-cases, inl, inr, ◌⊎◌, Option, none, some, List, arith, nat_beq,
  nat_beq→eq, if◌then◌else◌, get_elem?,
}
use tablefs.Base.Int.{ℤ, pos, negsuc}
use tablefs.Platform.{Platform}
use tablefs.Tfs.{TableFs}
use tablefs.Tfs.Content.{FileHandle, open_file}
use tablefs.Tfs.Closing.{release_file}
use tablefs.Wrapper.{FsWrapper, Slot, set_slot, release_file_descriptor, open_path, close, is_zero}
use tablefs.Wrapper.Slots.{
  descriptor, IsFull, get_file_descriptor_lem, get_elem?-set_slot_same, descriptor-get_elem?,
  descriptor-set_slot,
}

module _ {P : Platform} where
  -- What Open does with the result of the handler: it takes a slot that was free, and returns it
  -- as a descriptor with the path and the position 0, or frees it again and returns -1.
  pub record Opened (path : List ℕ) (flags : ℕ) (w : FsWrapper P) (ret : ℤ) (fh : Option FileHandle)
      (t : TableFs P) : Type 0 where
    pub fd : ℕ
    pub after : FsWrapper P
    pub was : Slot
    pub was_here : get_elem? w.slots fd ≡ some was
    pub was_free : was.freefd ≡ 0
    pub now : Slot
    pub now_here : get_elem? after.slots fd ≡ some now
    pub now_fh : now.fh ≡ (if is_zero P ret then fh else was.fh)
    pub fs_is : after.fs ≡ t
    pub result : open_path P path flags w ≡ some (if is_zero P ret then pos fd else negsuc 0, after)
    pub descriptors :
        (j : ℕ)
        → descriptor after.slots j ≡ (
            if nat_beq fd j
            then if is_zero P ret then some (path, 0) else none
            else descriptor w.slots j)

  -- Open, where the handler returns: all descriptors are in use, and the call uses the index -1;
  -- or a free slot is taken. Where the result of the handler is 0, Open returns that slot, which
  -- shows the path and the position 0; else it returns -1 and the slot is free again. All other
  -- descriptors are as they were.
  pub open_path-Opened :
      (path : List ℕ) (flags : ℕ) (w : FsWrapper P) (ret : ℤ) (fh : Option FileHandle)
      (t : TableFs P)
      → open_file P path flags w.fs ≡ some (ret, fh, t)
      → (IsFull w.slots × (open_path P path flags w ≡ none)) ⊎ Opened path flags w ret fh t
  unfolding open_path release_file_descriptor
  open_path-Opened path flags w ret fh t opens = elim (get_file_descriptor_lem w.slots) [
    | inl (none_free, full) ↦ inl (full, rw none_free refl)
    | inr k ↦
        let ss = w.slots in
        let taken = record (k.slot) { freefd = 1 } in
        let opened = record taken {
          path = path;
          offset = 0;
          flags = flags;
          fh = if is_zero P ret then fh else k.slot.fh;
        } in
        let freed = record opened { freefd = 0 } in
        let tt = set_slot ss k.fd taken in
        let here1 : get_elem? tt k.fd ≡ some taken = get_elem?-set_slot_same ss k.fd taken k.here in
        let uu = set_slot tt k.fd opened in
        let here2 : get_elem? uu k.fd ≡ some opened =
          get_elem?-set_slot_same tt k.fd opened here1 in
        let here3 : get_elem? (set_slot uu k.fd freed) k.fd ≡ some freed =
          get_elem?-set_slot_same uu k.fd freed here2 in
        let shows : (j : ℕ)
            → descriptor uu j ≡ (if nat_beq k.fd j then some (path, 0) else descriptor ss j) =
          λ j. ground (
            arith,
            descriptor-set_slot tt k.fd opened j here1,
            descriptor-set_slot ss k.fd taken j k.here,
          ) in
        elim (Bool-cases (is_zero P ret)) [
          | inl ok ↦ inr (record {
            fd = k.fd;
            after = record { fs = t; slots = uu };
            was = k.slot;
            was_here = k.here;
            was_free = k.free;
            now = opened;
            now_here = here2;
            now_fh = refl;
            fs_is = refl;
            result = ground (arith, k.taken, here1, opens, ok);
            descriptors = λ j. ground (arith, ok, shows j);
          })
          | inr failed ↦ inr (record {
            fd = k.fd;
            after = record { fs = t; slots = set_slot uu k.fd freed };
            was = k.slot;
            was_here = k.here;
            was_free = k.free;
            now = freed;
            now_here = here3;
            now_fh = refl;
            fs_is = refl;
            result = ground (arith, k.taken, here1, opens, failed, here2);
            descriptors =
                λ j. ground (arith, failed, shows j, descriptor-set_slot uu k.fd freed j here2);
          })
        ]
  ]

  pub close-Closed :
      (fd : ℕ) (w : FsWrapper P) (slot : Slot) (fh : FileHandle) (ret : ℤ) (t : TableFs P)
      → get_elem? w.slots fd ≡ some slot
      → slot.fh ≡ some fh
      → release_file P fh w.fs ≡ some (ret, t)
      → (v : FsWrapper P) × (close P fd w ≡ some (ret, v))
        × (v.fs ≡ t)
        × ((j : ℕ) → descriptor v.slots j ≡ (if nat_beq fd j then none else descriptor w.slots j))
  unfolding close release_file_descriptor
  close-Closed fd w slot fh ret t here handle releases =
      let s1 = record slot { fh = none } in
      let ss1 = set_slot w.slots fd s1 in
      let here1 : get_elem? ss1 fd ≡ some s1 = get_elem?-set_slot_same w.slots fd s1 here in
      let s2 = record s1 { freefd = 0 } in
      (
        record { fs = t; slots = set_slot ss1 fd s2 },
        ground (arith, here, handle, releases, here1),
        refl,
        λ j. ground (
          arith,
          descriptor-set_slot ss1 fd s2 j here1,
          descriptor-set_slot w.slots fd s1 j here,
        ),
      )

  -- Open of a path and Close of what it returns, where the handlers succeed and a slot is free:
  -- both return, with the result of the handler, and every descriptor is as it was.
  pub close-open_path :
      (path : List ℕ) (flags : ℕ) (w : FsWrapper P) (fh : FileHandle) (t u : TableFs P) (ret : ℤ)
      → ¬ IsFull w.slots
      → open_file P path flags w.fs ≡ some (pos 0, some fh, t)
      → release_file P fh t ≡ some (ret, u)
      → (fd : ℕ) × (v : FsWrapper P) × (x : FsWrapper P) × (open_path P path flags w
          ≡ some (pos fd, v))
        × (close P fd v ≡ some (ret, x))
        × (x.fs ≡ u)
        × ((j : ℕ) → descriptor x.slots j ≡ descriptor w.slots j)
  close-open_path path flags w fh t u ret room opens releases =
      elim (open_path-Opened path flags w (pos 0) (some fh) t opens) [
        | inl (full, none_left) ↦ absurd (room full)
        | inr o ↦
            let (x, closed, same, shows) =
              close-Closed o.fd o.after o.now fh ret u o.now_here o.now_fh
                (ap (release_file P fh) o.fs_is ∙ releases) in
            (
              o.fd,
              o.after,
              x,
              o.result,
              closed,
              same,
              λ j. elim (Bool-cases (nat_beq o.fd j)) [
                | inl here ↦ ground (
                  arith,
                  here,
                  shows j,
                  nat_beq→eq o.fd j here,
                  descriptor-get_elem? w.slots o.fd o.was_here,
                  o.was_free,
                )
                | inr other ↦ ground (arith, other, shows j, o.descriptors j)
              ],
            )
      ]
