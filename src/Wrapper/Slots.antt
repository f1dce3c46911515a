-- ===== src/Wrapper/Slots.antt =====
-- fs/fswrapper.cpp: the arrays of the descriptors, and what a client knows of them.
use tablefs.Base.{
  ℕ, zero, suc, ◌<◌, ◌≡◌, refl, Option, none, some, List, [], ◌∷◌, arith, false, Bool-cases, inl,
  inr, ◌⊎◌, nat_beq, nat_beq→eq, if◌then◌else◌, get_elem?,
}
use tablefs.Wrapper.{Slot, set_slot, get_file_descriptor}

pub get_elem?-set_slot_same :
    (ss : List Slot) (i : ℕ) {s : Slot} (v : Slot)
    → get_elem? ss i ≡ some s
    → get_elem? (set_slot ss i v) i ≡ some v
get_elem?-set_slot_same [] i v h = cc
get_elem?-set_slot_same (s ∷ ss) zero v h = refl
get_elem?-set_slot_same (s ∷ ss) (suc i) v h = get_elem?-set_slot_same ss i v h

pub get_elem?-set_slot_other :
    (ss : List Slot) (i : ℕ) (v : Slot) (j : ℕ)
    → nat_beq i j ≡ false
    → get_elem? (set_slot ss i v) j ≡ get_elem? ss j
get_elem?-set_slot_other [] i v j h = refl
get_elem?-set_slot_other (s ∷ ss) zero v zero h = ground arith
get_elem?-set_slot_other (s ∷ ss) zero v (suc j) h = refl
get_elem?-set_slot_other (s ∷ ss) (suc i) v zero h = refl
get_elem?-set_slot_other (s ∷ ss) (suc i) v (suc j) h =
    get_elem?-set_slot_other ss i v j (ground arith)

-- The path and the position of an open file, at each descriptor in use.
unfoldable pub descriptor : List Slot → ℕ → Option (List ℕ × ℕ)
descriptor ss fd = elim (get_elem? ss fd) [
  | none ↦ none
  | some s ↦ if nat_beq s.freefd 0 then none else some (s.path, s.offset)
]

pub descriptor-get_elem? :
    (ss : List Slot) (fd : ℕ) {s : Slot}
    → get_elem? ss fd ≡ some s
    → descriptor ss fd ≡ (if nat_beq s.freefd 0 then none else some (s.path, s.offset))
unfolding descriptor
descriptor-get_elem? ss fd h = ground (arith, h)

-- The descriptors after a write to a slot that exists.
pub descriptor-set_slot :
    (ss : List Slot) (i : ℕ) {s : Slot} (v : Slot) (j : ℕ)
    → get_elem? ss i ≡ some s
    → descriptor (set_slot ss i v) j ≡ (
        if nat_beq i j
        then if nat_beq v.freefd 0 then none else some (v.path, v.offset)
        else descriptor ss j)
unfolding descriptor
descriptor-set_slot ss i v j here = elim (Bool-cases (nat_beq i j)) [
  | inl same ↦ ground (
    arith,
    descriptor-get_elem? (set_slot ss i v) i (get_elem?-set_slot_same ss i v here),
    nat_beq→eq i j same,
  )
  | inr other ↦ ground (arith, other, get_elem?-set_slot_other ss i v j other)
]

-- No slot is free.
unfoldable pub IsFull : List Slot → Type 0
IsFull [] = Unit
IsFull (s ∷ ss) = (0 < s.freefd) × IsFull ss

-- A slot that is free, and that `GetFileDescriptor` takes.
pub record Taken (ss : List Slot) : Type 0 where
  pub fd : ℕ
  pub slot : Slot
  pub here : get_elem? ss fd ≡ some slot
  pub free : slot.freefd ≡ 0
  pub taken : get_file_descriptor ss ≡ (some fd, set_slot ss fd (record slot { freefd = 1 }))

pub get_file_descriptor_lem :
    (ss : List Slot) → ((get_file_descriptor ss ≡ (none, ss)) × IsFull ss) ⊎ Taken ss
unfolding get_file_descriptor IsFull
get_file_descriptor_lem [] = inl (refl, tt)
get_file_descriptor_lem (s ∷ ss) = elim (Bool-cases (nat_beq s.freefd 0)) [
  | inl free ↦
      inr (record { fd = 0; slot = s; here = refl; free = ground arith; taken = rw free refl })
  | inr used ↦ elim (get_file_descriptor_lem ss) [
    | inl (none_free, full) ↦ inl (rw (used, none_free) refl, (ground arith, full))
    | inr t ↦ inr (record {
      fd = suc t.fd;
      slot = t.slot;
      here = t.here;
      free = t.free;
      taken = rw (used, t.taken) refl;
    })
  ]
]
