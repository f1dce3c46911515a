-- ===== src/Value/Bytes.antt =====
-- Reads and writes of the inline data, byte by byte.
use Prim.Native.Nat.{max}
use tablefs.Base.{
  ℕ, zero, suc, ◌+◌, ◌-◌, ◌≤◌, ◌≡◌, refl, sym, ap, ◌∙◌, Bool-cases, inl, inr, List, [], ◌∷◌, ◌++◌,
  arith, false, ◌&&◌, ltb, if◌then◌else◌, length, take, drop, replicate, length-append, Option,
  some, none, get_elem?, length-drop, length-replicate, length-take_of_le,
}
use tablefs.Value.{
  InodeValue, resize, replace, update_ihandle_value, get_inline_data, update_inline_data,
  truncate_inline_data,
}
use tablefs.Value.Data.{
  IsLaidOut, get_inline_data-slice, update_inline_data-IsLaidOut, truncate_inline_data-IsLaidOut,
}

get_elem?-append :
    (xs ys : List ℕ) (i : ℕ)
    → get_elem? (xs ++ ys) i
      ≡ (if ltb i (length xs) then get_elem? xs i else get_elem? ys (i - length xs))
get_elem?-append [] ys i = ground arith
get_elem?-append (x ∷ xs) ys zero = ground arith
get_elem?-append (x ∷ xs) ys (suc i) = ground (arith, get_elem?-append xs ys i)

get_elem?-take :
    (n : ℕ) (xs : List ℕ) (i : ℕ)
    → get_elem? (take n xs) i ≡ (if ltb i n then get_elem? xs i else none)
get_elem?-take zero xs i = ground arith
get_elem?-take (suc n) [] i = ground arith
get_elem?-take (suc n) (x ∷ xs) zero = ground arith
get_elem?-take (suc n) (x ∷ xs) (suc i) = ground (arith, get_elem?-take n xs i)

get_elem?-drop : (n : ℕ) (xs : List ℕ) (i : ℕ) → get_elem? (drop n xs) i ≡ get_elem? xs (n + i)
get_elem?-drop zero xs i = ground arith
get_elem?-drop (suc n) [] i = refl
get_elem?-drop (suc n) (x ∷ xs) i =
    let e : suc n + i ≡ suc (n + i) = omega arith in
    get_elem?-drop n xs i ∙ sym (ap (get_elem? (x ∷ xs)) e)

get_elem?-replicate : (n a i : ℕ) → get_elem? (replicate n a) i ≡ (if ltb i n then some a else none)
get_elem?-replicate zero a i = ground arith
get_elem?-replicate (suc n) a zero = ground arith
get_elem?-replicate (suc n) a (suc i) = ground (arith, get_elem?-replicate n a i)

get_elem?_out : (xs : List ℕ) (i : ℕ) → length xs ≤ i → get_elem? xs i ≡ none
get_elem?_out [] i h = refl
get_elem?_out (x ∷ xs) zero h = absurd (omega arith)
get_elem?_out (x ∷ xs) (suc i) h = get_elem?_out xs i (omega arith)

pub length-resize : (n : ℕ) (s : List ℕ) → length (resize n s) ≡ n
unfolding resize
length-resize n s = ground (
  arith,
  length-append s (replicate (n - length s) 0),
  length-replicate {A = ℕ} (n - length s) 0,
  length-take_of_le n s,
)

-- A resized string: the old bytes below the new size, and zero bytes above the old one.
get_elem?-resize :
    (n : ℕ) (s : List ℕ) (i : ℕ)
    → get_elem? (resize n s) i
      ≡ (if ltb i n then if ltb i (length s) then get_elem? s i else some 0 else none)
unfolding resize
get_elem?-resize n s i = ground (
  arith,
  get_elem?-append s (replicate (n - length s) 0) i,
  get_elem?-replicate (n - length s) 0 (i - length s),
  get_elem?-take n s i,
  get_elem?_out s i,
)

module _ (offset : ℕ) (buf s : List ℕ) where
  get_elem?-replace :
      (i : ℕ)
      → offset ≤ length s
      → get_elem? (replace offset buf s) i ≡ (
          if ltb i offset
          then get_elem? s i
          else if ltb i (offset + length buf)
          then get_elem? buf (i - offset)
          else get_elem? s i)
  unfolding replace
  get_elem?-replace i h =
      let behind = drop (offset + length buf) s in
      let pos : ltb i (offset + length buf) ≡ false
          → offset + length buf + (i - offset - length buf) ≡ i =
        λ far. ground arith in
      ground (
        arith,
        get_elem?-append (take offset s) (buf ++ behind) i,
        get_elem?-append buf behind (i - offset),
        length-take_of_le offset s h,
        get_elem?-take offset s i,
        get_elem?-drop (offset + length buf) s (i - offset - length buf),
        pos,
      )

  length-replace :
      offset ≤ length s → length (replace offset buf s) ≡ max (length s) (offset + length buf)
  unfolding replace
  length-replace h = omega (
    arith,
    length-append (take offset s) (buf ++ drop (offset + length buf) s),
    length-append buf (drop (offset + length buf) s),
    length-take_of_le offset s h,
    length-drop (offset + length buf) s,
  )

-- The byte at `i` after a write of `buf` at `offset`: the buffer from `offset` on, the old bytes
-- elsewhere, and zero bytes between the old end and `offset`.
pub written : ℕ → List ℕ → List ℕ → ℕ → Option ℕ
written offset buf s i =
    if ltb i offset
    then if ltb i (length s) then get_elem? s i else some 0
    else if ltb i (offset + length buf)
    then get_elem? buf (i - offset)
    else get_elem? s i

pub get_elem?-update_ihandle_value :
    (offset : ℕ) (buf s : List ℕ) (i : ℕ)
    → get_elem? (update_ihandle_value offset buf s) i ≡ written offset buf s i
unfolding update_ihandle_value written
get_elem?-update_ihandle_value offset buf s i = elim (Bool-cases (ltb (length s) offset)) [
  | inl past ↦ rw past (
      ground (
        arith,
        length-resize offset s,
        get_elem?-replace offset buf (resize offset s) i,
        get_elem?-resize offset s i,
        get_elem?_out s i,
      ))
  | inr inside ↦ rw inside (ground (arith, get_elem?-replace offset buf s i))
]

pub length-update_ihandle_value :
    (offset : ℕ) (buf s : List ℕ)
    → length (update_ihandle_value offset buf s) ≡ max (length s) (offset + length buf)
unfolding update_ihandle_value
length-update_ihandle_value offset buf s = elim (Bool-cases (ltb (length s) offset)) [
  | inl past ↦
      rw past (ground (arith, length-resize offset s, length-replace offset buf (resize offset s)))
  | inr inside ↦ rw inside (length-replace offset buf s (ground arith))
]

get_elem?-ext : (xs ys : List ℕ) → ((i : ℕ) → get_elem? xs i ≡ get_elem? ys i) → xs ≡ ys
get_elem?-ext [] [] h = refl
get_elem?-ext [] (y ∷ ys) h = let first = h 0 in cc
get_elem?-ext (x ∷ xs) [] h = let first = h 0 in cc
get_elem?-ext (x ∷ xs) (y ∷ ys) h =
    let first = h 0 in let rest = get_elem?-ext xs ys (λ i. h (suc i)) in cc

-- Two writes, the second behind the first, are one.
pub update_ihandle_value-append :
    (offset : ℕ) (a b s : List ℕ)
    → update_ihandle_value (offset + length a) b (update_ihandle_value offset a s)
      ≡ update_ihandle_value offset (a ++ b) s
unfolding written
update_ihandle_value-append offset a b s =
    let once = update_ihandle_value offset a s in
    get_elem?-ext (update_ihandle_value (offset + length a) b once)
      (update_ihandle_value offset (a ++ b) s)
      (λ i. ground (
        arith,
        get_elem?-update_ihandle_value (offset + length a) b once i,
        get_elem?-update_ihandle_value offset a s i,
        get_elem?-update_ihandle_value offset (a ++ b) s i,
        length-update_ihandle_value offset a s,
        length-append a b,
        get_elem?-append a b (i - offset),
        get_elem?_out s i,
      ))

pub update_ihandle_value-nil : (buf : List ℕ) → update_ihandle_value 0 buf [] ≡ buf
unfolding written
update_ihandle_value-nil buf =
    get_elem?-ext (update_ihandle_value 0 buf []) buf
      (λ i. ground (arith, get_elem?-update_ihandle_value 0 buf [] i, get_elem?_out buf i))

-- The bytes just written.
pub slice-update_ihandle_value :
    (offset : ℕ) (buf s : List ℕ)
    → take (length buf) (drop offset (update_ihandle_value offset buf s)) ≡ buf
unfolding written
slice-update_ihandle_value offset buf s =
    let all = update_ihandle_value offset buf s in
    get_elem?-ext (take (length buf) (drop offset all)) buf (λ i. ground (
      arith,
      get_elem?-take (length buf) (drop offset all) i,
      get_elem?-drop offset all i,
      get_elem?-update_ihandle_value offset buf s (offset + i),
      get_elem?_out buf i,
    ))

module _ {v : InodeValue} {name content : List ℕ} (laid : IsLaidOut v name content) where
  -- On a laid-out value, the bytes that GetInlineData returns after UpdateInlineData are, up to
  -- the size asked for, the written buffer at its place, the old data elsewhere, and zero bytes
  -- in a gap between the old end and the write.
  pub get_inline_data-update_inline_data :
      (at : ℕ) (buf : List ℕ) (offset size i : ℕ)
      → get_elem? (get_inline_data (update_inline_data at buf v) offset size) i
        ≡ (if ltb i size then written at buf content (offset + i) else none)
  get_inline_data-update_inline_data at buf offset size i =
      let after = update_inline_data-IsLaidOut laid at buf in
      let s = update_ihandle_value at buf content in
      ap (λ (t : List ℕ). get_elem? t i) (get_inline_data-slice after offset size)
      ∙ ground (
        arith,
        get_elem?-take size (drop offset s) i,
        get_elem?-drop offset s i,
        get_elem?-update_ihandle_value at buf content (offset + i),
      )

  -- On a laid-out value, the bytes that GetInlineData returns after TruncateInlineData are the
  -- old data below the new size, zero bytes up to it where the data was shorter, and nothing
  -- past it.
  pub get_inline_data-truncate_inline_data :
      (new_size offset size i : ℕ)
      → get_elem? (get_inline_data (truncate_inline_data new_size v) offset size) i ≡ (
          if ltb i size && ltb (offset + i) new_size
          then if ltb (offset + i) (length content) then get_elem? content (offset + i) else some 0
          else none)
  get_inline_data-truncate_inline_data new_size offset size i =
      let after = truncate_inline_data-IsLaidOut laid new_size in
      let s = resize new_size content in
      ap (λ (t : List ℕ). get_elem? t i) (get_inline_data-slice after offset size)
      ∙ ground (
        arith,
        get_elem?-take size (drop offset s) i,
        get_elem?-drop offset s i,
        get_elem?-resize new_size content (offset + i),
      )
