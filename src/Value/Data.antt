-- ===== src/Value/Data.antt =====
-- The inline data of a value that is laid out as a name, a zero byte and the data: what each
-- helper does to it, in terms of the data alone.
use tablefs.Base.{
  ℕ, zero, suc, ◌+◌, ◌-◌, ◌≤◌, ◌≡◌, refl, sym, ap, ◌∙◌, Bool-cases, inl, inr, List, [], ◌∷◌, ◌++◌,
  arith, true, false, ltb, length, take, drop, length-append, length-drop, take_of_length-le,
}
use tablefs.Value.{
  InodeValue, resize, replace, update_ihandle_value, get_inline_data, update_inline_data,
  truncate_inline_data, drop_inline_data, data_start,
}

-- The bytes are a name with its terminator, and then the data.
pub record IsLaidOut (v : InodeValue) (name content : List ℕ) : Type 0 where
  pub bytes : v.bytes ≡ (name ++ 0 ∷ []) ++ content
  pub named : v.header.namelen ≡ length name

pub append_assoc : (xs ys zs : List ℕ) → (xs ++ ys) ++ zs ≡ xs ++ (ys ++ zs)
append_assoc [] ys zs = refl
append_assoc (x ∷ xs) ys zs = ap (◌∷◌ x) (append_assoc xs ys zs)

-- Behind a prefix, the string operations act on the rest.
take-prefix : (xs ys : List ℕ) (n m : ℕ) → m ≡ length xs + n → take m (xs ++ ys) ≡ xs ++ take n ys
take-prefix [] ys n m e = ap (λ (t : ℕ). take t ys) (e ∙ omega arith)
take-prefix (x ∷ xs) ys n zero e = absurd (omega arith)
take-prefix (x ∷ xs) ys n (suc m) e = ap (◌∷◌ x) (take-prefix xs ys n m (omega arith))

drop-prefix : (xs ys : List ℕ) (n m : ℕ) → m ≡ length xs + n → drop m (xs ++ ys) ≡ drop n ys
drop-prefix [] ys n m e = ap (λ (t : ℕ). drop t ys) (e ∙ omega arith)
drop-prefix (x ∷ xs) ys n zero e = absurd (omega arith)
drop-prefix (x ∷ xs) ys n (suc m) e = drop-prefix xs ys n m (omega arith)

resize-prefix :
    (xs ys : List ℕ) (n m : ℕ) → m ≡ length xs + n → resize m (xs ++ ys) ≡ xs ++ resize n ys
unfolding resize
resize-prefix xs ys n m e =
    let lens = length-append xs ys in
    let missing : m - length (xs ++ ys) ≡ n - length ys = omega arith in
    elim (Bool-cases (ltb (length ys) n)) [
      | inl short ↦
          let big : ltb (length (xs ++ ys)) m ≡ true = ground arith in
          rw (short, big, missing) (append_assoc xs ys _)
      | inr long ↦
          let big : ltb (length (xs ++ ys)) m ≡ false = ground arith in
          rw (long, big) (take-prefix xs ys n m e)
    ]

replace-prefix :
    (xs ys buf : List ℕ) (n m : ℕ)
    → m ≡ length xs + n
    → replace m buf (xs ++ ys) ≡ xs ++ replace n buf ys
unfolding replace
replace-prefix xs ys buf n m e =
    rw (take-prefix xs ys n m e, drop-prefix xs ys (n + length buf) (m + length buf) (omega arith))
      (append_assoc xs (take n ys) _)

update-prefix :
    (xs ys buf : List ℕ) (n m : ℕ)
    → m ≡ length xs + n
    → update_ihandle_value m buf (xs ++ ys) ≡ xs ++ update_ihandle_value n buf ys
unfolding update_ihandle_value
update-prefix xs ys buf n m e =
    let lens = length-append xs ys in
    elim (Bool-cases (ltb (length ys) n)) [
      | inl short ↦
          let big : ltb (length (xs ++ ys)) m ≡ true = ground arith in
          rw (short, big, resize-prefix xs ys n m e) (replace-prefix xs (resize n ys) buf n m e)
      | inr long ↦
          let big : ltb (length (xs ++ ys)) m ≡ false = ground arith in
          rw (long, big) (replace-prefix xs ys buf n m e)
    ]

-- What a read of `size` bytes at `offset` gives of the data.
abbrev pub slice : ℕ → ℕ → List ℕ → List ℕ
slice offset size content = take size (drop offset content)

drop_of_length-le : (n : ℕ) (xs : List ℕ) → length xs ≤ n → drop n xs ≡ []
drop_of_length-le zero [] h = refl
drop_of_length-le zero (x ∷ xs) h = absurd (omega arith)
drop_of_length-le (suc n) [] h = refl
drop_of_length-le (suc n) (x ∷ xs) h = drop_of_length-le n xs (omega arith)

take-nil : (n : ℕ) → take {A = ℕ} n [] ≡ []
take-nil zero = refl
take-nil (suc n) = refl

resize-zero : (s : List ℕ) → resize 0 s ≡ []
unfolding resize
resize-zero s = ground arith

module _ {v : InodeValue} {name content : List ℕ} (laid : IsLaidOut v name content) where
  prefix_length : length (name ++ 0 ∷ []) ≡ data_start v
  prefix_length = omega (arith, length-append name (0 ∷ []), laid.named)

  -- `GetInlineData` returns the bytes of the data from `offset` on, `size` of them or as many as
  -- there are.
  pub get_inline_data-slice :
      (offset size : ℕ) → get_inline_data v offset size ≡ slice offset size content
  unfolding get_inline_data
  get_inline_data-slice offset size =
      let start = data_start v + offset in
      let cut : drop start v.bytes ≡ drop offset content =
        ap (drop start) laid.bytes
        ∙ drop-prefix (name ++ 0 ∷ []) content offset start (omega (arith, prefix_length)) in
      let size_of : length v.bytes ≡ data_start v + length content =
        ap length laid.bytes
        ∙ omega (arith, length-append (name ++ 0 ∷ []) content, prefix_length) in
      elim (Bool-cases (ltb start (length v.bytes))) [
        | inl inside ↦ elim (Bool-cases (ltb (length v.bytes) (start + size))) [
          | inl over ↦
              rw (inside, over, cut)
                (take_of_length-le (length v.bytes - start) (drop offset content)
                    (omega (arith, length-drop offset content))
                  ∙ sym (
                      take_of_length-le size (drop offset content)
                        (ground (arith, length-drop offset content))))
          | inr within ↦ rw (inside, within, cut)
        ]
        | inr outside ↦
            rw (outside, drop_of_length-le offset content (ground arith)) (sym (take-nil size))
      ]

  -- The data stands behind the name.
  pub content_behind : drop (data_start v) v.bytes ≡ content
  content_behind =
      ap (drop (data_start v)) laid.bytes
      ∙ drop-prefix (name ++ 0 ∷ []) content 0 (data_start v) (omega (arith, prefix_length))

  -- `UpdateInlineData` writes into the data as into a string of its own.
  pub update_inline_data-IsLaidOut :
      (offset : ℕ) (buf : List ℕ)
      → IsLaidOut (update_inline_data offset buf v) name (update_ihandle_value offset buf content)
  unfolding update_inline_data
  update_inline_data-IsLaidOut offset buf = record {
    bytes =
        ap (update_ihandle_value (data_start v + offset) buf) laid.bytes
        ∙ update-prefix (name ++ 0 ∷ []) content buf offset (data_start v + offset)
            (omega (arith, prefix_length));
    named = laid.named;
  }

  -- `TruncateInlineData` cuts the data, or extends it by zero bytes, to the new size.
  pub truncate_inline_data-IsLaidOut :
      (new_size : ℕ) → IsLaidOut (truncate_inline_data new_size v) name (resize new_size content)
  unfolding truncate_inline_data
  truncate_inline_data-IsLaidOut new_size =
      let size = v.header.namelen + new_size + 1 in
      record {
        bytes =
            ap (resize size) laid.bytes
            ∙ resize-prefix (name ++ 0 ∷ []) content new_size size (omega (arith, prefix_length));
        named = laid.named;
      }

  -- `DropInlineData` leaves the name and no data.
  pub drop_inline_data-IsLaidOut : IsLaidOut (drop_inline_data v) name []
  unfolding drop_inline_data
  drop_inline_data-IsLaidOut = record {
    bytes =
        ap (resize (data_start v)) laid.bytes
        ∙ resize-prefix (name ++ 0 ∷ []) content 0 (data_start v) (omega (arith, prefix_length))
        ∙ ap (◌++◌ (name ++ 0 ∷ [])) (resize-zero content);
    named = laid.named;
  }
