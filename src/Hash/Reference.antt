-- ===== src/Hash/Reference.antt =====
-- `murmur64` against a plain description: little-endian words, then one number for the tail.
use tablefs.Base.{
  ℕ, zero, suc, ◌+◌, ◌*◌, ◌/◌, ◌%◌, ◌≤◌, ◌<◌, ◌≡◌, refl, ◌∙◌, some, List, [], ◌∷◌, arith, take,
  length, ap, drop, length-drop, ◌++◌, take-append, length-append, take-append_le, drop-append_le,
}
use tablefs.Base.Bits.{bit_xor, bit_xor-lt, bit_and-seven}
use tablefs.Key.{u64}
use tablefs.Hash.{
  multiplier, mul64, read_word, scramble, word_loop, tail_switch, finish, murmur64, shr_r,
}
use tablefs.Hash.Tail.{AreBytes, le_number, fall_through-le_number}

-- Take in one word.
mix : ℕ → ℕ → ℕ
mix h w = mul64 (bit_xor h w) multiplier

absorb_words : ℕ → List ℕ → ℕ → ℕ
absorb_words zero key h = h
absorb_words (suc n) key h = absorb_words n (drop 8 key) (mix h (scramble (le_number (take 8 key))))

absorb_tail : List ℕ → ℕ → ℕ
absorb_tail [] h = h
absorb_tail (b ∷ bs) h = mix h (le_number (b ∷ bs))

-- The hash of a whole string of bytes.
pub reference : List ℕ → ℕ → ℕ
reference key seed =
    let n = length key / 8 in
    finish (
      absorb_tail (drop (8 * n) key)
        (absorb_words n key (bit_xor seed (mul64 (length key) multiplier))))

AreBytes-drop : (n : ℕ) (d : List ℕ) → AreBytes d → AreBytes (drop n d)
AreBytes-drop zero d h = h
AreBytes-drop (suc n) [] h = h
AreBytes-drop (suc n) (b ∷ d) h = AreBytes-drop n d h.1

read_word-le_number :
    (buf : List ℕ) → 8 ≤ length buf → read_word buf ≡ some (le_number (take 8 buf), drop 8 buf)
unfolding read_word le_number
read_word-le_number (b0 ∷ b1 ∷ b2 ∷ b3 ∷ b4 ∷ b5 ∷ b6 ∷ b7 ∷ rest) h = ground arith
read_word-le_number _ h = absurd (omega arith)

drop-nil : (n : ℕ) → drop {A = ℕ} n [] ≡ []
drop-nil zero = refl
drop-nil (suc n) = refl

drop-add : (n m : ℕ) (xs : List ℕ) → drop (n + m) xs ≡ drop m (drop n xs)
drop-add zero m xs = ap (λ (t : ℕ). drop t xs) (omega arith)
drop-add (suc n) m [] = rw (drop-nil (suc n + m), drop-nil m)
drop-add (suc n) m (x ∷ xs) =
    let e : suc n + m ≡ suc (n + m) = omega arith in
    ap (λ (t : ℕ). drop t (x ∷ xs)) e ∙ drop-add n m xs

word_loop-absorb_words :
    (n : ℕ) (buf : List ℕ) (h : ℕ)
    → 8 * n ≤ length buf
    → word_loop n buf h ≡ some (absorb_words n buf h, drop (8 * n) buf)
unfolding word_loop absorb_words mix
word_loop-absorb_words zero buf h fits = refl
word_loop-absorb_words (suc n) buf h fits =
    let e : 8 * suc n ≡ 8 + 8 * n = omega arith in
    let behind : drop (8 * suc n) buf ≡ drop (8 * n) (drop 8 buf) =
      ap (λ (t : ℕ). drop t buf) e ∙ drop-add 8 (8 * n) buf in
    rw (read_word-le_number buf (omega arith), behind)
      (word_loop-absorb_words n (drop 8 buf) _ (omega (arith, length-drop 8 buf)))

tail_switch-absorb_tail :
    (n : ℕ) (d : List ℕ) (h : ℕ)
    → n ≤ length d
    → AreBytes d
    → tail_switch n d h ≡ some (absorb_tail (take n d) h)
unfolding tail_switch absorb_tail mix
tail_switch-absorb_tail zero d h fits bytes = refl
tail_switch-absorb_tail (suc n) [] h fits bytes = absurd (omega arith)
tail_switch-absorb_tail (suc n) (b ∷ d) h fits bytes =
    fall_through-le_number (suc n) (b ∷ d) h fits bytes

AreBytes-left : (xs ys : List ℕ) → AreBytes (xs ++ ys) → AreBytes xs
AreBytes-left [] ys h = tt
AreBytes-left (x ∷ xs) ys h = (h.0, AreBytes-left xs ys h.1)

-- A prefix of the buffer is all that the loop and the switch look at.
absorb_words-append :
    (n : ℕ) (key rest : List ℕ) (h : ℕ)
    → 8 * n ≤ length key
    → absorb_words n (key ++ rest) h ≡ absorb_words n key h
unfolding absorb_words
absorb_words-append zero key rest h fits = refl
absorb_words-append (suc n) key rest h fits =
    rw (take-append_le 8 key rest (omega arith), drop-append_le 8 key rest (omega arith))
      (absorb_words-append n (drop 8 key) rest _ (omega (arith, length-drop 8 key)))

-- On a buffer of bytes that begins with a key, murmur64 with the length of the key returns the
-- hash that a description by little-endian words and one number for the tail gives for the key,
-- whatever stands behind it; so it reads no byte past the key.
pub murmur64-reference :
    (key rest : List ℕ) (seed : ℕ)
    → AreBytes (key ++ rest)
    → murmur64 (key ++ rest) (length key) seed ≡ some (reference key seed)
unfolding murmur64 reference
murmur64-reference key rest seed bytes =
    let buf = key ++ rest in
    let len = length key in
    let n = len / 8 in
    let h = bit_xor seed (mul64 len multiplier) in
    let fits : 8 * n ≤ length buf = omega (arith, length-append key rest) in
    let words = word_loop-absorb_words n buf h fits in
    let same = absorb_words-append n key rest h (omega arith) in
    let behind : drop (8 * n) buf ≡ drop (8 * n) key ++ rest =
      drop-append_le (8 * n) key rest (omega arith) in
    let left : take (len % 8) (drop (8 * n) key ++ rest) ≡ drop (8 * n) key =
      take-append (len % 8) (drop (8 * n) key) rest (omega (arith, length-drop (8 * n) key)) in
    let tail =
      tail_switch-absorb_tail (len % 8) (drop (8 * n) buf) (absorb_words n key h)
        (omega (arith, length-drop (8 * n) buf, length-append key rest))
        (AreBytes-drop (8 * n) buf bytes) in
    rw (words, bit_and-seven len, same, tail, behind, left) refl

finish_lt : (h : ℕ) → finish h < u64
unfolding finish
finish_lt h =
    let h2 = mul64 (bit_xor h (shr_r h)) multiplier in
    let small : h2 < u64 = omega arith in bit_xor-lt 64 h2 (shr_r h2) small (omega arith)

-- The hash of a buffer is a 64-bit number: no step leaves the width.
pub reference_lt : (key : List ℕ) (seed : ℕ) → reference key seed < u64
unfolding reference
reference_lt key seed = finish_lt _
