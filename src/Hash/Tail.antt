-- ===== src/Hash/Tail.antt =====
-- The `switch` of `murmur64`: the bytes that are left, as one little-endian number.
use native.Mathlib.Numerals.{towards_suc}
use tablefs.Base.{
  ℕ, zero, suc, ◌+◌, ◌*◌, ◌^◌, ◌≤◌, ◌<◌, ◌≡◌, refl, ◌∙◌, some, List, [], ◌∷◌, arith, take, length,
  get_elem?, ap,
}
use tablefs.Base.Bits.{bit_xor, bit_xor_assoc, bit_xor_fields, bit_xor-zero}
use tablefs.Hash.{multiplier, mul64, fall_through}

abbrev pub AreBytes : List ℕ → Type 0
AreBytes [] = Unit
AreBytes (b ∷ bs) = (b < 256) × AreBytes bs

-- The little-endian number of some bytes.
unfoldable pub le_number : List ℕ → ℕ
le_number [] = 0
le_number (b ∷ bs) = b + 256 * le_number bs

-- `256 ^ n`, as a recursion.
abbrev pub pow8 : ℕ → ℕ
pow8 zero = 1
pow8 (suc n) = 256 * pow8 n

pub two_pow-pow8 : (n : ℕ) → 2 ^ (8 * n) ≡ pow8 n
two_pow-pow8 zero = refl
two_pow-pow8 (suc n) =
    let e : 8 * suc n ≡ 8 * n + 8 = omega arith in
    let eight : 2 ^ (8 * n + 8) ≡ 256 * 2 ^ (8 * n) = simp towards_suc (omega arith) in
    ap (λ (t : ℕ). 2 ^ t) e ∙ omega (arith, eight, two_pow-pow8 n)

pow8_pos : (n : ℕ) → 0 < pow8 n
pow8_pos zero = omega arith
pow8_pos (suc n) = omega (arith, pow8_pos n)

le_number-take_lt : (n : ℕ) (d : List ℕ) → AreBytes d → le_number (take n d) < pow8 n
unfolding le_number
le_number-take_lt zero d h = omega arith
le_number-take_lt (suc n) [] h = omega (arith, pow8_pos n)
le_number-take_lt (suc n) (b ∷ d) h = omega (arith, le_number-take_lt n d h.1)

le_number-take-suc :
    (i : ℕ) (d : List ℕ)
    → i < length d
    → (b : ℕ) × (get_elem? d i ≡ some b)
      × (le_number (take (suc i) d) ≡ b * pow8 i + le_number (take i d))
unfolding le_number
le_number-take-suc i [] h = absurd (omega arith)
le_number-take-suc zero (b ∷ d) h = (b, refl, omega arith)
le_number-take-suc (suc i) (b ∷ d) h =
    let (c, got, sum) = le_number-take-suc i d (omega arith) in (c, got, omega (arith, sum))

-- With enough bytes left, the cases that fall through take them all in at once.
pub fall_through-le_number :
    (n : ℕ) (d : List ℕ) (h : ℕ)
    → n ≤ length d
    → AreBytes d
    → fall_through n d h ≡ some (mul64 (bit_xor h (le_number (take n d))) multiplier)
unfolding fall_through le_number
fall_through-le_number zero d h fits bytes = rw (bit_xor-zero h)
fall_through-le_number (suc i) d h fits bytes =
    let (b, got, sum) = le_number-take-suc i d fits in
    let low = le_number (take i d) in
    let joined : bit_xor (b * 2 ^ (8 * i)) low ≡ le_number (take (suc i) d) =
      bit_xor_fields (8 * i) b low (omega (arith, le_number-take_lt i d bytes, two_pow-pow8 i))
      ∙ omega (arith, sum, ap (λ (t : ℕ). b * t) (two_pow-pow8 i)) in
    rw got (
      fall_through-le_number i d (bit_xor h (b * 2 ^ (8 * i))) (omega arith) bytes
      ∙ ap (λ (t : ℕ). some (mul64 t multiplier))
          (bit_xor_assoc h (b * 2 ^ (8 * i)) low ∙ ap (bit_xor h) joined))
