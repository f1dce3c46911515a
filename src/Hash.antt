-- ===== src/Hash.antt =====
-- util/myhash.cpp: `murmur64`. A buffer is the list of the bytes that can be read from its
-- address on; `none` is a read past them. The words are read as on a little-endian machine.
pub mod Tail
pub mod Reference
use Prim.Native.Nat.{bit_and}
use tablefs.Base.{
  ℕ, zero, suc, ◌+◌, ◌*◌, ◌/◌, ◌%◌, ◌^◌, Option, none, some, List, [], ◌∷◌, ◌>>=◌, get_elem?,
}
use tablefs.Base.Bits.{bit_xor}
use tablefs.Key.{u64}

abbrev pub multiplier : ℕ
multiplier = 0xc6a4a7935bd1e995

abbrev pub mul64 : ℕ → ℕ → ℕ
mul64 a b = a * b % u64

-- `x >> 47`, the `r` of the source
abbrev pub shr_r : ℕ → ℕ
shr_r x = x / 2 ^ 47

-- `*data++` for a `uint64_t` pointer: the word, and what stands behind it
unfoldable pub read_word : List ℕ → Option (ℕ × List ℕ)
read_word (b0 ∷ b1 ∷ b2 ∷ b3 ∷ b4 ∷ b5 ∷ b6 ∷ b7 ∷ rest) = some (
  b0
      + b1 * 2 ^ 8
      + b2 * 2 ^ 16
      + b3 * 2 ^ 24
      + b4 * 2 ^ 32
      + b5 * 2 ^ 40
      + b6 * 2 ^ 48
      + b7 * 2 ^ 56,
  rest,
)
read_word _ = none

-- The three lines on `k`.
unfoldable pub scramble : ℕ → ℕ
scramble k = let k1 = mul64 k multiplier in let k2 = bit_xor k1 (shr_r k1) in mul64 k2 multiplier

-- `while (data != end)`, with the number of words left
unfoldable pub word_loop : ℕ → List ℕ → ℕ → Option (ℕ × List ℕ)
unfolding read_word scramble
word_loop zero buf h = some (h, buf)
word_loop (suc n) buf h = do
  (k, rest) ← read_word buf
  word_loop n rest (mul64 (bit_xor h (scramble k)) multiplier)

-- The cases below `case n`, each of which falls through to the next.
unfoldable pub fall_through : ℕ → List ℕ → ℕ → Option ℕ
fall_through zero data2 h = some (mul64 h multiplier)
fall_through (suc i) data2 h = do
  b ← get_elem? data2 i
  fall_through i data2 (bit_xor h (b * 2 ^ (8 * i)))

-- `switch (len & 7)`
unfoldable pub tail_switch : ℕ → List ℕ → ℕ → Option ℕ
unfolding fall_through
tail_switch zero data2 h = some h
tail_switch (suc n) data2 h = fall_through (suc n) data2 h

unfoldable pub finish : ℕ → ℕ
finish h0 = let h1 = bit_xor h0 (shr_r h0) in let h2 = mul64 h1 multiplier in bit_xor h2 (shr_r h2)

unfoldable pub murmur64 : List ℕ → ℕ → ℕ → Option ℕ
unfolding word_loop tail_switch finish
murmur64 key len seed = do
  (h, data2) ← word_loop (len / 8) key (bit_xor seed (mul64 len multiplier))
  h' ← tail_switch (bit_and len 7) data2 h
  some (finish h')
