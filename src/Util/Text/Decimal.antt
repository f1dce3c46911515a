-- ===== src/Util/Text/Decimal.antt =====
-- `atoi` reads what `%d` prints.
use tablefs.Base.{
  ℕ, zero, suc, ◌+◌, ◌-◌, ◌*◌, ◌/◌, ◌%◌, ◌<◌, ◌≡◌, refl, sym, ap, ◌∙◌, false, List, [], ◌∷◌, ◌++◌,
  arith, Bool-cases, inl, inr, ltb, ltb→lt, ltb→ge,
}
use tablefs.Base.Int.{ℤ, pos, negsuc, neg}
use tablefs.Util.Text.{digits_before, print_int, read_digits, skip_spaces, signed, atoi, is_digit}

-- A text that begins with no digit.
abbrev pub Ends : List ℕ → Type 0
Ends [] = Unit
Ends (c ∷ s) = is_digit c ≡ false

read_digits-digit :
    (d acc : ℕ) (s : List ℕ)
    → d < 10
    → read_digits acc ((b'0' + d) ∷ s) ≡ read_digits (acc * 10 + d) s
unfolding read_digits
read_digits-digit d acc s h =
    let same : acc * 10 + (b'0' + d - b'0') ≡ acc * 10 + d = omega arith in
    ground (arith, ap (λ (n : ℕ). read_digits n s) same)

pub read_digits-digits_before :
    (fuel n : ℕ) (s : List ℕ) → n < fuel → read_digits 0 (digits_before fuel n s) ≡ read_digits n s
unfolding digits_before
read_digits-digits_before zero n s h = absurd (omega arith)
read_digits-digits_before (suc fuel) n s h = elim (Bool-cases (ltb n 10)) [
  | inl small ↦
      rw small (
        read_digits-digit n 0 s (ltb→lt n 10 small) ∙ ap (λ (m : ℕ). read_digits m s) (omega arith))
  | inr large ↦ rw large (
      read_digits-digits_before fuel (n / 10) ((b'0' + n % 10) ∷ s)
        (omega (arith, ltb→ge n 10 large))
      ∙ read_digits-digit (n % 10) (n / 10) s (omega arith)
      ∙ ap (λ (m : ℕ). read_digits m s) (omega arith))
]

read_digits_end : (n : ℕ) (s : List ℕ) → Ends s → read_digits n s ≡ (n, s)
unfolding read_digits
read_digits_end n [] h = refl
read_digits_end n (c ∷ s) h = ground arith

-- The first byte of a number is one of its digits.
digits_before-head :
    (fuel n : ℕ) (s : List ℕ)
    → n < fuel
    → (d : ℕ) × (t : List ℕ) × (digits_before fuel n s ≡ (b'0' + d) ∷ t) × (d < 10)
unfolding digits_before
digits_before-head zero n s h = absurd (omega arith)
digits_before-head (suc fuel) n s h = elim (Bool-cases (ltb n 10)) [
  | inl small ↦ (n, s, rw small refl, ltb→lt n 10 small)
  | inr large ↦
      let (d, t, e, b) =
        digits_before-head fuel (n / 10) ((b'0' + n % 10) ∷ s) (omega (arith, ltb→ge n 10 large)) in
      (d, t, rw large e, b)
]

signed-digit :
    (d : ℕ) (t : List ℕ) → d < 10 → atoi ((b'0' + d) ∷ t) ≡ pos (read_digits 0 ((b'0' + d) ∷ t)).0
unfolding atoi skip_spaces signed
signed-digit d t h = ground arith

-- `atoi` gives back every number that `%d` prints.
pub atoi-print_int : (n : ℤ) → atoi (print_int n) ≡ n
unfolding print_int atoi skip_spaces signed
atoi-print_int (pos n) =
    let (d, t, e, b) = digits_before-head (suc n) n [] (omega arith) in
    ap atoi e
    ∙ signed-digit d t b
    ∙ ap (λ s. pos (read_digits 0 s).0) (sym e)
    ∙ ap (λ (p : ℕ × List ℕ). pos p.0)
        (read_digits-digits_before (suc n) n [] (omega arith) ∙ read_digits_end n [] tt)
atoi-print_int (negsuc n) =
    ap (λ (p : ℕ × List ℕ). neg p.0)
      (read_digits-digits_before (suc (suc n)) (suc n) [] (omega arith)
        ∙ read_digits_end (suc n) [] tt)

digits_before-append :
    (fuel n : ℕ) (s t : List ℕ) → digits_before fuel n s ++ t ≡ digits_before fuel n (s ++ t)
unfolding digits_before
digits_before-append zero n s t = refl
digits_before-append (suc fuel) n s t = elim (Bool-cases (ltb n 10)) [
  | inl small ↦ rw small refl
  | inr large ↦ rw large (digits_before-append fuel (n / 10) ((b'0' + n % 10) ∷ s) t)
]

-- A printed number in front of a text that begins with no digit: its first byte is a digit, and
-- its digits are read as the number.
pub print_int_digits :
    (n : ℕ) (t : List ℕ)
    → Ends t
    → (d : ℕ) × (u : List ℕ) × (print_int (pos n) ++ t ≡ (b'0' + d) ∷ u)
      × (d < 10)
      × (read_digits 0 ((b'0' + d) ∷ u) ≡ (n, t))
unfolding print_int
print_int_digits n t ends =
    let (d, u, e, small) = digits_before-head (suc n) n t (omega arith) in
    (
      d,
      u,
      digits_before-append (suc n) n [] t ∙ e,
      small,
      ap (read_digits 0) (sym e)
          ∙ read_digits-digits_before (suc n) n t (omega arith)
          ∙ read_digits_end n t ends,
    )
