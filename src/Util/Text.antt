-- ===== src/Util/Text.antt =====
-- What the C library makes of numbers in text, as util/properties.cpp and util/traceloader.cpp use
-- it: `%d` of sprintf, `atoi`, and `%ld` of fscanf for numbers without a sign. A text is its bytes.
pub mod Decimal
use tablefs.Base.{
  ℕ, zero, suc, ◌+◌, ◌-◌, ◌*◌, ◌/◌, ◌%◌, Bool, true, false, ◌&&◌, ◌||◌, List, [], ◌∷◌, ◌++◌,
  if◌then◌else◌, nat_beq, leb, ltb,
}
use tablefs.Base.Int.{ℤ, pos, negsuc, neg}

abbrev pub is_digit : ℕ → Bool
is_digit c = leb b'0' c && leb c b'9'

-- `isspace`: the blank, and tab to carriage return
abbrev pub is_space : ℕ → Bool
is_space c = nat_beq c 32 || leb 9 c && leb c 13

-- The digits of a number, in front of a text; one round of fuel for each digit.
unfoldable pub digits_before : ℕ → ℕ → List ℕ → List ℕ
digits_before zero n s = s
digits_before (suc fuel) n s =
    let more = digits_before fuel (n / 10) ((b'0' + n % 10) ∷ s) in
    if ltb n 10 then (b'0' + n) ∷ s else more

-- `%d`
unfoldable pub print_int : ℤ → List ℕ
print_int (pos n) = digits_before (suc n) n []
print_int (negsuc n) = b'-' ∷ digits_before (suc (suc n)) (suc n) []

-- The number that the digits at the front of a text write, after `acc`, and what is behind them.
unfoldable pub read_digits : ℕ → List ℕ → ℕ × List ℕ
read_digits acc [] = (acc, [])
read_digits acc (c ∷ s) =
    let rest = read_digits (acc * 10 + (c - b'0')) s in if is_digit c then rest else (acc, c ∷ s)

unfoldable pub skip_spaces : List ℕ → List ℕ
skip_spaces [] = []
skip_spaces (c ∷ s) = let rest = skip_spaces s in if is_space c then rest else c ∷ s

unfoldable pub signed : List ℕ → ℤ
signed [] = pos 0
signed (c ∷ s) =
    if nat_beq c b'-'
    then neg (read_digits 0 s).0
    else if nat_beq c b'+'
    then pos (read_digits 0 s).0
    else pos (read_digits 0 (c ∷ s)).0

-- `atoi`, for numbers that fit an `int`
unfoldable pub atoi : List ℕ → ℤ
atoi s = signed (skip_spaces s)
