-- ===== src/Bench/Picker.antt =====
-- fsbench.cpp: RandomPicker, over the random numbers of LevelDB.
use mathlib.Core.Path.{subst}
use native.Mathlib.Numerals.{towards_suc}
use native.Mathlib.Nat.{mod-lt, mod-eq_of_lt}
use tablefs.Base.{
  ℕ, zero, suc, ◌+◌, ◌*◌, ◌%◌, ◌^◌, ◌≡◌, ◌<◌, ◌≤◌, ◌≢◌, refl, ap, sym, ◌∙◌, Bool, true, false,
  Option, none, some, List, [], ◌∷◌, if◌then◌else◌, ltb, leb, ◌&&◌, ◌==◌, arith, Bool-cases, inl,
  inr, ◌>>=◌, list_eq,
}

-- `leveldb::Random`: a new one for a seed, `Uniform(n)` and `Skewed(max_log)`
pub record Random : Type 1 where
  pub State : Type 0
  pub seeded : ℕ → State
  pub uniform : ℕ → State → ℕ × State
  pub skewed : ℕ → State → ℕ × State

-- lib/leveldb/util/random.h: Uniform returns a value in [0..n-1], and requires n > 0.
pub record RandomLaws (R : Random) : Type 0 where
  pub uniform_below : (n : ℕ) (r : Random.State R) → 0 < n → (Random.uniform R n r).0 < n

-- `RandomPicker::Mode`; the third one, Default, is never stored.
pub data PickMode : Type 0 where
  uniform_mode : PickMode
  skewed_mode : PickMode
  default_mode : PickMode

pub record RandomPicker (R : Random) : Type 0 where
  pub rand : Random.State R
  pub mode_ : PickMode
  pub range_ : ℕ
  pub max_log_ : ℕ

-- `while (max_exp < range_)`, where the int is compared as an unsigned one, for at most `fuel` turns
unfoldable pub find_max_log : ℕ → ℕ → ℕ → ℕ → Option ℕ
find_max_log zero range max_log max_exp = if ltb max_exp range then none else some max_log
find_max_log (suc fuel) range max_log max_exp =
    let rest = find_max_log fuel range (max_log + 1) (max_exp * 2 % 2 ^ 32) in
    if ltb max_exp range then rest else some max_log

-- The mode that a string names: any but "skewed" is the uniform one.
unfoldable pub mode_of : List ℕ → PickMode
mode_of name =
    if name == (b'u' ∷ b'n' ∷ b'i' ∷ b'f' ∷ b'o' ∷ b'r' ∷ b'm' ∷ [])
    then PickMode.uniform_mode
    else if name == (b's' ∷ b'k' ∷ b'e' ∷ b'w' ∷ b'e' ∷ b'd' ∷ [])
    then PickMode.skewed_mode
    else PickMode.uniform_mode

module _ (R : Random) where
  -- The constructor, with 31 turns of the loop: more than it has for a range up to 2 ^ 31.
  unfoldable pub new_picker : ℕ → List ℕ → ℕ → Option (RandomPicker R)
  new_picker seed name range =
      let mode = mode_of name in
      let picker : ℕ → RandomPicker R = λ max_log. record {
        rand = Random.seeded R seed;
        mode_ = mode;
        range_ = range;
        max_log_ = max_log;
      } in
      elim mode [
        | PickMode.skewed_mode ↦ do max_log ← find_max_log 31 range 0 1; some (picker max_log)
        | other ↦ some (picker 0)
      ]

  -- `Next`
  unfoldable pub next : RandomPicker R → ℕ × RandomPicker R
  next p = elim p.mode_ [
    | PickMode.uniform_mode ↦
        let (n, r) = Random.uniform R p.range_ p.rand in (n, record p { rand = r })
    | PickMode.skewed_mode ↦
        let (n, r) = Random.skewed R p.max_log_ p.rand in (n % p.range_, record p { rand = r })
    | PickMode.default_mode ↦ (0, p)
  ]

  -- What a number of calls return.
  unfoldable pub picks : ℕ → RandomPicker R → List ℕ
  picks zero p = []
  picks (suc n) p = let (v, q) = next p in v ∷ picks n q

abbrev pub is_skewed : PickMode → Bool
is_skewed PickMode.skewed_mode = true
is_skewed other = false

unfoldable pub all_below : ℕ → List ℕ → Bool
all_below n [] = true
all_below n (x ∷ xs) = ltb x n && all_below n xs

double_pow : (k : ℕ) → 2 ^ (k + 1) ≡ 2 ^ k * 2
double_pow k = simp towards_suc (omega arith)

find_max_log-covers :
    (fuel range max_log : ℕ)
    → range ≤ 2 ^ 31
    → range ≤ 2 ^ (max_log + fuel)
    → (out : ℕ) × (find_max_log fuel range max_log (2 ^ max_log) ≡ some out) × (range ≤ 2 ^ out)
unfolding find_max_log
find_max_log-covers zero range max_log small covers =
    let here : range ≤ 2 ^ max_log = subst (λ n. range ≤ 2 ^ n) (omega arith) covers in
    (max_log, ground (arith, here), here)
find_max_log-covers (suc fuel) range max_log small covers =
    elim (Bool-cases (ltb (2 ^ max_log) range)) [
      | inl below ↦
          let doubled : 2 ^ max_log * 2 % 2 ^ 32 ≡ 2 ^ (max_log + 1) =
            mod-eq_of_lt (ground (arith, below, small)) ∙ sym (double_pow max_log) in
          let (out, ran, reached) =
            find_max_log-covers fuel range (max_log + 1) small
              (subst (λ n. range ≤ 2 ^ n) (omega arith) covers) in
          (
            out,
            ground (arith, below, ap (find_max_log fuel range (max_log + 1)) doubled, ran),
            reached,
          )
      | inr enough ↦ (max_log, ground (arith, enough), ground (arith, enough))
    ]

mode_of-named : (name : List ℕ) → mode_of name ≢ PickMode.default_mode
unfolding mode_of
mode_of-named name h = ground (arith, h)

module _ {R : Random} (laws : RandomLaws R) where
  next-below :
      (p : RandomPicker R)
      → 0 < p.range_
      → p.mode_ ≢ PickMode.default_mode
      → ((next R p).0 < p.range_)
        × ((next R p).1.range_ ≡ p.range_)
        × ((next R p).1.mode_ ≡ p.mode_)
  unfolding next
  next-below p some_range named = go p.mode_ refl
    where
      go :
          (m : PickMode)
          → p.mode_ ≡ m
          → ((next R p).0 < p.range_)
            × ((next R p).1.range_ ≡ p.range_)
            × ((next R p).1.mode_ ≡ p.mode_)
      go PickMode.uniform_mode e = rw e (laws.uniform_below p.range_ p.rand some_range, refl, refl)
      go PickMode.skewed_mode e =
          rw e (mod-lt ((Random.skewed R p.max_log_ p.rand).0) some_range, refl, refl)
      go PickMode.default_mode e = absurd (named e)

  picks-below :
      (n : ℕ) (p : RandomPicker R)
      → 0 < p.range_
      → p.mode_ ≢ PickMode.default_mode
      → all_below p.range_ (picks R n p) ≡ true
  unfolding picks all_below
  picks-below zero p some_range named = refl
  picks-below (suc n) p some_range named =
      let (small, same, mode) = next-below p some_range named in
      let q = (next R p).1 in
      let rest =
        picks-below n q (subst (λ k. 0 < k) (sym same) some_range) (λ e. named (sym mode ∙ e)) in
      ground (arith, small, ap (λ k. all_below k (picks R n q)) same, rest)

  -- A new picker for a range above 0 and up to 2 ^ 31, with Uniform as LevelDB documents it: the loop
  -- of the constructor ends; in the skewed mode 2 ^ max_log_ is not below the range; and whatever
  -- the mode, all that any number of calls of Next return is below the range.
  pub new_picker-picks :
      (seed n range : ℕ) (name : List ℕ)
      → 0 < range
      → range ≤ 2 ^ 31
      → (p : RandomPicker R) × (new_picker R seed name range ≡ some p)
        × ((if is_skewed p.mode_ then leb range (2 ^ p.max_log_) else true) ≡ true)
        × (all_below range (picks R n p) ≡ true)
  unfolding new_picker
  new_picker-picks seed n range name some_range small = go (mode_of name) refl
    where
      made : PickMode → ℕ → RandomPicker R
      made mode max_log = record {
        rand = Random.seeded R seed;
        mode_ = mode;
        range_ = range;
        max_log_ = max_log;
      }

      go :
          (mode : PickMode)
          → mode_of name ≡ mode
          → (p : RandomPicker R) × (new_picker R seed name range ≡ some p)
            × ((if is_skewed p.mode_ then leb range (2 ^ p.max_log_) else true) ≡ true)
            × (all_below range (picks R n p) ≡ true)
      go PickMode.uniform_mode e =
          let p = made PickMode.uniform_mode 0 in
          (p, ground (arith, e), refl, picks-below n p some_range (λ q. cc q))
      go PickMode.skewed_mode e =
          let (k, ran, reached) = find_max_log-covers 31 range 0 small small in
          let p = made PickMode.skewed_mode k in
          (
            p,
            ground (arith, e, ran),
            ground (arith, reached),
            picks-below n p some_range (λ q. cc q),
          )
      go PickMode.default_mode e = absurd (mode_of-named name e)
