-- ===== src/Bench/Counts.antt =====
-- How many threads of fsbench.cpp stand at given places.
use tablefs.Base.{
  ℕ, zero, suc, ◌+◌, ◌≡◌, ◌≤◌, refl, ap, Bool, true, false, List, [], ◌∷◌, ◌++◌, map, if◌then◌else◌,
  arith, replicate,
}
use tablefs.Bench.Threads.{Phase, wake, wake_if}

unfoldable pub bit : Bool → ℕ
bit b = if b then 1 else 0

unfoldable pub count : (Phase → Bool) → List Phase → ℕ
unfolding bit
count p [] = 0
count p (x ∷ xs) = bit (p x) + count p xs

pub count-++ :
    (p : Phase → Bool) (xs ys : List Phase) → count p (xs ++ ys) ≡ count p xs + count p ys
unfolding count
count-++ p [] ys = omega arith
count-++ p (x ∷ xs) ys = omega (arith, count-++ p xs ys)

abbrev pub is_fresh : Phase → Bool
is_fresh Phase.fresh = true
is_fresh other = false

-- Behind the barrier.
abbrev pub is_busy : Phase → Bool
is_busy Phase.working = true
is_busy Phase.finished = true
is_busy other = false

abbrev pub is_finished : Phase → Bool
is_finished Phase.finished = true
is_finished other = false

abbrev pub is_any : Phase → Bool
is_any x = true

pub count-map-wake :
    (p : Phase → Bool)
    → ((x : Phase) → p (wake x) ≡ p x)
    → (xs : List Phase) → count p (map wake xs) ≡ count p xs
unfolding count
count-map-wake p same [] = refl
count-map-wake p same (x ∷ xs) = ground (arith, same x, count-map-wake p same xs)

pub count-wake_if :
    (p : Phase → Bool)
    → ((x : Phase) → p (wake x) ≡ p x)
    → (b : Bool) (xs : List Phase) → count p (wake_if b xs) ≡ count p xs
unfolding wake_if
count-wake_if p same true xs = count-map-wake p same xs
count-wake_if p same false xs = refl

pub count-replicate :
    (p : Phase → Bool) (n : ℕ) (x : Phase) → p x ≡ true → count p (replicate n x) ≡ n
unfolding count bit
count-replicate p zero x h = refl
count-replicate p (suc n) x h = ground (arith, h, count-replicate p n x h)

pub count-replicate_none :
    (p : Phase → Bool) (n : ℕ) (x : Phase) → p x ≡ false → count p (replicate n x) ≡ 0
unfolding count bit
count-replicate_none p zero x h = refl
count-replicate_none p (suc n) x h = ground (arith, h, count-replicate_none p n x h)

pub count-le : (p : Phase → Bool) (xs : List Phase) → count p xs ≤ count is_any xs
unfolding count bit
count-le p [] = omega arith
count-le p (x ∷ xs) = ground (arith, count-le p xs)

-- One worker goes from `x` to `y`, and the others may be woken.
pub count-moved :
    (p : Phase → Bool)
    → ((z : Phase) → p (wake z) ≡ p z)
    → (b : Bool) (x y : Phase) (before after xs : List Phase) → xs ≡ before ++ x ∷ after
    → count p (wake_if b before ++ y ∷ wake_if b after) + bit (p x) ≡ count p xs + bit (p y)
unfolding count
count-moved p same b x y before after xs e = omega (
  arith,
  ap (count p) e,
  count-++ p before (x ∷ after),
  count-++ p (wake_if b before) (y ∷ wake_if b after),
  count-wake_if p same b before,
  count-wake_if p same b after,
)

pub is_fresh-wake : (x : Phase) → is_fresh (wake x) ≡ is_fresh x
unfolding wake
is_fresh-wake x = ground arith

pub is_busy-wake : (x : Phase) → is_busy (wake x) ≡ is_busy x
unfolding wake
is_busy-wake x = ground arith

pub is_finished-wake : (x : Phase) → is_finished (wake x) ≡ is_finished x
unfolding wake
is_finished-wake x = ground arith
