-- ===== src/Bench/Loads.antt =====
-- Sums over the threads of fsbench.cpp that a signal does not raise.
use tablefs.Base.{
  ℕ, ◌+◌, ◌≡◌, ◌≤◌, ◌<◌, refl, ap, Bool, true, false, List, [], ◌∷◌, ◌++◌, map, arith, Bool-cases,
  inl, inr,
}
use tablefs.Bench.Threads.{Phase, wake, wake_if}
use tablefs.Bench.Counts.{bit, count}

unfoldable pub weight_of : (Phase → ℕ) → List Phase → ℕ
weight_of w [] = 0
weight_of w (x ∷ xs) = w x + weight_of w xs

weight_of-++ :
    (w : Phase → ℕ) (xs ys : List Phase) → weight_of w (xs ++ ys) ≡ weight_of w xs + weight_of w ys
unfolding weight_of
weight_of-++ w [] ys = omega arith
weight_of-++ w (x ∷ xs) ys = omega (arith, weight_of-++ w xs ys)

pub weight_of-map-wake :
    (w : Phase → ℕ)
    → ((x : Phase) → w (wake x) ≤ w x)
    → (xs : List Phase) → weight_of w (map wake xs) ≤ weight_of w xs
unfolding weight_of
weight_of-map-wake w less [] = omega arith
weight_of-map-wake w less (x ∷ xs) = omega (arith, less x, weight_of-map-wake w less xs)

pub weight_of-wake_if :
    (w : Phase → ℕ)
    → ((x : Phase) → w (wake x) ≤ w x)
    → (b : Bool) (xs : List Phase) → weight_of w (wake_if b xs) ≤ weight_of w xs
unfolding wake_if
weight_of-wake_if w less true xs = weight_of-map-wake w less xs
weight_of-wake_if w less false xs = omega arith

-- One worker goes from `x` to `y`, and the others may be woken.
pub weight_of-moved :
    (w : Phase → ℕ)
    → ((z : Phase) → w (wake z) ≤ w z)
    → (b : Bool) (x y : Phase) (before after xs : List Phase) → xs ≡ before ++ x ∷ after
    → weight_of w (wake_if b before ++ y ∷ wake_if b after) + w x ≤ weight_of w xs + w y
unfolding weight_of
weight_of-moved w less b x y before after xs e = omega (
  arith,
  ap (weight_of w) e,
  weight_of-++ w before (x ∷ after),
  weight_of-++ w (wake_if b before) (y ∷ wake_if b after),
  weight_of-wake_if w less b before,
  weight_of-wake_if w less b after,
)

-- A thread at a place that the count is about.
pub find-count :
    (p : Phase → Bool) (xs : List Phase)
    → 0 < count p xs
    → (before : List Phase) × (x : Phase) × (after : List Phase) × (xs ≡ before ++ x ∷ after)
      × (p x ≡ true)
unfolding count bit
find-count p [] some = absurd (omega arith)
find-count p (x ∷ xs) some = elim (Bool-cases (p x)) [
  | inl here ↦ ([], x, xs, refl, here)
  | inr other ↦
      let (before, y, after, e, holds) = find-count p xs (ground (arith, other, some)) in
      (x ∷ before, y, after, ap (◌∷◌ x) e, holds)
]
