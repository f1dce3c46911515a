-- ===== src/Base/Maps.antt =====
-- `std::map` and `std::unordered_map` as association lists.
use tablefs.Base.Tests.{if◌then◌else◌}
use tablefs.Base.Equality.{Eq, ◌==◌}
use mathlib.Core.Path.{◌≡◌, refl}
use mathlib.Core.Option.{Option, none, some}
use mathlib.Core.List.{List, [], ◌∷◌}
use native.Mathlib.Omega.{arith}

module _ {ℓ κ} {K : Type ℓ} {V : Type κ} ⦃e : Eq K⦄ where
  -- `m.find(k)`
  unfoldable pub lookup : K → List (K × V) → Option V
  lookup k [] = none
  lookup k ((j, v) ∷ rows) = if j == k then some v else lookup k rows

  -- `m.erase(k)`
  unfoldable pub erase : K → List (K × V) → List (K × V)
  erase k [] = []
  erase k ((j, v) ∷ rows) = let rest = erase k rows in if j == k then rest else (j, v) ∷ rest

  -- `m[k] = v`
  unfoldable pub insert : K → V → List (K × V) → List (K × V)
  insert k v [] = (k, v) ∷ []
  insert k v ((j, old) ∷ rows) = if j == k then (j, v) ∷ rows else (j, old) ∷ insert k v rows

  pub lookup-nil : (k : K) → lookup k [] ≡ none
  unfolding lookup
  lookup-nil k = refl

  pub lookup-erase :
      (k j : K) (rows : List (K × V))
      → lookup j (erase k rows) ≡ (if k == j then none else lookup j rows)
  unfolding lookup erase
  lookup-erase k j [] = ground arith
  lookup-erase k j ((i, v) ∷ rows) =
      ground (arith, lookup-erase k j rows, e.beq_iff i k, e.beq_iff i j, e.beq_iff k j)

  pub lookup-insert :
      (k j : K) (v : V) (rows : List (K × V))
      → lookup j (insert k v rows) ≡ (if k == j then some v else lookup j rows)
  unfolding lookup insert
  lookup-insert k j v [] = refl
  lookup-insert k j v ((i, old) ∷ rows) =
      ground (arith, lookup-insert k j v rows, e.beq_iff i k, e.beq_iff i j, e.beq_iff k j)
