-- ===== src/Bench/Shares.antt =====
-- fsbench.cpp: the order of the paths, and the share that each thread has of them.
use native.Mathlib.Nat.{mod-lt, mod-eq_of_lt, mod-eq-sub-mod, add-mod, mul-mod_right, div-add-mod}
use tablefs.Base.{
  ◌>>=◌, ℕ, zero, suc, ◌+◌, ◌-◌, ◌%◌, ◌≡◌, ◌<◌, ◌≤◌, refl, ap, sym, ◌∙◌, ◌*◌, ◌/◌, leb,
  length-append, Bool, Option, none, some, List, [], ◌∷◌, ◌++◌, if◌then◌else◌, nat_beq, ltb, ◌&&◌,
  arith, length, get_elem?, Bool-cases, inl, inr,
}

-- `path_order[j] = i;`
unfoldable pub assign : ℕ → ℕ → List ℕ → List ℕ
assign j i [] = []
assign zero i (x ∷ xs) = i ∷ xs
assign (suc j) i (x ∷ xs) = x ∷ assign j i xs

-- The loop of the constructor from `i` on, for `left` turns: the list is what is stored so far, and
-- `rand i` what rand returns in the turn of `i`. A read that is not in the list is none.
unfoldable pub order_loop : (ℕ → ℕ) → ℕ → ℕ → List ℕ → Option (List ℕ)
order_loop rand zero i order = some order
order_loop rand (suc left) i order = do
  let j = rand i % i
  old ← get_elem? order j
  order_loop rand left (i + 1) (assign j i (order ++ old ∷ []))

-- `path_order` for `npath` paths. For no path, its first entry is written behind the array.
unfoldable pub path_order : (ℕ → ℕ) → ℕ → Option (List ℕ)
path_order rand zero = none
path_order rand (suc n) = order_loop rand n 1 (0 ∷ [])

-- `for (int i = thread->tid; i < numquery; i += thread->step)`, for at most `fuel` turns
unfoldable pub strides : ℕ → ℕ → ℕ → ℕ → List ℕ
strides zero step numquery i = []
strides (suc fuel) step numquery i =
    let rest = strides fuel step numquery (i + step) in if ltb i numquery then i ∷ rest else []

-- How often a number stands in a list.
unfoldable pub times : ℕ → List ℕ → ℕ
times v [] = 0
times v (x ∷ xs) = (if nat_beq v x then 1 else 0) + times v xs

times-++ : (v : ℕ) (xs ys : List ℕ) → times v (xs ++ ys) ≡ times v xs + times v ys
unfolding times
times-++ v [] ys = omega arith
times-++ v (x ∷ xs) ys = ground (arith, times-++ v xs ys)

length-assign : (j i : ℕ) (xs : List ℕ) → length (assign j i xs) ≡ length xs
unfolding assign
length-assign j i [] = refl
length-assign zero i (x ∷ xs) = refl
length-assign (suc j) i (x ∷ xs) = ground (arith, length-assign j i xs)

times-assign :
    (v j i old : ℕ) (xs : List ℕ)
    → get_elem? xs j ≡ some old
    → times v (assign j i xs) + (if nat_beq v old then 1 else 0)
      ≡ times v xs + (if nat_beq v i then 1 else 0)
unfolding assign times
times-assign v j i old [] h = absurd (cc h)
times-assign v zero i old (x ∷ xs) h = ground (arith, h)
times-assign v (suc j) i old (x ∷ xs) h = ground (arith, times-assign v j i old xs h)

get-below : (xs : List ℕ) (j : ℕ) → j < length xs → (x : ℕ) × (get_elem? xs j ≡ some x)
get-below [] j h = absurd (omega (arith, h))
get-below (x ∷ xs) zero h = (x, refl)
get-below (x ∷ xs) (suc j) h = get-below xs j (omega (arith, h))

get-++ : (xs ys : List ℕ) (j x : ℕ) → get_elem? xs j ≡ some x → get_elem? (xs ++ ys) j ≡ some x
get-++ [] ys j x h = absurd (cc h)
get-++ (y ∷ xs) ys zero x h = h
get-++ (y ∷ xs) ys (suc j) x h = get-++ xs ys j x h

order_loop-lists :
    (rand : ℕ → ℕ) (i left : ℕ) (order : List ℕ)
    → 0 < i
    → length order ≡ i
    → ((v : ℕ) → times v order ≡ (if ltb v i then 1 else 0))
    → (out : List ℕ) × (order_loop rand left i order ≡ some out)
      × (length out ≡ i + left)
      × ((v : ℕ) → times v out ≡ (if ltb v (i + left) then 1 else 0))
unfolding order_loop times
order_loop-lists rand i zero order some_there long each =
    (order, refl, omega (arith, long), λ v. ground (arith, each v))
order_loop-lists rand i (suc left) order some_there long each =
    let j = rand i % i in
    let (old, there) = get-below order j (omega (arith, long, mod-lt (rand i) some_there)) in
    let longer = assign j i (order ++ old ∷ []) in
    let (out, ran, size, all) =
      order_loop-lists rand (i + 1) left longer (omega arith)
        (omega (arith, length-assign j i (order ++ old ∷ []), length-append order (old ∷ []), long))
        (λ v. ground (
          arith,
          times-assign v j i old (order ++ old ∷ []) (get-++ order (old ∷ []) j old there),
          times-++ v order (old ∷ []),
          each v,
        )) in
    (out, ground (arith, there, ran), omega (arith, size), λ v. ground (arith, all v))

-- For at least one path, whatever rand returns: all reads of the constructor are within what it has
-- stored, and path_order has npath entries, with each number below npath once and no other.
pub path_order-lists :
    (rand : ℕ → ℕ) (npath : ℕ)
    → 0 < npath
    → (order : List ℕ) × (path_order rand npath ≡ some order)
      × (length order ≡ npath)
      × ((v : ℕ) → times v order ≡ (if ltb v npath then 1 else 0))
unfolding path_order times
path_order-lists rand zero h = absurd (omega (arith, h))
path_order-lists rand (suc n) h =
    let (out, ran, size, all) =
      order_loop-lists rand 1 n (0 ∷ []) (omega arith) refl (λ v. ground arith) in
    (out, ran, omega (arith, size), λ v. ground (arith, all v))

times-strides :
    (v fuel step n i : ℕ)
    → 0 < step
    → n ≤ fuel + i
    → times v (strides fuel step n i)
      ≡ (if ltb v n && (leb i v && nat_beq ((v - i) % step) 0) then 1 else 0)
unfolding strides times
times-strides v zero step n i h enough = ground (arith, enough)
times-strides v (suc fuel) step n i h enough =
    let rest = times-strides v fuel step n (i + step) h (omega (arith, h, enough)) in
    elim (Bool-cases (ltb v (i + step))) [
      | inl near ↦ ground (arith, near, rest, h, mod-eq_of_lt {n = v - i} {m = step})
      | inr far ↦
          let same : v - i - step ≡ v - (i + step) = omega arith in
          ground
            (arith, far, rest, h, mod-eq-sub-mod {n = v - i} {m = step}, ap (λ x. x % step) same)
    ]

same_lane :
    (v step tid : ℕ)
    → tid < step
    → leb tid v && nat_beq ((v - tid) % step) 0 ≡ nat_beq (v % step) tid
same_lane v step tid below = elim (Bool-cases (nat_beq (v % step) tid)) [
  | inl same ↦
      let rest : v - tid ≡ step * (v / step) = ground (arith, same, div-add-mod v step) in
      ground
        (arith, same, div-add-mod v step, ap (λ x. x % step) rest, mul-mod_right step (v / step))
  | inr other ↦ elim (Bool-cases (leb tid v && nat_beq ((v - tid) % step) 0)) [
    | inl both ↦
        let there : tid ≤ v = ground (arith, both) in
        let whole : (v - tid) % step ≡ 0 = ground (arith, both) in
        let split : v ≡ tid + (v - tid) = omega (arith, there) in
        let tail : (tid % step + (v - tid) % step) % step ≡ tid =
          ap (λ x. (tid % step + x) % step) whole
          ∙ ap (λ x. x % step) (omega (arith, mod-eq_of_lt below))
          ∙ mod-eq_of_lt below in
        absurd (ground (arith, other, ap (λ x. x % step) split, add-mod tid (v - tid) step, tail))
    | inr neither ↦ neither ∙ sym other
  ]
]

-- The loops of the threads share the numbers below numquery out: the thread that v % step names has
-- v once if it is below numquery, no other thread has it, and numquery turns are enough.
pub strides-once :
    (v step numquery tid : ℕ)
    → tid < step
    → times v (strides numquery step numquery tid)
      ≡ (if ltb v numquery && nat_beq (v % step) tid then 1 else 0)
strides-once v step numquery tid below =
    times-strides v numquery step numquery tid (omega (arith, below)) (omega arith)
    ∙ ap (λ (b : Bool). if◌then◌else◌ {A = ℕ} (ltb v numquery && b) 1 0)
        (same_lane v step tid below)
