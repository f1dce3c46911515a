-- ===== src/Bench/Joining.antt =====
-- fsbench.cpp: Run on names put together with commas.
use tablefs.Base.{
  ℕ, zero, suc, ◌+◌, ◌-◌, ◌≡◌, ◌<◌, ◌≤◌, refl, sym, ap, ◌∙◌, true, Option, none, some, List, [],
  ◌∷◌, ◌++◌, ltb, arith, length, take, drop, Bool-cases, Option-cases, inl, inr, list_eq,
  length-drop, ltb→lt, ltb→ge, take_of_length-le, take-append,
}
use tablefs.Bench.Names.{
  comma, index_of, read_names, known_methods, run_benchmarks, pieces, comma_joined, is_name,
  all_names,
}

-- What the bytes up to the first comma are in the pieces.
abbrev cut : Option ℕ → List ℕ → List (List ℕ)
cut none t = t ∷ []
cut (some k) t = take k t ∷ pieces (drop (suc k) t)

pieces-cut : (x : ℕ) (t : List ℕ) → pieces (x ∷ t) ≡ cut (index_of comma (x ∷ t)) (x ∷ t)
unfolding pieces index_of
pieces-cut x [] = ground arith
pieces-cut x (y ∷ t) = elim (Option-cases (index_of comma (y ∷ t))) [
  | inl none_there ↦ ground (arith, none_there, pieces-cut y t)
  | inr (k, there) ↦ ground (arith, there, pieces-cut y t)
]

drop_past : (n : ℕ) (s : List ℕ) → length s ≤ n → drop n s ≡ []
drop_past zero [] h = refl
drop_past zero (x ∷ s) h = absurd (omega (arith, h))
drop_past (suc n) [] h = refl
drop_past (suc n) (x ∷ s) h = drop_past n s (omega (arith, h))

drop-more : (n k : ℕ) (s : List ℕ) → drop (n + k) s ≡ drop k (drop n s)
drop-more zero k s = ap (λ m. drop m s) (omega arith)
drop-more (suc n) k [] = drop_past (suc n + k) [] (omega arith) ∙ sym (drop_past k [] (omega arith))
drop-more (suc n) k (x ∷ s) = ap (λ m. drop m (x ∷ s)) next ∙ drop-more n k s
  where
    next : suc n + k ≡ suc (n + k)
    next = omega arith

nonempty : (t : List ℕ) → 0 < length t → (x : ℕ) × (u : List ℕ) × (t ≡ x ∷ u)
nonempty [] h = absurd (omega (arith, h))
nonempty (x ∷ u) h = (x, u, refl)

read_names-pieces :
    (fuel last : ℕ) (s : List ℕ)
    → length s ≤ fuel + last
    → read_names fuel s last ≡ pieces (drop last s)
unfolding read_names pieces
read_names-pieces zero last s enough = ground (arith, drop_past last s (omega (arith, enough)))
read_names-pieces (suc fuel) last s enough = elim (Bool-cases (ltb last (length s))) [
  | inl more ↦
      let t = drop last s in
      let (x, u, e) = nonempty t (omega (arith, length-drop last s, ltb→lt last (length s) more)) in
      let whole = ap pieces e ∙ pieces-cut x u ∙ ap (λ w. cut (index_of comma w) w) (sym e) in
      elim (Option-cases (index_of comma t)) [
        | inl none_there ↦
            let all : take (length s - last) t ≡ t =
              take_of_length-le (length s - last) t (omega (arith, length-drop last s)) in
            let end =
              read_names-pieces fuel (length s) s
                (omega (arith, enough, ltb→lt last (length s) more)) in
            ground (arith, more, none_there, all, end, drop_past (length s) s (omega arith), whole)
        | inr (k, there) ↦
            let rest = read_names-pieces fuel (last + k + 1) s (omega (arith, enough)) in
            let behind : drop (last + k + 1) s ≡ drop (suc k) t =
              ap (λ m. drop m s) (omega arith) ∙ drop-more last (suc k) s in
            ground (arith, more, there, rest, behind, whole)
      ]
  | inr over ↦ ground (arith, over, drop_past last s (ltb→ge last (length s) over))
]

index_of-++ :
    (name t : List ℕ)
    → index_of comma name ≡ none
    → index_of comma (name ++ comma ∷ t) ≡ some (length name)
unfolding index_of
index_of-++ [] t h = refl
index_of-++ (x ∷ name) t h = elim (Option-cases (index_of comma name)) [
  | inl none_there ↦ ground (arith, h, none_there, index_of-++ name t none_there)
  | inr (k, there) ↦ absurd (ground (arith, h, there))
]

drop_behind : (c : ℕ) (name t : List ℕ) → drop (suc (length name)) (name ++ c ∷ t) ≡ t
drop_behind c [] t = refl
drop_behind c (x ∷ name) t = drop_behind c name t

pieces-name : (name : List ℕ) → is_name name ≡ true → pieces name ≡ name ∷ []
unfolding is_name
pieces-name [] h = absurd (cc h)
pieces-name (x ∷ u) h = elim (Option-cases (index_of comma (x ∷ u))) [
  | inl none_there ↦ ground (arith, none_there, pieces-cut x u)
  | inr (k, there) ↦ absurd (ground (arith, h, there))
]

pieces-first :
    (name t : List ℕ) → is_name name ≡ true → pieces (name ++ comma ∷ t) ≡ name ∷ pieces t
unfolding is_name
pieces-first [] t h = absurd (cc h)
pieces-first (x ∷ u) t h = elim (Option-cases (index_of comma (x ∷ u))) [
  | inl none_there ↦ ground (
    arith,
    pieces-cut x (u ++ comma ∷ t),
    index_of-++ (x ∷ u) t none_there,
    take-append (length (x ∷ u)) (x ∷ u) (comma ∷ t) refl,
    drop_behind comma (x ∷ u) t,
  )
  | inr (k, there) ↦ absurd (ground (arith, h, there))
]

pieces-comma_joined :
    (names : List (List ℕ)) → all_names names ≡ true → pieces (comma_joined names) ≡ names
unfolding all_names comma_joined pieces
pieces-comma_joined [] h = refl
pieces-comma_joined (name ∷ []) h = pieces-name name (ground (arith, h))
pieces-comma_joined (name ∷ next ∷ names) h =
    pieces-first name (comma_joined (next ∷ names)) (ground (arith, h))
    ∙ ap (◌∷◌ name) (pieces-comma_joined (next ∷ names) (ground (arith, h)))

-- For names that are not empty and have no comma in them, put together with commas, Run runs the
-- method of each name in their order and skips the names that it does not know; the loop ends.
pub run_benchmarks-comma_joined :
    (names : List (List ℕ))
    → all_names names ≡ true
    → run_benchmarks (comma_joined names) ≡ known_methods names
unfolding run_benchmarks
run_benchmarks-comma_joined names h = ap known_methods (
    read_names-pieces (length (comma_joined names)) 0 (comma_joined names) (omega arith)
    ∙ pieces-comma_joined names h)
