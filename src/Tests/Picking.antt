-- ===== src/Tests/Picking.antt =====
-- The choices of the benchmark at concrete inputs.
use tablefs.Base.{
  ℕ, ◌%◌, ◌^◌, ◌≡◌, refl, true, some, List, [], ◌∷◌, if◌then◌else◌, ltb, leb, arith, length,
  list_beq,
}
use native.Mathlib.Nat.{mod-lt}
use tablefs.Bench.Shares.{path_order, times, path_order-lists}
use tablefs.Bench.Picker.{
  Random, RandomLaws, RandomPicker, new_picker, picks, is_skewed, all_below, new_picker-picks,
}
use tablefs.Bench.Names.{
  Method, method_of, run_benchmarks, comma_joined, known_methods, all_names, is_name, index_of,
}
use tablefs.Bench.Joining.{run_benchmarks-comma_joined}

path_order-lists_example :
    (order : List ℕ) × (path_order (λ i. 7) 5 ≡ some order)
    × (length order ≡ 5)
    × ((v : ℕ) → times v order ≡ (if ltb v 5 then 1 else 0))
path_order-lists_example = path_order-lists (λ i. 7) 5 (omega arith)

-- The same number over and over.
abbrev counter : Random
counter = record {
  State = ℕ;
  seeded = λ seed. seed;
  uniform = λ n r. (r % n, r);
  skewed = λ max_log r. (r % 2 ^ max_log, r);
}

counter-RandomLaws : RandomLaws counter
counter-RandomLaws = record { uniform_below = λ n r some_range. mod-lt r some_range }

abbrev skewed_name : List ℕ
skewed_name = b's' ∷ b'k' ∷ b'e' ∷ b'w' ∷ b'e' ∷ b'd' ∷ []

new_picker-picks_example :
    (p : RandomPicker counter) × (new_picker counter 21 skewed_name 10 ≡ some p)
    × ((if is_skewed p.mode_ then leb 10 (2 ^ p.max_log_) else true) ≡ true)
    × (all_below 10 (picks counter 4 p) ≡ true)
new_picker-picks_example =
    new_picker-picks counter-RandomLaws 21 4 10 skewed_name (omega arith) (omega arith)

abbrev two_names : List (List ℕ)
two_names = (b's' ∷ b'c' ∷ b'a' ∷ b'n' ∷ b'q' ∷ b'u' ∷ b'e' ∷ b'r' ∷ b'y' ∷ []) ∷ (b'x' ∷ []) ∷ []

are_names : all_names two_names ≡ true
unfolding all_names is_name index_of
are_names = refl

run_benchmarks-comma_joined_example :
    run_benchmarks (comma_joined two_names) ≡ known_methods two_names
run_benchmarks-comma_joined_example = run_benchmarks-comma_joined two_names are_names

two_names_run : known_methods two_names ≡ Method.scan_query_test ∷ []
unfolding known_methods method_of list_beq
two_names_run = refl
