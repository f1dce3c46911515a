-- ===== src/Tests/Utilities.antt =====
-- The parts of util/ at concrete inputs.
use tablefs.Base.{
  ℕ, ◌-◌, ◌<◌, ◌≡◌, refl, true, some, List, [], ◌∷◌, arith, get_elem?, list_eq, list_beq, zero, suc,
}
use tablefs.Base.Maps
use tablefs.Util.Properties.{Properties, load, store}
use tablefs.Util.Properties.Storing.{load-store, or_else, IsStorable}
use tablefs.Util.Allocator.{Allocator, Address, memory_page_size, allocate, cut}
use tablefs.Util.Allocator.Bounds.{IsPool, allocate-full, mark}
use tablefs.Util.Allocator.Runs.{run, run-InOrder, InOrder}

abbrev name_d : List ℕ
name_d = b'd' ∷ []

-- th=64, d=/
abbrev some_settings : Properties
some_settings = (b't' ∷ b'h' ∷ [], b'6' ∷ b'4' ∷ []) ∷ (name_d, b'/' ∷ []) ∷ []

some_settings-IsStorable : IsStorable some_settings
unfolding Maps.lookup list_beq
some_settings-IsStorable = ground arith

load-store_example :
    Maps.lookup name_d (load (store some_settings) [])
    ≡ or_else (Maps.lookup name_d some_settings) (Maps.lookup {K = List ℕ} {V = List ℕ} name_d [])
load-store_example = load-store some_settings [] name_d some_settings-IsStorable

-- Two pages, and one that is full but for a byte.
abbrev two_pages : Allocator
two_pages = record {
  blocks = memory_page_size ∷ memory_page_size ∷ [];
  remaining_bytes = memory_page_size;
  current_block = 0;
  flag_using_lock_memory = true;
}

abbrev one_page : Allocator
one_page = record {
  blocks = memory_page_size ∷ [];
  remaining_bytes = 1;
  current_block = 0;
  flag_using_lock_memory = true;
}

two_whole : (i : ℕ) → i < 2 → get_elem? two_pages.blocks i ≡ some memory_page_size
two_whole zero h = refl
two_whole (suc zero) h = refl
two_whole (suc (suc i)) h = absurd (omega arith)

one_whole : (i : ℕ) → i < 1 → get_elem? one_page.blocks i ≡ some memory_page_size
one_whole zero h = refl
one_whole (suc i) h = absurd (omega arith)

two_pages-IsPool : IsPool two_pages
two_pages-IsPool = record {
  locked = refl;
  current = omega arith;
  pages = λ i from to. two_whole i to;
  remaining = omega arith;
}

one_page-IsPool : IsPool one_page
one_page-IsPool = record {
  locked = refl;
  current = omega arith;
  pages = λ i from to. one_whole i to;
  remaining = omega arith;
}

allocate-full_example :
    (p : Address) × (b : Allocator) × (c : Allocator) × (allocate 8 one_page ≡ some (p, b))
    × (allocate 16 b ≡ some (p, c))
    × (get_elem? b.blocks p.block ≡ some 8)
allocate-full_example =
    allocate-full 8 16 one_page one_page-IsPool (omega arith) (omega arith) (omega arith)
      (omega arith) (omega arith)

-- The second request does not fit what is left of the first page.
abbrev two_pieces : List (ℕ × Address)
two_pieces =
    (134217000, record { block = 0; offset = 0 }) ∷ (1000, record { block = 1; offset = 0 }) ∷ []

run-InOrder_example : InOrder (mark two_pages) two_pieces
unfolding run allocate cut
run-InOrder_example =
    run-InOrder (134217000 ∷ 1000 ∷ []) two_pages
      (record two_pages { current_block = 1; remaining_bytes = memory_page_size - 1000 }) two_pieces
      two_pages-IsPool refl (omega arith)
