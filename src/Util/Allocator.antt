-- ===== src/Util/Allocator.antt =====
-- util/allocator.cpp: Allocator, which hands out pieces of blocks of memory. A block is its size, and
-- an address is the number of a block with an offset into it. `granted` says whether the memory
-- for a block is given; `none` is the end of the process by `exit(1)`.
pub mod Bounds
pub mod Runs
use tablefs.Base.{
  ℕ, zero, suc, ◌+◌, ◌-◌, ◌*◌, ◌/◌, Bool, true, false, Option, none, some, List, [], ◌∷◌, ◌++◌,
  if◌then◌else◌, ltb, length, ◌>>=◌,
}

-- 128 * 1024 * 1024
abbrev pub memory_page_size : ℕ
memory_page_size = 134217728

pub record Allocator : Type 0 where
  pub blocks : List ℕ
  pub remaining_bytes : ℕ
  pub current_block : ℕ
  pub flag_using_lock_memory : Bool

pub record Address : Type 0 where
  pub block : ℕ
  pub offset : ℕ

-- The loop of the constructor, for the pages from `i` on.
unfoldable pub lock_pages : (ℕ → Bool) → ℕ → ℕ → Option (List ℕ)
lock_pages granted i zero = some []
lock_pages granted i (suc n) =
    let rest : Option (List ℕ) = (do
      pages ← lock_pages granted (suc i) n
      some (memory_page_size ∷ pages)) in
    if granted i then rest else none

-- The constructor
unfoldable pub new_allocator : (ℕ → Bool) → ℕ → Option Allocator
new_allocator granted lock_size =
    if ltb 0 lock_size
    then (do
      pages ← lock_pages granted 0 ((lock_size * 1048576 - 1) / memory_page_size + 1)
      some (record {
        blocks = pages;
        remaining_bytes = memory_page_size;
        current_block = 0;
        flag_using_lock_memory = true;
      }))
    else some (record {
      blocks = [];
      remaining_bytes = 0;
      current_block = 0;
      flag_using_lock_memory = false;
    })

-- `new char[bytes]`, as a block of its own
unfoldable pub own_block : ℕ → Allocator → Address × Allocator
own_block bytes a =
    (record { block = length a.blocks; offset = 0 }, record a { blocks = a.blocks ++ bytes ∷ [] })

-- A piece of the current block.
unfoldable pub cut : ℕ → Allocator → Address × Allocator
cut bytes a = (
  record { block = a.current_block; offset = memory_page_size - a.remaining_bytes },
  record a { remaining_bytes = a.remaining_bytes - bytes },
)

-- `Allocate`
unfoldable pub allocate : ℕ → Allocator → Option (Address × Allocator)
allocate bytes a =
    if ltb memory_page_size bytes
    then none
    else if a.flag_using_lock_memory
    then (if ltb a.remaining_bytes bytes
        then (if ltb (a.current_block + 1) (length a.blocks)
            then some (
                cut bytes (record a {
                  current_block = a.current_block + 1;
                  remaining_bytes = memory_page_size;
                }))
            else some (own_block bytes (record a { remaining_bytes = 0 })))
        else some (cut bytes a))
    else some (own_block bytes a)
