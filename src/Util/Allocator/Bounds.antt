-- ===== src/Util/Allocator/Bounds.antt =====
-- Where the pieces lie that the allocator hands out of its locked pages.
use tablefs.Base.{
  ℕ, ◌+◌, ◌-◌, ◌*◌, ◌≤◌, ◌<◌, ◌≡◌, refl, true, some, List, [], ◌∷◌, ◌++◌, arith, length,
  length-append, get_elem?, ltb, ltb→lt, ltb→ge, Bool-cases, inl, inr, ◌⊎◌,
}
use tablefs.Util.Allocator.{Allocator, Address, memory_page_size, allocate, cut, own_block}

-- A block from the current one on is a whole page.
abbrev pub ArePages : List ℕ → ℕ → Type 0
ArePages blocks from =
    (i : ℕ) → from ≤ i → i < length blocks → get_elem? blocks i ≡ some memory_page_size

pub record IsPool (a : Allocator) : Type 0 where
  pub locked : a.flag_using_lock_memory ≡ true
  pub current : a.current_block < length a.blocks
  pub pages : ArePages a.blocks a.current_block
  pub remaining : a.remaining_bytes ≤ memory_page_size

-- Addresses in the order of the pages, and how far the allocator has come in that order.
abbrev pub position : Address → ℕ
position p = p.block * memory_page_size + p.offset

abbrev pub mark : Allocator → ℕ
mark a = a.current_block * memory_page_size + (memory_page_size - a.remaining_bytes)

-- What one call promises of the piece at `p`, from the state `a` to the state `b`.
pub record IsPiece (bytes : ℕ) (a : Allocator) (p : Address) (b : Allocator) : Type 0 where
  pub pool : IsPool b
  pub same_blocks : b.blocks ≡ a.blocks
  pub page : get_elem? a.blocks p.block ≡ some memory_page_size
  pub within : p.offset + bytes ≤ memory_page_size
  pub behind : mark a ≤ position p
  pub ends : position p + bytes ≡ mark b

cut-IsPiece :
    (bytes : ℕ) (a : Allocator)
    → IsPool a
    → bytes ≤ a.remaining_bytes
    → IsPiece bytes a (cut bytes a).0 (cut bytes a).1
unfolding cut
cut-IsPiece bytes a v h = record {
  pool = record {
    locked = v.locked;
    current = v.current;
    pages = v.pages;
    remaining = omega (arith, v.remaining);
  };
  same_blocks = refl;
  page = v.pages a.current_block (omega arith) v.current;
  within = omega (arith, v.remaining);
  behind = omega arith;
  ends = omega (arith, v.remaining);
}

next_page : Allocator → Allocator
next_page a = record a { current_block = a.current_block + 1; remaining_bytes = memory_page_size }

next_page-IsPool :
    (a : Allocator) → IsPool a → a.current_block + 1 < length a.blocks → IsPool (next_page a)
unfolding next_page
next_page-IsPool a v h = record {
  locked = v.locked;
  current = h;
  pages = λ i from to. v.pages i (omega arith) to;
  remaining = omega arith;
}

mark-next_page : (a : Allocator) → mark a ≤ mark (next_page a)
unfolding next_page
mark-next_page a = omega arith

-- A request that the pages have room for is met: the piece lies inside a page, behind all pieces
-- handed out before, and the pages stay as they were.
pub allocate-IsPiece :
    (bytes : ℕ) (a : Allocator)
    → IsPool a
    → bytes ≤ memory_page_size
    → (bytes ≤ a.remaining_bytes) ⊎ (a.current_block + 1 < length a.blocks)
    → (p : Address) × (b : Allocator) × (allocate bytes a ≡ some (p, b)) × IsPiece bytes a p b
unfolding allocate next_page
allocate-IsPiece bytes a v h room = elim (Bool-cases (ltb a.remaining_bytes bytes)) [
  | inr fits ↦ (
    (cut bytes a).0,
    (cut bytes a).1,
    ground (arith, v.locked),
    cut-IsPiece bytes a v (ltb→ge a.remaining_bytes bytes fits),
  )
  | inl more ↦
      let next : a.current_block + 1 < length a.blocks = elim room [
        | inl fits ↦ absurd (omega (arith, ltb→lt a.remaining_bytes bytes more))
        | inr n ↦ n
      ] in
      let piece = cut-IsPiece bytes (next_page a) (next_page-IsPool a v next) h in
      (
        (cut bytes (next_page a)).0,
        (cut bytes (next_page a)).1,
        ground (arith, v.locked),
        record {
          pool = piece.pool;
          same_blocks = piece.same_blocks;
          page = piece.page;
          within = piece.within;
          behind = omega (arith, piece.behind);
          ends = piece.ends;
        },
      )
]

-- Where the pages are full, a request gets a block of its own, and the next request gets the
-- same address: the new block is taken for a page.
pub allocate-full :
    (first second : ℕ) (a : Allocator)
    → IsPool a
    → a.remaining_bytes < first
    → first ≤ memory_page_size
    → a.current_block + 1 ≡ length a.blocks
    → 0 < second
    → second ≤ memory_page_size
    → (p : Address) × (b : Allocator) × (c : Allocator) × (allocate first a ≡ some (p, b))
      × (allocate second b ≡ some (p, c))
      × (get_elem? b.blocks p.block ≡ some first)
unfolding allocate own_block cut
allocate-full first second a v full h last pos h' =
    let grown = length-append a.blocks (first ∷ []) in
    (
      record { block = length a.blocks; offset = 0 },
      record a { blocks = a.blocks ++ first ∷ []; remaining_bytes = 0 },
      record a {
        blocks = a.blocks ++ first ∷ [];
        current_block = a.current_block + 1;
        remaining_bytes = memory_page_size - second;
      },
      ground (arith, v.locked),
      ground (arith, v.locked, grown),
      get_elem?-end a.blocks first,
    )
  where
    get_elem?-end : (xs : List ℕ) (x : ℕ) → get_elem? (xs ++ x ∷ []) (length xs) ≡ some x
    get_elem?-end [] x = refl
    get_elem?-end (y ∷ xs) x = get_elem?-end xs x
