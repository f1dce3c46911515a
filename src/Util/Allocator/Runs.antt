-- ===== src/Util/Allocator/Runs.antt =====
-- Many requests to one allocator.
use tablefs.Base.{
  ℕ, ◌+◌, ◌≤◌, ◌<◌, ◌≡◌, sym, ◌∙◌, Option, some, List, [], ◌∷◌, arith, length, length-append, ltb,
  ltb→lt, ltb→ge, Bool-cases, inl, inr, ◌⊎◌, ◌>>=◌, >>=-eq-some,
}
use mathlib.Core.Path.{subst}
use tablefs.Util.Allocator.{Allocator, Address, memory_page_size, allocate, own_block, cut}
use tablefs.Util.Allocator.Bounds.{IsPool, IsPiece, allocate-IsPiece, position, mark}

-- The pieces that a row of requests gets, with their sizes, and the allocator after it.
unfoldable pub run : List ℕ → Allocator → Option (List (ℕ × Address) × Allocator)
run [] a = some ([], a)
run (n ∷ ns) a = do (p, b) ← allocate n a; (ps, c) ← run ns b; some ((n, p) ∷ ps, c)

-- Each piece lies inside its page, and behind the end of the piece before it.
abbrev pub InOrder : ℕ → List (ℕ × Address) → Type 0
InOrder from [] = Unit
InOrder from ((n, p) ∷ ps) =
    (from ≤ position p) × (p.offset + n ≤ memory_page_size) × InOrder (position p + n) ps

-- The blocks never get fewer, and a request for which the pages have no room makes one more.
allocate_keeps :
    (n : ℕ) (a b : Allocator) (p : Address)
    → allocate n a ≡ some (p, b)
    → length a.blocks ≤ length b.blocks
unfolding allocate own_block cut
allocate_keeps n a b p e = ground (arith, length-append a.blocks (n ∷ []))

allocate_grows :
    (n : ℕ) (a b : Allocator) (p : Address)
    → allocate n a ≡ some (p, b)
    → a.remaining_bytes < n
    → length a.blocks ≤ a.current_block + 1
    → length a.blocks < length b.blocks
unfolding allocate own_block cut
allocate_grows n a b p e full last = ground (arith, length-append a.blocks (n ∷ []))

allocate_small :
    (n : ℕ) (a b : Allocator) (p : Address) → allocate n a ≡ some (p, b) → n ≤ memory_page_size
unfolding allocate own_block cut
allocate_small n a b p e = ground arith

run-cons :
    (n : ℕ) (ns : List ℕ) (a c : Allocator) (ps : List (ℕ × Address))
    → run (n ∷ ns) a ≡ some (ps, c)
    → (p : Address) × (b : Allocator) × (qs : List (ℕ × Address)) × (allocate n a ≡ some (p, b))
      × (run ns b ≡ some (qs, c))
      × (ps ≡ (n, p) ∷ qs)
unfolding run
run-cons n ns a c ps e =
    let ((p, b), first, e') = >>=-eq-some (allocate n a) _ e in
    let ((qs, d), later, e'') = >>=-eq-some (run ns b) _ e' in (p, b, qs, first, later ∙ cc, cc)

run_keeps :
    (ns : List ℕ) (a c : Allocator) (ps : List (ℕ × Address))
    → run ns a ≡ some (ps, c)
    → length a.blocks ≤ length c.blocks
unfolding run
run_keeps [] a c ps e = ground arith
run_keeps (n ∷ ns) a c ps e =
    let (p, b, qs, first, later, _) = run-cons n ns a c ps e in
    omega (arith, allocate_keeps n a b p first, run_keeps ns b c qs later)

room :
    (n : ℕ) (a b : Allocator) (p : Address)
    → allocate n a ≡ some (p, b)
    → length b.blocks ≤ length a.blocks
    → (n ≤ a.remaining_bytes) ⊎ (a.current_block + 1 < length a.blocks)
room n a b p e same = elim (Bool-cases (ltb a.remaining_bytes n)) [
  | inr fits ↦ inl (ltb→ge a.remaining_bytes n fits)
  | inl more ↦ elim (Bool-cases (ltb (a.current_block + 1) (length a.blocks))) [
    | inl next ↦ inr (ltb→lt (a.current_block + 1) (length a.blocks) next)
    | inr last ↦ absurd (
        omega (
          arith,
          allocate_grows n a b p e (ltb→lt a.remaining_bytes n more)
              (ltb→ge (a.current_block + 1) (length a.blocks) last),
        ))
  ]
]

IsPiece-of :
    (n : ℕ) (a b : Allocator) (p : Address)
    → IsPool a
    → allocate n a ≡ some (p, b)
    → length b.blocks ≤ length a.blocks
    → IsPiece n a p b
IsPiece-of n a b p v e same =
    let (q, d, found, piece) =
      allocate-IsPiece n a v (allocate_small n a b p e) (room n a b p e same) in
    let equal : ◌≡◌ {A = Address × Allocator} (q, d) (p, b) = cc in
    subst (λ (o : Address × Allocator). IsPiece n a o.0 o.1) equal piece

-- As long as no block is made besides the locked pages, the pieces of a row of requests lie inside
-- the pages, one behind the other, so that no two of them overlap.
pub run-InOrder :
    (ns : List ℕ) (a c : Allocator) (ps : List (ℕ × Address))
    → IsPool a
    → run ns a ≡ some (ps, c)
    → length c.blocks ≤ length a.blocks
    → InOrder (mark a) ps
unfolding run
run-InOrder [] a c ps v e same = let empty : [] ≡ ps = cc in subst (InOrder (mark a)) empty tt
run-InOrder (n ∷ ns) a c ps v e same =
    let (p, b, qs, first, later, whole) = run-cons n ns a c ps e in
    let piece = IsPiece-of n a b p v first (omega (arith, run_keeps ns b c qs later)) in
    let rest : InOrder (mark b) qs =
      run-InOrder ns b c qs piece.pool later (omega (arith, same, allocate_keeps n a b p first)) in
    subst (InOrder (mark a)) (sym whole)
      (piece.behind, piece.within, subst (λ (m : ℕ). InOrder m qs) (sym piece.ends) rest)
