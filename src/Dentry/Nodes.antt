-- ===== src/Dentry/Nodes.antt =====
-- The list of nodes: reading, erasing and popping by address.
use tablefs.Base.{ℕ, suc, ◌≡◌, refl, ◌≢◌, some, List, [], ◌∷◌, arith, length}
use tablefs.Key.{MetaKey, Inode}
use tablefs.Dentry.{Entry, Node, deref, erase_at, back_key, pop_back}

pub deref-erase_at : (it a : ℕ) (l : List Node) → it ≢ a → deref a (erase_at it l) ≡ deref a l
unfolding deref erase_at
deref-erase_at it a [] ne = refl
deref-erase_at it a ((b, e) ∷ l) ne = ground (arith, deref-erase_at it a l ne)

pub length-erase_at :
    (it : ℕ) (l : List Node) (e : Entry)
    → deref it l ≡ some e
    → suc (length (erase_at it l)) ≡ length l
unfolding deref erase_at
length-erase_at it [] e h = ground arith
length-erase_at it ((b, d) ∷ l) e h = ground (arith, length-erase_at it l e)

pub length-pop_back : (n : Node) (l : List Node) → length (pop_back n l) ≡ length l
unfolding pop_back
length-pop_back n [] = refl
length-pop_back n (m ∷ l) = omega (arith, length-pop_back m l)

-- A node that is read after the pop holds what it held before.
pub deref-pop_back :
    (a : ℕ) (n : Node) (l : List Node) (k : MetaKey) (v : Inode)
    → deref a (n ∷ l) ≡ some (k, v)
    → back_key n l ≢ k
    → deref a (pop_back n l) ≡ some (k, v)
unfolding deref pop_back back_key
deref-pop_back a (b, e) [] k v h ne = ground arith
deref-pop_back a (b, e) (m ∷ l) k v h ne = ground (arith, deref-pop_back a m l k v)
