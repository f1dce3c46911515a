-- ===== src/Tfs/Naming.antt =====
-- `InitInodeValue`, in both forms: a fresh value, and a value under another name.
use tablefs.Base.{
  ℕ, ◌+◌, ◌<◌, ◌≡◌, refl, sym, ap, ◌∙◌, List, [], ◌∷◌, ◌++◌, arith, length, drop, length-append,
  drop-append,
}
use mathlib.Core.List.{append-nil}
use tablefs.Key.{Inode, u32}
use tablefs.Value.{InodeValue, c_string}
use tablefs.Value.Data.{IsLaidOut}
use tablefs.Platform.{Platform}
use tablefs.Tfs.{TableFs, init_stat, init_inode_value, renamed_inode_value}

-- A value made for a name shorter than 2 ^ 32 bytes is laid out with that name and no data, has
-- the attributes that InitStat gives and no blob.
pub init_inode_value-IsLaidOut :
    {P : Platform} (inum : Inode) (mode dev : ℕ) (filename : List ℕ) (s : TableFs P)
    → length filename < u32
    → IsLaidOut (init_inode_value P inum mode dev filename s) filename []
      × ((init_inode_value P inum mode dev filename s).header.fstat ≡ init_stat P inum mode dev s)
      × ((init_inode_value P inum mode dev filename s).header.has_blob ≡ 0)
unfolding init_inode_value
init_inode_value-IsLaidOut inum mode dev filename s short =
    (record { bytes = sym (append-nil (filename ++ 0 ∷ [])); named = omega arith }, refl, refl)

-- A laid-out value under a new name shorter than 2 ^ 32 bytes is laid out with that name and the
-- same data, and keeps its attributes and its blob flag.
pub renamed_inode_value-IsLaidOut :
    (v : InodeValue) (filename : List ℕ) {name content : List ℕ}
    → IsLaidOut v name content
    → length filename < u32
    → IsLaidOut (renamed_inode_value v filename) filename content
      × ((renamed_inode_value v filename).header.fstat ≡ v.header.fstat)
      × ((renamed_inode_value v filename).header.has_blob ≡ v.header.has_blob)
unfolding renamed_inode_value
renamed_inode_value-IsLaidOut v filename {name} {content} laid short = (
  record {
    bytes =
        ap (λ (t : List ℕ). (filename ++ 0 ∷ []) ++ t)
          (ap (drop (v.header.namelen + 1)) laid.bytes
            ∙ drop-append (v.header.namelen + 1) (name ++ 0 ∷ []) content
                (omega (arith, laid.named, length-append name (0 ∷ []))));
    named = omega arith;
  },
  refl,
  refl,
)

-- No byte is zero.
abbrev pub IsName : List ℕ → Type 0
IsName [] = Unit
IsName (b ∷ bs) = (0 < b) × IsName bs

-- What `ReadDir` hands to the filler, the C string behind the header, is the name.
pub c_string-name :
    (v : InodeValue) (name : List ℕ) {content : List ℕ}
    → IsLaidOut v name content
    → IsName name
    → c_string v.bytes ≡ name
unfolding c_string
c_string-name v name {content} laid ok = ap c_string laid.bytes ∙ go name ok
  where
    go : (n : List ℕ) → IsName n → c_string ((n ++ 0 ∷ []) ++ content) ≡ n
    go [] h = refl
    go (b ∷ bs) h = ground (arith, go bs h.1)
