-- ===== src/Key.antt =====
-- fs/tfs_inode.h: the numbers of inodes and the keys of the metadata table.
use tablefs.Base.{ℕ, ◌^◌, ◌≡◌, ◌↔◌, Bool, ◌&&◌, arith, Eq, nat_beq}

-- `tfs_inode_t` and `tfs_hash_t` are `uint64_t`.
abbrev pub Inode : Type 0
Inode = ℕ

abbrev pub u64 : ℕ
u64 = 2 ^ 64

abbrev pub u32 : ℕ
u32 = 2 ^ 32

abbrev pub root_inode_id : Inode
root_inode_id = 0

pub record MetaKey : Type 0 where
  pub inode_id : Inode
  pub hash_id : ℕ

-- `DentryCacheComp`, and the order in which `memcmp` and `operator==` tell keys apart.
unfoldable pub key_beq : MetaKey → MetaKey → Bool
key_beq lhs rhs = nat_beq lhs.hash_id rhs.hash_id && nat_beq lhs.inode_id rhs.inode_id

key_ext : (a b : MetaKey) → a.inode_id ≡ b.inode_id → a.hash_id ≡ b.hash_id → a ≡ b
key_ext a b p q = λ i. record { inode_id = p i; hash_id = q i }

pub key_beq_iff : (a b : MetaKey) → (key_beq a b ≡ Bool.true) ↔ (a ≡ b)
unfolding key_beq
key_beq_iff a b = (λ h. key_ext a b (ground arith) (ground arith), λ h. ground arith)

instance abbrev pub key_eq : Eq MetaKey
key_eq = record { beq = key_beq; beq_iff = key_beq_iff }
