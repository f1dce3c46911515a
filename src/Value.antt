-- ===== src/Value.antt =====
-- fs/tfs_inode.h and the helpers at the top of fs/tablefs.cpp (GetInodeHeader to DropInlineData):
-- the value of an inode. The source keeps it in a `std::string` whose first TFS_INODE_HEADER_SIZE
-- bytes are a `tfs_inode_header`, read and written by casts. Here `header` is that struct and
-- `bytes` all that stands behind it: the name, a zero byte, and the inline data. An offset into
-- the string is TFS_INODE_HEADER_SIZE plus an offset into `bytes`; no caller cuts into the header
-- but by UpdateInodeHeader and UpdateAttribute, which replace the struct or its first field.
pub mod Data
pub mod Bytes
use tablefs.Base.{
  ℕ, ◌+◌, ◌-◌, ◌%◌, List, [], ◌∷◌, ◌++◌, ltb, if◌then◌else◌, length, take, drop, replicate,
}
use tablefs.Key.{Inode, u32, u64}

-- `struct stat`, as far as the program sets it.
pub record Stat : Type 0 where
  pub st_ino : Inode
  pub st_mode : ℕ
  pub st_dev : ℕ
  pub st_nlink : ℕ
  pub st_uid : ℕ
  pub st_gid : ℕ
  pub st_size : ℕ
  pub st_blksize : ℕ
  pub st_blocks : ℕ
  pub st_atim : ℕ
  pub st_mtim : ℕ
  pub st_ctim : ℕ

pub record InodeHeader : Type 0 where
  pub fstat : Stat
  pub has_blob : ℕ
  pub namelen : ℕ

pub record InodeValue : Type 0 where
  pub header : InodeHeader
  pub bytes : List ℕ

-- `s.resize(n)`, with zero bytes for what is new
unfoldable pub resize : ℕ → List ℕ → List ℕ
resize n s = if ltb (length s) n then s ++ replicate (n - length s) 0 else take n s

-- `s.replace(offset, size, buf, size)`, for an offset inside the string: the bytes from `offset`
-- to `offset + size`, as far as there are any, give way to the buffer.
unfoldable pub replace : ℕ → List ℕ → List ℕ → List ℕ
replace offset buf s = take offset s ++ (buf ++ drop (offset + length buf) s)

-- `UpdateIhandleValue`, at an offset behind the header
unfoldable pub update_ihandle_value : ℕ → List ℕ → List ℕ → List ℕ
update_ihandle_value offset buf s =
    replace offset buf (if ltb (length s) offset then resize offset s else s)

-- Where the inline data begins, behind the header.
abbrev pub data_start : InodeValue → ℕ
data_start v = v.header.namelen + 1

-- `GetInlineData`: what it copies into the caller's buffer.
unfoldable pub get_inline_data : InodeValue → ℕ → ℕ → List ℕ
get_inline_data v offset size =
    let realoffset = data_start v + offset in
    if ltb realoffset (length v.bytes)
    then take
        (if ltb (length v.bytes) (realoffset + size) then length v.bytes - realoffset else size)
        (drop realoffset v.bytes)
    else []

unfoldable pub update_inode_header : InodeHeader → InodeValue → InodeValue
update_inode_header h v = record v { header = h }

unfoldable pub update_attribute : Stat → InodeValue → InodeValue
update_attribute st v = record v { header = record (v.header) { fstat = st } }

unfoldable pub update_inline_data : ℕ → List ℕ → InodeValue → InodeValue
update_inline_data offset buf v = record v {
  bytes = update_ihandle_value (data_start v + offset) buf v.bytes;
}

unfoldable pub truncate_inline_data : ℕ → InodeValue → InodeValue
truncate_inline_data new_size v = record v {
  bytes = resize (v.header.namelen + new_size + 1) v.bytes;
}

unfoldable pub drop_inline_data : InodeValue → InodeValue
drop_inline_data v = record v { bytes = resize (data_start v) v.bytes }

-- `strlen` of the name buffer: the bytes before the first zero. A name never holds a zero byte.
unfoldable pub c_string : List ℕ → List ℕ
c_string [] = []
c_string (b ∷ bs) = if ltb 0 b then b ∷ c_string bs else []
