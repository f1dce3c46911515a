-- ===== src/Adaptor.antt =====
-- adaptor/leveldb_adaptor.cpp: the metadata table as the file system sees it. A limit that is not
-- positive, such as the default -1, is 0 here: the source asks only whether a limit is above 0.
pub mod Table
pub mod Syncing
use tablefs.Base.{
  ℕ, ◌+◌, ◌-◌, ◌≡◌, Bool, true, false, Option, none, some, List, [], ◌∷◌, ltb, if◌then◌else◌, ◌&&◌,
  ◌%◌, ◌^◌, length,
}
use tablefs.Key.{MetaKey}
use tablefs.Value.{InodeValue}
use tablefs.Platform.{Platform, Read, found, not_found, failed, Update}

pub record Adaptor (P : Platform) : Type 0 where
  pub db : Platform.Db P
  pub last_sync_time : ℕ
  pub sync_time_limit : ℕ
  pub async_data_size : ℕ
  pub sync_size_limit : ℕ

-- `sizeof(tfs_meta_key_t)`
abbrev pub key_size : ℕ
key_size = 16

module _ (P : Platform) where
  open P use {sizeof_stat, db_get, db_put, db_put_text, db_delete, db_write}

  -- `sizeof(tfs_inode_header)`: the `stat`, the padding and two 32-bit numbers
  abbrev pub header_size : ℕ
  header_size = sizeof_stat + 104 + 4 + 4

  -- `Slice(value).size()`
  abbrev pub value_size : InodeValue → ℕ
  value_size v = header_size + length v.bytes

  -- `Get`: the value for a result above 0, none for -1
  unfoldable pub get : MetaKey → Adaptor P → Option InodeValue
  get key a = elim (db_get key a.db) [ found v ↦ some v | not_found ↦ none | failed ↦ none ]

  -- What `Put` decides before it writes: whether to sync, and the counters. The count of bytes is
  -- an `int`, which stands here as its low 32 bits; from 2 ^ 31 on it is negative.
  unfoldable pub sync_policy : ℕ → ℕ → Adaptor P → Bool × Adaptor P
  sync_policy now size a =
      if ltb 0 a.sync_size_limit
      then (let counted = (a.async_data_size + size) % 2 ^ 32 in
          if ltb counted (2 ^ 31) && ltb a.sync_size_limit counted
          then (true, record a { async_data_size = 0 })
          else (false, record a { async_data_size = counted }))
      else if ltb 0 a.sync_time_limit
      then if ltb a.sync_time_limit (now - a.last_sync_time)
        then (true, record a { last_sync_time = now })
        else (false, a)
      else (false, a)

  -- `Put` at the time `now`; true for the result 0, false for -1
  unfoldable pub put : ℕ → MetaKey → InodeValue → Adaptor P → Bool × Adaptor P
  put now key value a =
      let (sync, b) = sync_policy now (key_size + value_size value) a in
      let (ok, db) = db_put sync key value b.db in (ok, record b { db = db })

  -- `Sync`: a synced write of the empty string under the key "sync"
  unfoldable pub sync : Adaptor P → Bool × Adaptor P
  sync a =
      let (ok, db) = db_put_text true (b's' ∷ b'y' ∷ b'n' ∷ b'c' ∷ []) [] a.db in
      (ok, record a { db = db })

  -- `Delete`: the status is dropped, and the result is 0.
  unfoldable pub delete : MetaKey → Adaptor P → Adaptor P
  delete key a = record a { db = (db_delete key a.db).1 }

  -- `Write`
  unfoldable pub write : List Update → Adaptor P → Bool × Adaptor P
  write batch a = let (ok, db) = db_write batch a.db in (ok, record a { db = db })
