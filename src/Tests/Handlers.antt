-- ===== src/Tests/Handlers.antt =====
-- The handlers at concrete inputs.
use tablefs.Base.{◌≡◌, refl, none, some, [], ◌∷◌, arith, length, nat_eq}
use tablefs.Base.Int.{ℤ, pos}
use tablefs.Value.{Stat, update_ihandle_value}
use tablefs.Value.Data.{slice}
use tablefs.Icache.{InodeCacheHandle, Mode, handle_at}
use tablefs.Tfs.{TableFs, path_delimiter}
use tablefs.Tfs.Attributes.{update_stat}
use tablefs.Tfs.Entries.{unlink, remove_dir}
use tablefs.Tfs.Renaming.{rename}
use tablefs.Tfs.Content.{FileHandle, write_file, read_file}
use tablefs.Tfs.Safety.{update_stat-IsBalanced, IsBalanced}
use tablefs.Tfs.Safety.Removing.{unlink-IsBalanced, remove_dir-IsBalanced}
use tablefs.Tfs.Safety.Moving.{rename-IsBalanced}
use tablefs.Tfs.Inline.{IsInline, read_file-write_file}
use tablefs.Tests.{
  mounted, mounted-IsCoherent, some_path, some_value, some_content, some_value-IsLaidOut,
}
use tablefs.Tests.Memory.{memory, memory-CacheLaws}
use tablefs.Tests.Caching.{mounted-IsSound, holding, some_handle, holding-here}

-- a chmod
abbrev private_mode : Stat → Stat
private_mode st = record st { st_mode = 0o100600 }

update_stat-IsBalanced_example :
    (ret : ℤ) × (t : TableFs memory) × (update_stat memory private_mode
        (path_delimiter ∷ some_path)
        mounted
      ≡ some (ret, t))
    × IsBalanced memory-CacheLaws mounted.inode_cache t.inode_cache
update_stat-IsBalanced_example =
    update_stat-IsBalanced memory-CacheLaws private_mode some_path mounted (omega arith)
      mounted-IsCoherent mounted-IsSound

unlink-IsBalanced_example :
    (ret : ℤ) × (t : TableFs memory) × (unlink memory (path_delimiter ∷ some_path) mounted
      ≡ some (ret, t))
    × IsBalanced memory-CacheLaws mounted.inode_cache t.inode_cache
unlink-IsBalanced_example =
    unlink-IsBalanced memory-CacheLaws some_path mounted (omega arith) mounted-IsCoherent
      mounted-IsSound

remove_dir-IsBalanced_example :
    (ret : ℤ) × (t : TableFs memory) × (remove_dir memory (path_delimiter ∷ b'a' ∷ []) mounted
      ≡ some (ret, t))
    × IsBalanced memory-CacheLaws mounted.inode_cache t.inode_cache
remove_dir-IsBalanced_example =
    remove_dir-IsBalanced memory-CacheLaws (b'a' ∷ []) mounted (omega arith) mounted-IsCoherent
      mounted-IsSound

-- The directory onto itself.
rename-IsBalanced_example :
    (ret : ℤ) × (t : TableFs memory) × (rename memory
        (path_delimiter ∷ b'a' ∷ [])
        (path_delimiter ∷ b'a' ∷ [])
        mounted
      ≡ some (ret, t))
    × IsBalanced memory-CacheLaws mounted.inode_cache t.inode_cache
rename-IsBalanced_example =
    rename-IsBalanced memory-CacheLaws (b'a' ∷ []) (b'a' ∷ []) mounted (omega arith) (omega arith)
      mounted-IsCoherent mounted-IsSound

abbrev pub opened : TableFs memory
opened = record mounted { inode_cache = holding }

abbrev pub some_file : FileHandle
some_file = record { handle_ = 7; flags_ = 2; fd_ = none }

pub some_value-IsInline : IsInline 4096 some_value (104 ∷ 105 ∷ []) some_content
some_value-IsInline = record {
  laid = some_value-IsLaidOut;
  no_blob = refl;
  sized = refl;
  small = omega arith;
}

-- Two bytes behind a gap of two.
read_file-write_file_example :
    (t : TableFs memory) × (h : InodeCacheHandle memory) × (write_file memory
        (8 ∷ 9 ∷ [])
        5
        2
        some_file
        opened
      ≡ some (pos 2, some_file, t))
    × (handle_at memory 7 t.inode_cache ≡ some h)
    × (h.mode_ ≡ Mode.inode_write)
    × IsInline t.state_.threshold_ h.value_
        (104 ∷ 105 ∷ [])
        (update_ihandle_value 5 (8 ∷ 9 ∷ []) some_content)
    × (read_file memory 10 2 some_file t
        ≡ some (
          pos (length (slice 2 10 (update_ihandle_value 5 (8 ∷ 9 ∷ []) some_content))),
          slice 2 10 (update_ihandle_value 5 (8 ∷ 9 ∷ []) some_content),
          some_file,
          t,
        ))
read_file-write_file_example =
    read_file-write_file 5 2 10 2 (8 ∷ 9 ∷ []) some_file opened some_handle holding-here
      some_value-IsInline (omega arith)
