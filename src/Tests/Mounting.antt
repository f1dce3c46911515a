-- ===== src/Tests/Mounting.antt =====
-- Mounting at concrete inputs.
use tablefs.Base.{◌+◌, ◌≡◌, refl, true, none, some, [], arith}
use tablefs.Base.Int.{pos}
use tablefs.Base.Maps
use tablefs.Tfs.{FileSystemState, new_inode}
use tablefs.Tfs.Numbers.{HasDirs}
use tablefs.Tfs.Mounting
use tablefs.Tfs.Mounting.{RootFile, threshold_name, setup, destroy}
use tablefs.Tfs.Remounting.{setup-destroy}
use tablefs.Util.Properties.{get_property_int}
use tablefs.Tests.{new_state, new_state-HasDirs}
use tablefs.Tests.Memory.{memory, memory-DiskLaws}

no_threshold : get_property_int threshold_name (pos 4096) [] ≡ pos 4096
unfolding get_property_int Maps.lookup
no_threshold = refl

abbrev root : RootFile
root = record { content = none; writable = true }

setup-destroy_example :
    (t : FileSystemState memory) × (setup memory [] true
        (destroy memory new_state root)
        (Mounting.new_state memory new_state.disk)
      ≡ some (pos 0, destroy memory new_state root, t))
    × HasDirs memory-DiskLaws t
    × ((new_inode memory t).0 ≡ new_state.max_inode_num + 1)
setup-destroy_example =
    setup-destroy memory-DiskLaws [] no_threshold root new_state refl (omega arith)
      new_state-HasDirs
