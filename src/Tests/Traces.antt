-- ===== src/Tests/Traces.antt =====
-- A trace file of a directory and a file.
use tablefs.Base.{ℕ, true, List, [], ◌∷◌}
use tablefs.Util.Allocator.{Allocator, memory_page_size}
use tablefs.Util.TraceLoader.{TraceLoader}

abbrev two_paths : List (List ℕ × ℕ)
two_paths = (b'/' ∷ b'd' ∷ [], b'D') ∷ (b'/' ∷ b'd' ∷ b'/' ∷ b'f' ∷ [], b'F') ∷ []

abbrev unset : TraceLoader
unset = record { entries = []; num_paths = 0; num_dir_paths = 0; num_file_paths = 0 }

-- A page of locked memory, of which 100 bytes are left.
abbrev nearly_full : Allocator
nearly_full = record {
  blocks = memory_page_size ∷ [];
  remaining_bytes = 100;
  current_block = 0;
  flag_using_lock_memory = true;
}
