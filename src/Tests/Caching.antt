-- ===== src/Tests/Caching.antt =====
-- The inode cache at concrete inputs.
use tablefs.Base.{◌<◌, ◌≡◌, refl, Option, some, [], ◌∷◌, arith, nat_eq}
use tablefs.Base.Maps
use tablefs.Key.{key_eq}
use tablefs.Platform.{Ptr}
use tablefs.Icache.{InodeCache, InodeCacheHandle, Mode, get, write_back, handle_at}
use tablefs.Icache.Sound.{IsSound}
use tablefs.Icache.Getting.{get-Got, Got}
use tablefs.Adaptor
use tablefs.Icache.Tidy.{IsTidy}
use tablefs.Icache.Flushing.{write_back-IsFlushed, IsFlushed}
use tablefs.Tests.{mounted, some_value, key_a, empty_adaptor}
use tablefs.Tests.Memory.{memory, memory-CacheLaws, memory-DbLaws, references}

pub mounted-IsSound : IsSound memory-CacheLaws mounted.inode_cache
unfolding references Maps.lookup handle_at
mounted-IsSound = record {
  heap = λ q. refl;
  fresh = λ q h. absurd (ground arith);
  owned = λ q h e. absurd (cc e);
  keyed = λ k q h b e. absurd (cc b);
}

get-Got_example :
    (out : Option Ptr) × (d : InodeCache memory) × (get memory key_a Mode.inode_write
        mounted.inode_cache
      ≡ some (out, d))
    × Got memory-CacheLaws key_a Mode.inode_write mounted.inode_cache out d
get-Got_example =
    get-Got memory-CacheLaws key_a Mode.inode_write mounted.inode_cache mounted-IsSound

-- A handle for writing, held once.
abbrev pub some_handle : InodeCacheHandle memory
some_handle = record { key_ = key_a; value_ = some_value; mode_ = Mode.inode_write; pointer = 7 }

abbrev pub holding : InodeCache memory
holding = record {
  metadb_ = empty_adaptor;
  cache = (7, 1) ∷ [];
  handles = (7, some_handle) ∷ [];
  next_handle = 8;
  clock = 100;
}

pub holding-here : handle_at memory 7 holding ≡ some some_handle
unfolding handle_at Maps.lookup
holding-here = refl

pub holding_held : 0 < references 7 holding.cache
unfolding references Maps.lookup
holding_held = omega arith

pub holding-IsSound : IsSound memory-CacheLaws holding
unfolding references Maps.lookup handle_at
holding-IsSound = record {
  heap = λ q. ground arith;
  fresh = λ q h. ground arith;
  owned = λ q h e. ground arith;
  keyed = λ k q h b e. absurd (cc b);
}

holding-IsTidy : IsTidy memory-CacheLaws holding
unfolding handle_at references Maps.lookup
holding-IsTidy q h e un = absurd (ground arith)

write_back-IsFlushed_example :
    (d : InodeCache memory) × (write_back memory 7 holding ≡ some d)
    × IsFlushed memory-CacheLaws memory-DbLaws 7 some_handle holding d
unfolding Adaptor.put
write_back-IsFlushed_example =
    write_back-IsFlushed memory-CacheLaws memory-DbLaws 7 some_handle holding holding-IsSound
      holding-IsTidy holding_held holding-here refl
