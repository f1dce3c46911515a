-- ===== src/Tests/Memory.antt =====
-- A platform in memory, which meets what the theorems assume: the table is an association list
-- that reports no error, the cache has no room for what is not held, and the disk holds its files
-- and descriptors.
pub mod Files
use tablefs.Base.{
  ℕ, ◌≡◌, refl, Bool, true, false, Option, none, some, List, [], ◌∷◌, ◌||◌, arith, nat_beq, ltb,
  if◌then◌else◌, ◌<◌, ◌-◌, Bool-cases, inl, inr, ◌+◌, ◌*◌, length, take, drop, nat_eq,
}
use tablefs.Base.Maps
use tablefs.Base.Maps.{lookup-insert, lookup-erase}
use tablefs.Key.{MetaKey, key_eq}
use tablefs.Value.{InodeValue, resize, update_ihandle_value}
use tablefs.Platform.Caching.{CacheLaws, Drops}
use tablefs.Platform.{
  Platform, Read, found, not_found, Update, puts, deletes, apply_updates, Ptr, DbLaws, DiskLaws,
  Call, gives, fails,
}

abbrev pub Table : Type 0
Table = List (MetaKey × InodeValue)

abbrev pub read_of : Option InodeValue → Read
read_of none = not_found
read_of (some v) = found v

unfoldable pub apply_all : List Update → Table → Table
unfolding Maps.insert Maps.erase
apply_all [] t = t
apply_all (puts k v ∷ us) t = apply_all us (Maps.insert k v t)
apply_all (deletes k ∷ us) t = apply_all us (Maps.erase k t)

unfoldable pub contains : ℕ → List ℕ → Bool
contains d [] = false
contains d (e ∷ es) = nat_beq e d || contains d es

-- The files by number, and the descriptors with the files that they are open on.
pub record MemoryDisk : Type 0 where
  pub dirs : List ℕ
  pub files : List (ℕ × List ℕ)
  pub open_files : List (ℕ × ℕ)
  pub next_fd : ℕ

abbrev pub file_number : ℕ → ℕ → ℕ
file_number d f = d * 16384 + f

unfoldable pub content_of : ℕ → MemoryDisk → List ℕ
content_of file k = elim (Maps.lookup file k.files) [ none ↦ [] | some bytes ↦ bytes ]

unfoldable pub edit : (List ℕ → List ℕ) → ℕ → MemoryDisk → MemoryDisk
edit f file k = record k { files = Maps.insert file (f (content_of file k)) k.files }

unfoldable pub open_file : ℕ → MemoryDisk → Call ℕ × MemoryDisk
open_file file k = (
  gives k.next_fd,
  record k { open_files = Maps.insert k.next_fd file k.open_files; next_fd = k.next_fd + 1 },
)

-- A cache without room: an entry lives as long as it is held. These are the references to it.
unfoldable pub references : Ptr → List (Ptr × ℕ) → ℕ
unfolding Maps.lookup
references p c = elim (Maps.lookup p c) [ none ↦ 0 | some n ↦ n ]

abbrev pub memory : Platform
memory = record {
  sizeof_stat = 144;
  Db = Table;
  db_get = λ k t. read_of (Maps.lookup k t);
  db_put = λ sync k v t. (true, Maps.insert k v t);
  db_put_text = λ sync k v t. (true, t);
  db_delete = λ k t. (true, Maps.erase k t);
  db_write = λ us t. (true, apply_all us t);
  Cache = List (Ptr × ℕ);
  Handle = Ptr;
  cache_insert = λ k p c. (p, [], Maps.insert p 1 c);
  cache_lookup = λ k c. (none, c);
  cache_value = λ h c. h;
  cache_release = λ h c.
      if ltb 1 (references h c)
      then ([], Maps.insert h (references h c - 1) c)
      else (h ∷ [], Maps.erase h c);
  cache_erase = λ k c. ([], c);
  db_from = λ k t. t;
  Disk = MemoryDisk;
  disk_mkdir = λ d k. (gives tt, record k { dirs = d ∷ k.dirs });
  disk_unlink = λ d f k. record k { files = Maps.erase (file_number d f) k.files };
  disk_truncate = λ d f n k. edit (resize n) (file_number d f) k;
  disk_create = λ d f flags mode k. open_file (file_number d f) k;
  disk_open = λ d f k. open_file (file_number d f) k;
  disk_pread = λ fd n at k. elim (Maps.lookup fd k.open_files) [
    | none ↦ fails 9
    | some file ↦ gives (take n (drop at (content_of file k)))
  ];
  disk_pwrite = λ fd buf at k. elim (Maps.lookup fd k.open_files) [
    | none ↦ (fails 9, k)
    | some file ↦ (gives (length buf), edit (update_ihandle_value at buf) file k)
  ];
  disk_ftruncate = λ fd n k. elim (Maps.lookup fd k.open_files) [
    | none ↦ (fails 9, k)
    | some file ↦ (gives tt, edit (resize n) file k)
  ];
  disk_fsync = λ fd k. (gives tt, k);
  disk_close = λ fd k. (gives tt, record k { open_files = Maps.erase fd k.open_files });
}

read_of-apply_all :
    (us : List Update) (j : MetaKey) (t : Table)
    → read_of (Maps.lookup j (apply_all us t)) ≡ apply_updates us j (read_of (Maps.lookup j t))
unfolding apply_all apply_updates
read_of-apply_all [] j t = refl
read_of-apply_all (puts k v ∷ us) j t =
    ground (arith, read_of-apply_all us j (Maps.insert k v t), lookup-insert k j v t)
read_of-apply_all (deletes k ∷ us) j t =
    ground (arith, read_of-apply_all us j (Maps.erase k t), lookup-erase k j t)

pub memory-DbLaws : DbLaws memory
memory-DbLaws = record {
  get_put = λ sync k j v t h. ground (arith, lookup-insert k j v t);
  get_delete = λ k j t h. ground (arith, lookup-erase k j t);
  get_write = λ us j t h. read_of-apply_all us j t;
}

pub contains_self : (d : ℕ) (k : List ℕ) → contains d (d ∷ k) ≡ true
unfolding contains
contains_self d k = ground arith

pub contains-cons : (d e : ℕ) (k : List ℕ) → contains e k ≡ true → contains e (d ∷ k) ≡ true
unfolding contains
contains-cons d e k h = ground arith

abbrev pub memory-DiskLaws : DiskLaws memory
memory-DiskLaws = record {
  has_dir = λ d k. contains d k.dirs;
  mkdir_makes = λ d k h. contains_self d k.dirs;
  mkdir_keeps = λ d e k h. contains-cons d e k.dirs h;
}

pub references-insert :
    (p q : Ptr) (n : ℕ) (c : List (Ptr × ℕ))
    → references q (Maps.insert p n c) ≡ (if nat_beq q p then n else references q c)
unfolding references
references-insert p q n c = ground (arith, lookup-insert p q n c)

references-erase :
    (p q : Ptr) (c : List (Ptr × ℕ))
    → references q (Maps.erase p c) ≡ (if nat_beq q p then 0 else references q c)
unfolding references
references-erase p q c = ground (arith, lookup-erase p q c)

abbrev pub memory_live : Ptr → List (Ptr × ℕ) → Bool
memory_live p c = ltb 0 (references p c)

pub nothing_dropped :
    (before : Ptr → Bool) (c : List (Ptr × ℕ))
    → ((q : Ptr) → memory_live q c ≡ before q)
    → Drops memory memory_live references before [] c
nothing_dropped before c same = record {
  distinct = tt;
  were_live = λ q h. absurd (cc h);
  unheld = λ q h. absurd (cc h);
  left = λ q. ground (arith, same q);
}

pub release_drops :
    (p : Ptr) (c : List (Ptr × ℕ))
    → 0 < references p c
    → Drops memory memory_live references
        (λ q. memory_live q c)
        (Platform.cache_release memory p c).0
        (Platform.cache_release memory p c).1
release_drops p c h = elim (Bool-cases (ltb 1 (references p c))) [
  | inl more ↦ rw more (
      nothing_dropped (λ q. memory_live q c) (Maps.insert p (references p c - 1) c)
        (λ q. ground (arith, references-insert p q (references p c - 1) c)))
  | inr last ↦ rw last (record {
    distinct = (refl, tt);
    were_live = λ q there. ground arith;
    unheld = λ q there. ground (arith, references-erase p q c);
    left = λ q. ground (arith, references-erase p q c);
  })
]

pub release_held :
    (p q : Ptr) (c : List (Ptr × ℕ))
    → 0 < references p c
    → references q (Platform.cache_release memory p c).1
      ≡ (if nat_beq q p then references q c - 1 else references q c)
release_held p q c h =
    ground (arith, references-insert p q (references p c - 1) c, references-erase p q c)

-- The cache without room has nothing in its table.
pub no_entry : (p : Ptr) → ◌≡◌ {A = Option Ptr} none (some p) → ⊥
no_entry p h = cc h

pub memory_held-live : (p : Ptr) (c : List (Ptr × ℕ)) → 0 < references p c → memory_live p c ≡ true
memory_held-live p c h = ground arith

pub inserted_live :
    (p : Ptr) (c : List (Ptr × ℕ)) (q : Ptr)
    → memory_live q (Maps.insert p 1 c) ≡ (nat_beq q p || memory_live q c)
inserted_live p c q = ground (arith, references-insert p q 1 c)

abbrev pub memory-CacheLaws : CacheLaws memory
memory-CacheLaws = record {
  live = memory_live;
  held = references;
  bound = λ k c. none;
  held-live = memory_held-live;
  bound-live = λ k p c h. absurd (no_entry p h);
  insert_drops = λ k p c free.
      nothing_dropped (λ q. nat_beq q p || memory_live q c) (Maps.insert p 1 c) (inserted_live p c);
  insert_held = λ k p q c free. references-insert p q 1 c;
  insert_value = λ k p c free. refl;
  insert_keeps = λ k p c free ch before after. refl;
  insert_bound = λ k j p q c free h. absurd (no_entry q h);
  lookup_live = λ k q c. refl;
  lookup_bound = λ k j c. refl;
  lookup_keeps = λ k c ch before after. refl;
  lookup_hit = λ k ch c h. absurd (no_entry ch h);
  lookup_held = λ k q ch c h. absurd (no_entry ch h);
  lookup_missed = λ k q c h. refl;
  release_drops = release_drops;
  release_held = release_held;
  release_keeps = λ ch c h ch' before after. refl;
  release_bound = λ ch j q c h b. absurd (no_entry q b);
  erase_drops = λ k c. nothing_dropped (λ q. memory_live q c) c (λ q. refl);
  erase_held = λ k q c. refl;
  erase_keeps = λ k c ch before after. refl;
  erase_bound = λ k j q c b. absurd (no_entry q b);
}
