-- ===== src/Dentry/History.antt =====
-- The dentry cache against the history of its calls: a bounded memory that forgets, and never lies.
use tablefs.Base.{
  ℕ, ◌≤◌, ◌≡◌, refl, ◌≢◌, Option, none, some, List, [], ◌∷◌, arith, ◌==◌, if◌then◌else◌, length,
  ◌>>=◌,
}
use tablefs.Base.Maps
use tablefs.Key.{Inode, MetaKey, key_eq}
use tablefs.Dentry.{DentryCache, init, find, insert, evict}
use tablefs.Dentry.Invariant.{IsValid, stored, init-IsValid, find-stored, evict-stored}
use tablefs.Dentry.Insertion.{insert-stored}

pub data Call : Type 0 where
  looks_up : MetaKey → Call
  inserts : MetaKey → Inode → Call
  evicts : MetaKey → Call

pub step : Call → DentryCache → Option DentryCache
step (looks_up k) c = do (_, d) ← find k c; some d
step (inserts k v) c = some (insert k v c)
step (evicts k) c = some (evict k c)

-- A run of calls, the latest first; `none` is the use of a dead iterator.
pub run : List Call → DentryCache → Option DentryCache
unfolding step
run [] c = some c
run (call ∷ calls) c = do d ← run calls c; step call d

-- What an unbounded map would hold after the calls.
pub known : List Call → MetaKey → Option Inode
known [] j = none
known (looks_up k ∷ calls) j = known calls j
known (inserts k v ∷ calls) j = if k == j then some v else known calls j
known (evicts k ∷ calls) j = if k == j then none else known calls j

pub record Tracks (size : ℕ) (calls : List Call) (c : DentryCache) : Type 0 where
  pub valid : IsValid c
  pub size_kept : c.maxsize ≡ size
  pub truthful : (j : MetaKey) (v : Inode) → stored j c ≡ some v → known calls j ≡ some v

step-Tracks :
    {size : ℕ} {calls : List Call} (call : Call) (c : DentryCache)
    → Tracks size calls c
    → (d : DentryCache) × (step call c ≡ some d) × Tracks size (call ∷ calls) d
unfolding step known
step-Tracks (looks_up k) c t =
    let (d, found, valid, same, size) = find-stored t.valid k in
    (
      d,
      ground arith,
      record {
        valid = valid;
        size_kept = ground (arith, t.size_kept);
        truthful = λ j v h. t.truthful j v (ground (arith, same j));
      },
    )
step-Tracks (inserts k v) c t =
    let (valid, now, size) = insert-stored t.valid k v in
    (
      insert k v c,
      refl,
      record {
        valid = valid;
        size_kept = ground (arith, t.size_kept);
        truthful = λ j w h. ground (arith, now j, t.truthful j w);
      },
    )
step-Tracks (evicts k) c t =
    let (valid, now, size) = evict-stored t.valid k in
    (
      evict k c,
      refl,
      record {
        valid = valid;
        size_kept = ground (arith, t.size_kept);
        truthful = λ j w h. ground (arith, now j, t.truthful j w);
      },
    )

init_size : {size : ℕ} → (init size).maxsize ≡ size
unfolding init
init_size = refl

stored-init : (size : ℕ) (j : MetaKey) (v : Inode) → stored j (init size) ≢ some v
unfolding init stored Maps.lookup
stored-init size j v h = cc

run-Tracks :
    (size : ℕ) (calls : List Call)
    → (c : DentryCache) × (run calls (init size) ≡ some c) × Tracks size calls c
unfolding run
run-Tracks size [] = (
  init size,
  refl,
  record {
    valid = init-IsValid size;
    size_kept = init_size;
    truthful = λ j v h. absurd (stored-init size j v h);
  },
)
run-Tracks size (call ∷ calls) =
    let (c, ran, t) = run-Tracks size calls in
    let (d, stepped, u) = step-Tracks call c t in (d, ground arith, u)

-- Whatever calls are made on a new dentry cache, no dead iterator is used, the list holds at
-- most as many nodes as the given size, and an inode that Find returns for a key is the one that
-- the latest Insert of that key stored, with no Evict of the key since.
pub run-known :
    (size : ℕ) (calls : List Call)
    → (c : DentryCache) × (run calls (init size) ≡ some c)
      × (length c.cache ≤ size)
      × ((k : MetaKey) (v : Inode) (d : DentryCache)
          → find k c ≡ some (some v, d)
          → known calls k ≡ some v)
run-known size calls =
    let (c, ran, t) = run-Tracks size calls in
    (
      c,
      ran,
      ground (arith, t.size_kept, t.valid.bounded),
      λ k v d h. let (e, found, _, _, _) = find-stored t.valid k in t.truthful k v (ground arith),
    )
