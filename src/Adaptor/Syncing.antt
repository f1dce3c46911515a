-- ===== src/Adaptor/Syncing.antt =====
-- `LevelDBAdaptor::Put` and the two limits: how much can be lost between two synced writes.
use tablefs.Base.{
  ℕ, ◌+◌, ◌≤◌, ◌<◌, ◌≡◌, refl, sym, ap, ◌∙◌, List, [], ◌∷◌, arith, ◌^◌, if◌then◌else◌,
}
use mathlib.Core.Path.{subst}
use tablefs.Key.{MetaKey}
use tablefs.Value.{InodeValue}
use tablefs.Platform.{Platform}
use tablefs.Adaptor.{Adaptor, sync_policy, put, key_size, value_size}

-- A call of `Put`, with the time at which it is made.
pub record Call : Type 0 where
  pub now : ℕ
  pub key : MetaKey
  pub value : InodeValue

module _ (P : Platform) where
  abbrev pub size_of : Call → ℕ
  size_of c = key_size + value_size P c.value

  pub put_all : List Call → Adaptor P → Adaptor P
  put_all [] a = a
  put_all (c ∷ cs) a = put_all cs (put P c.now c.key c.value a).1

  -- The bytes that the calls write since the last one that asks for a sync, where `pending` bytes
  -- have been written before them.
  pub unsynced : List Call → Adaptor P → ℕ → ℕ
  unsynced [] a pending = pending
  unsynced (c ∷ cs) a pending =
      unsynced cs (put P c.now c.key c.value a).1
        (if (sync_policy P c.now (size_of c) a).0 then 0 else pending + size_of c)

  -- The counters after one call.
  put_counters :
      (c : Call) (a : Adaptor P)
      → 0 < a.sync_size_limit
      → a.async_data_size ≤ a.sync_size_limit
      → a.sync_size_limit + size_of c < 2 ^ 31
      → ((put P c.now c.key c.value a).1.sync_size_limit ≡ a.sync_size_limit)
        × ((put P c.now c.key c.value a).1.async_data_size ≤ a.sync_size_limit)
        × ((put P c.now c.key c.value a).1.async_data_size
            ≡ (if (sync_policy P c.now (size_of c) a).0 then 0 else a.async_data_size + size_of c))
  unfolding put sync_policy
  put_counters c a on within room = ground (arith, on, within, room)

  -- No call takes the count of bytes past the largest int.
  unfoldable pub Countable : List Call → ℕ → Type 0
  Countable [] limit = Unit
  Countable (c ∷ cs) limit = (limit + size_of c < 2 ^ 31) × Countable cs limit

  -- With a size limit above 0, a count within it, and calls of which none writes so many bytes that
  -- these and the limit together reach 2 ^ 31, the bytes that the calls of Put write since the last
  -- one that asks for a sync are what the adaptor has counted, and never more than the limit.
  pub unsynced-le_limit :
      (cs : List Call) (a : Adaptor P)
      → 0 < a.sync_size_limit
      → a.async_data_size ≤ a.sync_size_limit
      → Countable cs a.sync_size_limit
      → (unsynced cs a a.async_data_size ≡ (put_all cs a).async_data_size)
        × (unsynced cs a a.async_data_size ≤ a.sync_size_limit)
  unfolding unsynced put_all Countable
  unsynced-le_limit [] a on within room = (refl, within)
  unsynced-le_limit (c ∷ cs) a on within room =
      let (limit, less, now) = put_counters c a on within room.0 in
      let ih =
        unsynced-le_limit cs (put P c.now c.key c.value a).1 (omega arith) (omega arith)
          (subst (Countable cs) (sym limit) room.1) in
      let b = (put P c.now c.key c.value a).1 in
      let same = ap (λ (n : ℕ). unsynced cs b n) now in
      (sym same ∙ ih.0, omega (arith, same, ih.1, limit))
