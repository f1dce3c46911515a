-- ===== src/Adaptor/Table.antt =====
-- The adaptor as a table, while LevelDB reports no error.
use tablefs.Base.{
  ℕ, ◌≡◌, refl, sym, ap, ◌+◌, ◌∙◌, true, Option, none, some, List, [], ◌∷◌, arith, ◌==◌,
  if◌then◌else◌, Bool-cases, inl, inr,
}
use tablefs.Key.{MetaKey, key_eq}
use tablefs.Value.{InodeValue}
use tablefs.Platform.{
  Platform, Read, found, not_found, failed, Update, puts, deletes, apply_updates, DbLaws,
}
use tablefs.Adaptor.{Adaptor, get, put, delete, write, sync_policy, key_size, value_size}

-- What a batch makes of one entry of the table.
unfoldable pub after_batch : List Update → MetaKey → Option InodeValue → Option InodeValue
after_batch [] j o = o
after_batch (puts k v ∷ us) j o = after_batch us j (if k == j then some v else o)
after_batch (deletes k ∷ us) j o = after_batch us j (if k == j then none else o)

-- The result of `Get` for what LevelDB answers.
abbrev answer : Read → Option InodeValue
answer (found v) = some v
answer not_found = none
answer failed = none

answer-apply_updates :
    (us : List Update) (j : MetaKey) (r : Read)
    → answer (apply_updates us j r) ≡ after_batch us j (answer r)
unfolding apply_updates after_batch
answer-apply_updates [] j r = refl
answer-apply_updates (puts k v ∷ us) j r = elim (Bool-cases (k == j)) [
  | inl e ↦ rw e (answer-apply_updates us j (found v))
  | inr e ↦ rw e (answer-apply_updates us j r)
]
answer-apply_updates (deletes k ∷ us) j r = elim (Bool-cases (k == j)) [
  | inl e ↦ rw e (answer-apply_updates us j not_found)
  | inr e ↦ rw e (answer-apply_updates us j r)
]

module _ {P : Platform} (laws : DbLaws P) (a : Adaptor P) where
  open P use {Db, db_get, db_put, db_delete}

  db_policy : (now size : ℕ) → (sync_policy P now size a).1.db ≡ a.db
  unfolding sync_policy
  db_policy now size = ground arith

  -- Where Put returns 0, Get then gives the new value for the key and for any other key what it
  -- gave before.
  pub get-put :
      (now : ℕ) (k j : MetaKey) (v : InodeValue)
      → (put P now k v a).0 ≡ true
      → get P j (put P now k v a).1 ≡ (if k == j then some v else get P j a)
  unfolding put get
  get-put now k j v h =
      let size = key_size + value_size P v in
      let sync = (sync_policy P now size a).0 in
      let same = db_policy now size in
      let wrote : (db_put sync k v a.db).0 ≡ true =
        ap (λ (d : Db). (db_put sync k v d).0) (sym same) ∙ h in
      ap (λ (d : Db). answer (db_get j (db_put sync k v d).1)) same
      ∙ ground (arith, laws.get_put sync k j v a.db wrote)

  -- Where the delete of LevelDB succeeds, Get then does not find the key, and gives for any
  -- other key what it gave before.
  pub get-delete :
      (k j : MetaKey)
      → (db_delete k a.db).0 ≡ true
      → get P j (delete P k a) ≡ (if k == j then none else get P j a)
  unfolding delete get
  get-delete k j h = ground (arith, laws.get_delete k j a.db h)

  -- Where Write returns 0, Get then gives for each key what the updates of the batch, in order,
  -- make of it.
  pub get-write :
      (us : List Update) (j : MetaKey)
      → (write P us a).0 ≡ true
      → get P j (write P us a).1 ≡ after_batch us j (get P j a)
  unfolding write get
  get-write us j h = ap answer (laws.get_write us j a.db h) ∙ answer-apply_updates us j _
