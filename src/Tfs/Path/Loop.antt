-- ===== src/Tfs/Path/Loop.antt =====
-- The loop of `ParentPathLookup` and what follows it: the walk, with enough fuel.
use tablefs.Base.{
  ℕ, zero, suc, ◌-◌, ◌<◌, ◌≡◌, refl, sym, ap, ◌∙◌, Option, none, some, List, [], ◌∷◌, ◌++◌, length,
  drop, arith, Option-cases, inl, inr, length-append,
}
use tablefs.Key.{Inode, MetaKey, root_inode_id}
use tablefs.Hash.Tail.{AreBytes}
use tablefs.Adaptor
use tablefs.Adaptor.{Adaptor}
use tablefs.Platform.{Platform}
use tablefs.Icache.{InodeCache}
use mathlib.Core.Path.{subst}
use mathlib.Core.List.{append-nil}
use mathlib.Core.Option.{some-ne-none}
use tablefs.Tfs.{TableFs, path_delimiter, enoent, build_meta_key}
use tablefs.Tfs.Path.{strchr, look_in, search_loop, parent_path_lookup, path_lookup}
use tablefs.Tfs.Path.Walk.{
  split, key_of, root_key, arrive, walk, resolve, IsCoherent, IsSame, strchr-split, strchr-none,
  build_meta_key-key_of, look_in_lem,
}

abbrev pub Searched : Type 0
Searched = Option MetaKey × Inode × List ℕ

pub or_root : Option MetaKey → MetaKey
or_root none = root_key
or_root (some k) = k

-- Where a search that stopped at `lpos` arrives.
unfoldable pub finish : Option Searched → Option (MetaKey × List ℕ)
finish none = none
finish (some (key, inode, lpos)) = some (arrive inode (or_root key) (drop 1 lpos))

-- The last delimiter is one, and bytes follow it.
abbrev pub Stops : Option Searched → Type 0
Stops none = Unit
Stops (some (key, inode, lpos)) = (rest : List ℕ) × (lpos ≡ path_delimiter ∷ rest) × AreBytes rest

AreBytes-right : (xs ys : List ℕ) → AreBytes (xs ++ ys) → AreBytes ys
AreBytes-right [] ys h = h
AreBytes-right (x ∷ xs) ys h = AreBytes-right xs ys h.1

AreBytes-tail : (r later : List ℕ) → r ≡ path_delimiter ∷ later → AreBytes r → AreBytes later
AreBytes-tail r later e h = (subst AreBytes e h).1

-- The ways through a round of the loop.
module _ {P : Platform} (fuel : ℕ) (rest : List ℕ) (inode : Inode) (key : Option MetaKey)
    (s : TableFs P) where
  search_loop_last :
      strchr rest ≡ none
      → search_loop P (suc fuel) (path_delimiter ∷ rest) inode key s
        ≡ some (some (key, inode, path_delimiter ∷ rest), s)
  unfolding search_loop
  search_loop_last h = ground arith

  search_loop_missing :
      {n : ℕ} {r : List ℕ} {k : MetaKey} {t : TableFs P}
      → strchr rest ≡ some (n, r)
      → build_meta_key rest n inode ≡ some k
      → look_in P k s ≡ some (none, t)
      → search_loop P (suc fuel) (path_delimiter ∷ rest) inode key s ≡ some (none, t)
  unfolding search_loop
  search_loop_missing h b l = ground arith

  search_loop_next :
      {n : ℕ} {r : List ℕ} {k : MetaKey} {child : Inode} {t : TableFs P}
      → strchr rest ≡ some (n, r)
      → build_meta_key rest n inode ≡ some k
      → look_in P k s ≡ some (some child, t)
      → search_loop P (suc fuel) (path_delimiter ∷ rest) inode key s
        ≡ search_loop P fuel r child (some k) t
  unfolding search_loop
  search_loop_next h b l = ground arith

module _ {P : Platform} (a : Adaptor P) where
  -- With more fuel than there are bytes left, the loop does what the walk says.
  pub search_loop-walk :
      (fuel : ℕ) (rest : List ℕ) (inode : Inode) (key : Option MetaKey) (s : TableFs P)
      → length rest < fuel
      → AreBytes rest
      → s.inode_cache.metadb_ ≡ a
      → IsCoherent s
      → (o : Option Searched) × (t : TableFs P) × (search_loop P fuel
            (path_delimiter ∷ rest)
            inode
            key
            s
          ≡ some (o, t))
        × (finish o ≡ walk a inode (or_root key) (split rest).0 (split rest).1)
        × Stops o
        × IsCoherent t
        × IsSame s t
  unfolding walk finish or_root
  search_loop-walk zero rest inode key s fits bytes e ok = absurd (omega arith)
  search_loop-walk (suc fuel) rest inode key s fits bytes e ok = elim (Option-cases (strchr rest)) [
    | inl last ↦ (
      some (key, inode, path_delimiter ∷ rest),
      s,
      search_loop_last fuel rest inode key s last,
      rw (strchr-none rest last),
      (rest, refl, bytes),
      ok,
      record { same_state = refl; same_inodes = refl },
    )
    | inr ((n, r), more) ↦
        let (name, later, whole, size, at, parts) = strchr-split rest n r more in
        let k = key_of inode name in
        let (t, looked, ok', same) = look_in_lem ok k in
        let built : build_meta_key rest n inode ≡ some k =
          ap (λ (b : List ℕ). build_meta_key b n inode) whole
          ∙ ap (λ (m : ℕ). build_meta_key (name ++ r) m inode) (sym size)
          ∙ build_meta_key-key_of name r inode (subst AreBytes whole bytes) in
        let asks : Adaptor.get P k s.inode_cache.metadb_ ≡ Adaptor.get P k a =
          ap (Adaptor.get P k) e in
        elim (Option-cases (Adaptor.get P k a)) [
          | inl out ↦ (
            none,
            t,
            search_loop_missing fuel rest inode key s {t = t} more built (ground arith),
            rw (parts, out),
            tt,
            ok',
            same,
          )
          | inr (v, got) ↦
              let child = v.header.fstat.st_ino in
              let (o, u, ran, fin, stops, ok'', same') =
                search_loop-walk fuel later child (some k) t
                  (omega (arith, ap length whole, length-append name r, ap length at))
                  (AreBytes-tail r later at (AreBytes-right name r (subst AreBytes whole bytes)))
                  (ap (λ (c : InodeCache P). c.metadb_) same.same_inodes ∙ e) ok' in
              (
                o,
                u,
                search_loop_next fuel rest inode key s {child = child} {t = t} more built
                      (ground arith)
                    ∙ ap (λ (x : List ℕ). search_loop P fuel x child (some k) t) at
                    ∙ ran,
                fin ∙ (rw (parts, got)),
                stops,
                ok'',
                record {
                  same_state = same'.same_state ∙ same.same_state;
                  same_inodes = same'.same_inodes ∙ same.same_inodes;
                },
              )
        ]
  ]

-- What follows a search that arrives: the key, and then the last component.
module _ {P : Platform} (path rest : List ℕ) (inode : Inode) (s t : TableFs P) where
  parent_path_lookup_found :
      (key : Option MetaKey)
      → search_loop P (suc (length path)) path root_inode_id none s
        ≡ some (some (key, inode, path_delimiter ∷ rest), t)
      → parent_path_lookup P path s
        ≡ some (
          some
              (record { key = or_root key; parent = inode; lastdelimiter = path_delimiter ∷ rest }),
          t,
        )
  unfolding parent_path_lookup or_root root_key
  parent_path_lookup_found none ran = ground (arith, build_meta_key-key_of [] [] root_inode_id tt)
  parent_path_lookup_found (some k) ran = ground arith

build_last :
    (b : ℕ) (bs : List ℕ) (inode : Inode)
    → AreBytes (b ∷ bs)
    → build_meta_key (b ∷ bs) (suc (suc (length bs)) - 1) inode ≡ some (key_of inode (b ∷ bs))
build_last b bs inode bytes =
    let whole : (b ∷ bs) ++ [] ≡ b ∷ bs = append-nil (b ∷ bs) in
    let e : suc (suc (length bs)) - 1 ≡ length (b ∷ bs) = omega arith in
    ap (λ (m : ℕ). build_meta_key (b ∷ bs) m inode) e
    ∙ ap (λ (x : List ℕ). build_meta_key x (length (b ∷ bs)) inode) (sym whole)
    ∙ build_meta_key-key_of (b ∷ bs) [] inode (subst AreBytes (sym whole) bytes)

path_lookup-arrive :
    {P : Platform} (path rest : List ℕ) (inode : Inode) (s t : TableFs P) (key : Option MetaKey)
    → search_loop P (suc (length path)) path root_inode_id none s
      ≡ some (some (key, inode, path_delimiter ∷ rest), t)
    → AreBytes rest
    → path_lookup P path s ≡ some (some (arrive inode (or_root key) rest), t)
unfolding path_lookup arrive
path_lookup-arrive path [] inode s t key ran bytes =
    ground (arith, parent_path_lookup_found path [] inode s t key ran)
path_lookup-arrive path (b ∷ bs) inode s t key ran bytes =
    ground
      (arith, parent_path_lookup_found path (b ∷ bs) inode s t key ran, build_last b bs inode bytes)

path_lookup_lost :
    {P : Platform} (path : List ℕ) (s t : TableFs P)
    → search_loop P (suc (length path)) path root_inode_id none s ≡ some (none, t)
    → path_lookup P path s ≡ some (none, record t { errno = enoent })
unfolding path_lookup parent_path_lookup
path_lookup_lost path s t ran = ground arith

path_lookup_ends :
    {P : Platform} (path : List ℕ) (s : TableFs P) (w : Option (MetaKey × List ℕ))
    (o : Option Searched) (t : TableFs P)
    → search_loop P (suc (length path)) path root_inode_id none s ≡ some (o, t)
    → finish o ≡ w
    → Stops o
    → IsCoherent t
    → IsSame s t
    → (u : TableFs P) × (path_lookup P path s ≡ some (w, u))
      × IsCoherent u
      × IsSame s u
      × (w ≡ none → u.errno ≡ enoent)
unfolding finish
path_lookup_ends path s w none t ran fin stops ok same = (
  record t { errno = enoent },
  path_lookup_lost path s t ran
      ∙ ap (λ (x : Option (MetaKey × List ℕ)). some (x, record t { errno = enoent })) fin,
  record { valid = ok.valid; agrees = ok.agrees },
  record { same_state = same.same_state; same_inodes = same.same_inodes },
  λ h. refl,
)
path_lookup_ends path s w (some (key, inode, lpos)) t ran fin (rest, at, bytes) ok same =
    let to : finish (some (key, inode, lpos)) ≡ some (arrive inode (or_root key) rest) =
      ap (λ (x : List ℕ). some (arrive inode (or_root key) (drop 1 x))) at in
    let ran' = ran ∙ ap (λ (x : List ℕ). some (some (key, inode, x), t)) at in
    (
      t,
      path_lookup-arrive path rest inode s t key ran' bytes
          ∙ ap (λ (x : Option (MetaKey × List ℕ)). some (x, t)) (sym to ∙ fin),
      ok,
      same,
      λ h. absurd (some-ne-none _ (sym to ∙ fin ∙ h)),
    )

-- From a state whose dentry cache is sound and agrees with the metadata table, the lookup of a
-- path that begins with a delimiter and consists of bytes ends, faults nowhere, and gives the
-- key and the name that a walk through the table alone gives, or none with errno ENOENT where
-- the walk fails; the state stays sound and in agreement, and the inode cache and the file
-- system state are unchanged.
pub path_lookup-resolve :
    {P : Platform} (rest : List ℕ) (s : TableFs P)
    → AreBytes rest
    → IsCoherent s
    → (t : TableFs P) × (path_lookup P (path_delimiter ∷ rest) s
        ≡ some (resolve s.inode_cache.metadb_ rest, t))
      × IsCoherent t
      × IsSame s t
      × (resolve s.inode_cache.metadb_ rest ≡ none → t.errno ≡ enoent)
unfolding resolve or_root
path_lookup-resolve {P} rest s bytes ok =
    let path = path_delimiter ∷ rest in
    let a = s.inode_cache.metadb_ in
    let (o, t, ran, fin, stops, ok', same) =
      search_loop-walk a (suc (length path)) rest root_inode_id none s (omega arith) bytes refl
        ok in
    path_lookup_ends path s _ o t ran fin stops ok' same
