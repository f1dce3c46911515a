-- ===== src/Tests/Memory/Files.antt =====
-- The platform in memory meets what is assumed of files and of what the cache drops.
use tablefs.Base.{
  ℕ, ◌≡◌, ap, ◌∙◌, sym, Bool, true, false, none, some, List, arith, nat_beq, nat_beq→eq, nat_eq,
  length, take, drop, Option-cases, inl, inr,
}
use mathlib.Core.Path.{subst}
use tablefs.Base.Maps
use tablefs.Base.Maps.{lookup-insert}
use tablefs.Value.{update_ihandle_value}
use tablefs.Platform.{Platform, Ptr, Call, gives}
use tablefs.Platform.Files.{FileLaws}
use tablefs.Platform.Caching.{contains}
use tablefs.Icache.Dropping.{DropLaws}
use tablefs.Tests.Memory.{
  MemoryDisk, memory, memory-CacheLaws, open_file, edit, content_of, file_number,
}

unfoldable pub opened_on : ℕ → ℕ → MemoryDisk → Bool
opened_on fd file k = elim (Maps.lookup fd k.open_files) [ none ↦ false | some n ↦ nat_beq n file ]

pub open_file_opens :
    (file fd : ℕ) (k k' : MemoryDisk)
    → open_file file k ≡ (gives fd, k')
    → (opened_on fd file k' ≡ true) × (content_of file k' ≡ content_of file k)
unfolding open_file opened_on content_of
open_file_opens file fd k k' e = ground (
  arith,
  lookup-insert k.next_fd fd file k.open_files,
  ap (λ (o : Call ℕ × MemoryDisk). o.0) e,
  ap (λ (o : Call ℕ × MemoryDisk). o.1) e,
)

pub write_writes :
    (fd file at : ℕ) (buf : List ℕ) (k k' : MemoryDisk)
    → opened_on fd file k ≡ true
    → Platform.disk_pwrite memory fd buf at k ≡ (gives (length buf), k')
    → (opened_on fd file k' ≡ true)
      × (content_of file k' ≡ update_ihandle_value at buf (content_of file k))
unfolding opened_on content_of edit
write_writes fd file at buf k k' on e = elim (Option-cases (Maps.lookup fd k.open_files)) [
  | inl closed ↦ absurd (ground (arith, closed))
  | inr (n, found) ↦
      let same : n ≡ file = nat_beq→eq n file (ground (arith, found)) in
      let change = edit (update_ihandle_value at buf) n k in
      let made : Platform.disk_pwrite memory fd buf at k ≡ (gives (length buf), change) =
        ground (arith, found) in
      let after : change ≡ k' = ap (λ (o : Call ℕ × MemoryDisk). o.1) (sym made ∙ e) in
      subst
        (λ (o : MemoryDisk).
          (opened_on fd file o ≡ true)
          × (content_of file o ≡ update_ihandle_value at buf (content_of file k)))
        after
        (
          on,
          ground (
            arith,
            same,
            lookup-insert n file (update_ihandle_value at buf (content_of n k)) k.files,
          ),
        )
]

pub read_reads :
    (fd file n at : ℕ) (bytes : List ℕ) (k : MemoryDisk)
    → opened_on fd file k ≡ true
    → Platform.disk_pread memory fd n at k ≡ gives bytes
    → bytes ≡ take n (drop at (content_of file k))
unfolding opened_on
read_reads fd file n at bytes k on e = elim (Option-cases (Maps.lookup fd k.open_files)) [
  | inl closed ↦ absurd (ground (arith, closed))
  | inr (m, found) ↦
      let same : m ≡ file = nat_beq→eq m file (ground (arith, found)) in
      ground (arith, found, same, e)
]

abbrev pub memory-FileLaws : FileLaws memory
memory-FileLaws = record {
  file_content = λ d f k. content_of (file_number d f) k;
  is_open = λ fd d f k. opened_on fd (file_number d f) k;
  create_opens = λ d f flags mode fd k k' plain e. open_file_opens (file_number d f) fd k k' e;
  open_opens = λ d f fd k k' e. open_file_opens (file_number d f) fd k k' e;
  pwrite_writes =
      λ fd d f at buf k k' on some_bytes e. write_writes fd (file_number d f) at buf k k' on e;
  pread_reads = λ fd d f n at bytes k on e. read_reads fd (file_number d f) n at bytes k on e;
}

released_only :
    (p q : Ptr) (c : List (Ptr × ℕ))
    → contains (Platform.cache_release memory p c).0 q ≡ true
    → q ≡ p
released_only p q c h = ground arith

pub memory-DropLaws : DropLaws memory-CacheLaws
memory-DropLaws = record {
  release_only = λ p c q more h. released_only p q c h;
  erase_only = λ k c q h. absurd (cc h);
}
