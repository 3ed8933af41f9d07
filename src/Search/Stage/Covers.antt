-- ===== src/Search/Stage/Covers.antt =====
-- Theorems on the search stage of gocode/cmd/aioagent/main.go.
use mathlib.Core.List.{Memᴰ}
use mathlib.Core.List.Memᴰ
use cramc.Prelude.{
  ℕ, ◌≡◌, ◌⊎◌, inl, inr, Bool, true, false, not, ◌&&◌, ◌||◌, Option, none, List, [], ◌∷◌, arith,
  Bool-cases, Bytes,
}
use cramc.Prelude.Outcome.{
  GoError, Outcome, ok, err, panic, blocked, fallback_to_compatible_solution,
}
use cramc.Search.OnDisk.{search_consumer, is_local}
use cramc.Search.Walk.{Found, Nodes, general_walkthrough_search}
use cramc.Search.Walk.Complete.{files}
use cramc.Search.Mft.{MftRow, extract_and_parse_mft_then_search}
use cramc.Search.Agreement.{row_of, slashed, IsDrivePath, searchers_agree}
use cramc.Search.Stage.{
  Flags, Searched, searched, mft_searched, first_search, second_search, search_stage,
}

search_consumer-mem :
    (on_disk : Bytes → Outcome ℕ) (items : List Bytes) {q : Bytes}
    → is_local (on_disk q) ≡ true
    → Memᴰ q items
    → Memᴰ q (search_consumer on_disk items)
unfolding search_consumer
search_consumer-mem on_disk [] l m = elim m [ ]
search_consumer-mem on_disk (x ∷ items) l (Memᴰ.head e) = rw (rw e at l) (Memᴰ.head e)
search_consumer-mem on_disk (x ∷ items) l (Memᴰ.tail m) = elim (Bool-cases (is_local (on_disk x))) [
  | inl t ↦ rw t (Memᴰ.tail (search_consumer-mem on_disk items l m))
  | inr f ↦ rw f (search_consumer-mem on_disk items l m)
]

-- The stage came to an end with this path on its list.
abbrev pub Lists : Bytes → Searched → Type 0
Lists q (searched fallback list) = Memᴰ q list
Lists q _ = ⊥

-- A path of the walk that is local is listed if the first searcher sent it or the second one runs.
second_search-Lists :
    (flags : Flags) (on_disk : Bytes → Outcome ℕ) (walk : Found) (fallback : Bool)
    (sent : List Bytes) {q : Bytes}
    → is_local (on_disk q) ≡ true
    → Memᴰ q walk.sent
    → Memᴰ q sent ⊎ ((not flags.is_running_on_win || fallback || flags.no_priv) ≡ true)
    → Lists q (second_search flags on_disk walk (searched fallback sent))
unfolding second_search
second_search-Lists flags on_disk walk fallback sent l m h =
    elim (Bool-cases (not flags.is_running_on_win || fallback || flags.no_priv)) [
      | inl t ↦ rw t (
          Memᴰ.append_right (search_consumer on_disk sent)
            (search_consumer-mem on_disk walk.sent l m))
      | inr f ↦ elim h [
        | inl there ↦ rw f (search_consumer-mem on_disk sent l there)
        | inr t ↦ absurd (cc)
      ]
    ]

-- The file table has a row for each file below the directory, or cannot be opened.
abbrev pub CoversOrFails : Bytes → Nodes → Outcome (List MftRow) → Type 0
CoversOrFails dir ns (ok rows) =
    (p : Bytes) → Memᴰ p (files [] ns) → Memᴰ (row_of (slashed dir) p) rows
CoversOrFails dir ns (err e) = Unit
CoversOrFails dir ns panic = ⊥
CoversOrFails dir ns blocked = ⊥

module _ (letter : ℕ) (dir : Bytes) (drive : IsDrivePath letter dir) (exts : List Bytes) where
  table_fails :
      (e : GoError)
      → extract_and_parse_mft_then_search (letter ∷ b':' ∷ dir) exts (err e)
        ≡ err fallback_to_compatible_solution
  unfolding extract_and_parse_mft_then_search
  table_fails e = rw (drive.disk_letter)

  module _ (flags : Flags) (on_disk : Bytes → Outcome ℕ) (ns : Nodes) (read_error : Option GoError)
      {q : Bytes} (l : is_local (on_disk q) ≡ true)
      (m : Memᴰ q
        (general_walkthrough_search (letter ∷ b':' ∷ dir) exts none read_error ns).sent) where
    abbrev walk : Found
    walk = general_walkthrough_search (letter ∷ b':' ∷ dir) exts none read_error ns

    after_table :
        (open_stream : Outcome (List MftRow))
        → CoversOrFails dir ns open_stream
        → Lists q (
            second_search flags on_disk walk (
              mft_searched
                (extract_and_parse_mft_then_search (letter ∷ b':' ∷ dir) exts open_stream)))
    after_table (ok rows) covers =
        let (found, e, there) =
          searchers_agree letter dir exts rows ns read_error q drive covers m in
        rw e (second_search-Lists flags on_disk walk false found.sent l m (inl there))
    after_table (err e) covers =
        rw (table_fails e) (second_search-Lists flags on_disk walk true [] l m (inr (ground arith)))
    after_table panic covers = absurd covers
    after_table blocked covers = absurd covers

    without_table : Lists q (second_search flags on_disk walk (searched flags.is_running_on_win []))
    without_table =
        second_search-Lists flags on_disk walk flags.is_running_on_win [] l m (inr (ground arith))

-- Whatever the privileges, the file system, the flag and the platform are, and whether or not the
-- file table can be opened: a target below a drive path that is not empty and not only in the cloud
-- is on the list for the scanner, if the walk would come by it and the table, if opened, has a row
-- for each file.
pub search_stage-Lists :
    (letter : ℕ) (dir : Bytes) (exts : List Bytes) (flags : Flags) (on_disk : Bytes → Outcome ℕ)
    (open_stream : Outcome (List MftRow)) (ns : Nodes) (read_error : Option GoError) (q : Bytes)
    → IsDrivePath letter dir
    → CoversOrFails dir ns open_stream
    → is_local (on_disk q) ≡ true
    → Memᴰ q (general_walkthrough_search (letter ∷ b':' ∷ dir) exts none read_error ns).sent
    → Lists q (
        search_stage flags on_disk
          (extract_and_parse_mft_then_search (letter ∷ b':' ∷ dir) exts open_stream)
          (general_walkthrough_search (letter ∷ b':' ∷ dir) exts none read_error ns))
unfolding search_stage first_search
search_stage-Lists letter dir exts flags on_disk open_stream ns read_error q drive covers l m =
    elim (Bool-cases (flags.is_elevated && flags.is_ntfs && not flags.no_priv)) [
      | inl t ↦
          rw t
            (after_table letter dir drive exts flags on_disk ns read_error l m open_stream covers)
      | inr f ↦ rw f (without_table letter dir drive exts flags on_disk ns read_error l m)
    ]
