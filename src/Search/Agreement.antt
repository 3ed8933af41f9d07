-- ===== src/Search/Agreement.antt =====
-- Theorems on the two searchers side by side: gocode/cmd/aioagent/main.go falls back from the file
-- table to the walk.
use mathlib.Core.List.{Memᴰ}
use mathlib.Core.List.Memᴰ
use cramc.Prelude.{
  ℕ, ◌+◌, ◌≡◌, refl, sym, ap, inl, inr, true, false, ◌||◌, Option, none, List, [], ◌∷◌, ◌++◌,
  append_assoc, arith, ◌==◌, Bool-cases, length, All, Bytes,
}
use cramc.Prelude.Outcome.{GoError, ok}
use cramc.Paths.{replace_byte, split_on, path_ext, contains}
use cramc.Paths.Extension.{path_ext-append}
use cramc.Paths.Substring.{has_prefix-append, contains-append}
use cramc.Search.{is_target, xlstart, slices_contains}
use cramc.Search.Mft.Rows.{is_hit, hits, on_drive, mft_rows-hits}
use cramc.Search.Mft.{
  MftRow, mft_match, extract_and_parse_mft_then_search, residential_of, is_disk_letter,
}
use cramc.Search.Walk.Complete.{files, targets, under, general_walkthrough_search-targets}
use cramc.Search.Walk.{Found, Nodes, general_walkthrough_search}

-- The row of a file below a directory.
abbrev pub row_of : Bytes → Bytes → MftRow
row_of dir p = record { in_use = true; is_dir = false; full_path = dir ++ b'/' ∷ p }

longer_contains :
    (dir p : Bytes) → contains p xlstart ≡ true → contains (dir ++ b'/' ∷ p) xlstart ≡ true
longer_contains dir p t =
    rw (← append_assoc dir (b'/' ∷ []) p) (contains-append (dir ++ b'/' ∷ []) p xlstart t)

taken_longer :
    (dir p : Bytes) (exts : List Bytes)
    → is_target exts p ≡ true
    → (slices_contains exts (path_ext p) || contains (dir ++ b'/' ∷ p) xlstart) ≡ true
unfolding is_target
taken_longer dir p exts h = elim (Bool-cases (contains p xlstart)) [
  | inl t ↦ rw (longer_contains dir p t) (ground arith)
  | inr f ↦ ground arith
]

-- What the walk takes below a directory, the table's test takes too.
is_target-mft_match :
    (dir p : Bytes) (exts : List Bytes)
    → is_target exts p ≡ true
    → mft_match dir exts (dir ++ b'/' ∷ p) ≡ true
unfolding is_target mft_match
is_target-mft_match dir p exts h =
    rw (has_prefix-append dir (b'/' ∷ p), path_ext-append dir p) (taken_longer dir p exts h)

targets-mem :
    (exts : List Bytes) (ps : List Bytes) {p : Bytes}
    → Memᴰ p (targets exts ps)
    → Memᴰ p ps × (is_target exts p ≡ true)
unfolding targets
targets-mem exts [] m = elim m [ ]
targets-mem exts (q ∷ ps) {p} m = elim (Bool-cases (is_target exts q)) [
  | inl t ↦
      let m' : Memᴰ p (q ∷ targets exts ps) = rw (t, targets) at m in
      elim (Memᴰ.cases_cons m') [
        | inl e ↦ (Memᴰ.head e, rw e t)
        | inr r ↦ let (there, good) = targets-mem exts ps r in (Memᴰ.tail there, good)
      ]
  | inr f ↦
      let m' : Memᴰ p (targets exts ps) = rw (f, targets) at m in
      let (there, good) = targets-mem exts ps m' in (Memᴰ.tail there, good)
]

hits-mem :
    (dir : Bytes) (exts : List Bytes) (rows : List MftRow) {row : MftRow}
    → Memᴰ row rows
    → is_hit dir exts row ≡ true
    → Memᴰ row.full_path (hits dir exts rows)
unfolding hits
hits-mem dir exts [] m h = elim m [ ]
hits-mem dir exts (r ∷ rows) (Memᴰ.head e) h =
    rw (rw e at h, hits) (Memᴰ.head (ap (λ (x : MftRow). x.full_path) e))
hits-mem dir exts (r ∷ rows) {row} (Memᴰ.tail m) h = elim (Bool-cases (is_hit dir exts r)) [
  | inl t ↦ rw (t, hits) (Memᴰ.tail (hits-mem dir exts rows m h))
  | inr f ↦ rw (f, hits) (hits-mem dir exts rows m h)
]

-- A path of a drive: a letter, a colon, and a directory with no further colon.
pub record IsDrivePath (letter : ℕ) (dir : Bytes) : Type 0 where
  pub disk_letter : is_disk_letter letter ≡ true
  pub no_colon : All (λ c. (c == b':') ≡ false) dir

-- The directory as the file table spells it.
abbrev pub slashed : Bytes → Bytes
slashed dir = replace_byte b'\\' b'/' dir

slashed_no_colon :
    (dir : Bytes)
    → All (λ c. (c == b':') ≡ false) dir
    → All (λ c. (c == b':') ≡ false) (slashed dir)
unfolding replace_byte
slashed_no_colon [] h = tt
slashed_no_colon (c ∷ dir) (h, hs) = elim (Bool-cases (c == b'\\')) [
  | inl t ↦ rw t (refl, slashed_no_colon dir hs)
  | inr f ↦ rw f (h, slashed_no_colon dir hs)
]

split_on-none : (dir : Bytes) → All (λ c. (c == b':') ≡ false) dir → split_on b':' dir ≡ dir ∷ []
unfolding split_on
split_on-none [] h = refl
split_on-none (c ∷ dir) h = rw h.0 (rw (split_on-none dir h.1))

module _ (letter : ℕ) (dir : Bytes) (drive : IsDrivePath letter dir) where
  root_is : replace_byte b'\\' b'/' (letter ∷ b':' ∷ dir) ≡ letter ∷ b':' ∷ slashed dir
  unfolding replace_byte is_disk_letter
  root_is = ground (arith, drive.disk_letter)

  residential_is :
      residential_of (split_on b':' (replace_byte b'\\' b'/' (letter ∷ b':' ∷ dir)))
      ≡ ok (slashed dir)
  unfolding split_on is_disk_letter
  residential_is = rw root_is (
      rw (split_on-none (slashed dir) (slashed_no_colon dir drive.no_colon))
        (ground (arith, drive.disk_letter)))

  module _ (exts : List Bytes) (rows : List MftRow) where
    abbrev table_found : Found
    table_found = record {
      counter = 0 + length (hits (slashed dir) exts rows);
      sent = [] ++ on_drive letter (hits (slashed dir) exts rows);
    }

    table_search :
        extract_and_parse_mft_then_search (letter ∷ b':' ∷ dir) exts (ok rows) ≡ ok table_found
    unfolding extract_and_parse_mft_then_search
    table_search = rw (drive.disk_letter) (
        rw residential_is
          (rw (mft_rows-hits letter (slashed dir) exts rows (record { counter = 0; sent = [] }))))

    under-hits :
        (ps : List Bytes)
        → ((p : Bytes) → Memᴰ p ps → Memᴰ (row_of (slashed dir) p) rows)
        → (q : Bytes) → Memᴰ q (under (letter ∷ b':' ∷ slashed dir) (targets exts ps))
        → Memᴰ q (on_drive letter (hits (slashed dir) exts rows))
    unfolding is_hit
    under-hits ps covers q m =
        let (p, there, same) = Memᴰ.of_map _ (targets exts ps) m in
        let (listed, good) = targets-mem exts ps there in
        let hit : is_hit (slashed dir) exts (row_of (slashed dir) p) ≡ true =
          is_target-mft_match (slashed dir) p exts good in
        Memᴰ.cast (sym same) (
          Memᴰ.map (λ x. letter ∷ b':' ∷ x)
            (hits-mem (slashed dir) exts rows (covers p listed) hit))

-- Where the action path is a drive path, written with slashes or backslashes, and the file table,
-- which is written with slashes, has a row for each file of the tree below it, the search of the table succeeds, and a path that the walk reports it reports too.
pub searchers_agree :
    (letter : ℕ) (dir : Bytes) (exts : List Bytes) (rows : List MftRow) (ns : Nodes)
    (read_error : Option GoError) (q : Bytes)
    → IsDrivePath letter dir
    → ((p : Bytes) → Memᴰ p (files [] ns) → Memᴰ (row_of (slashed dir) p) rows)
    → Memᴰ q (general_walkthrough_search (letter ∷ b':' ∷ dir) exts none read_error ns).sent
    → (found : Found) × (extract_and_parse_mft_then_search (letter ∷ b':' ∷ dir) exts (ok rows)
        ≡ ok found)
      × Memᴰ q found.sent
searchers_agree letter dir exts rows ns read_error q drive covers m = (
  table_found letter dir drive exts rows,
  table_search letter dir drive exts rows,
  under-hits letter dir drive exts rows (files [] ns) covers q (
      rw
        (
          (general_walkthrough_search-targets (letter ∷ b':' ∷ dir) exts read_error ns).0,
          root_is letter dir drive,
        )
        at m),
)

-- The table's test compares bytes, not path elements: a target on the disk whose path goes on from
-- the last element of the action path with any bytes, as that of a sibling with a longer name does,
-- is reported as well.
extract_and_parse_mft_then_search_sibling :
    (letter : ℕ) (dir more : Bytes) (exts : List Bytes) (rows : List MftRow)
    → IsDrivePath letter dir
    → is_target exts (slashed dir ++ more) ≡ true
    → Memᴰ (record { in_use = true; is_dir = false; full_path = slashed dir ++ more }) rows
    → (found : Found) × (extract_and_parse_mft_then_search (letter ∷ b':' ∷ dir) exts (ok rows)
        ≡ ok found)
      × Memᴰ (letter ∷ b':' ∷ (slashed dir ++ more)) found.sent
unfolding is_hit mft_match
extract_and_parse_mft_then_search_sibling letter dir more exts rows drive target m =
    let row : MftRow = record { in_use = true; is_dir = false; full_path = slashed dir ++ more } in
    let hit : is_hit (slashed dir) exts row ≡ true =
      rw (has_prefix-append (slashed dir) more) target in
    (
      table_found letter dir drive exts rows,
      table_search letter dir drive exts rows,
      Memᴰ.map (λ x. letter ∷ b':' ∷ x) (hits-mem (slashed dir) exts rows m hit),
    )
