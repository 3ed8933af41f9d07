-- ===== src/Search/Mft.antt =====
-- gocode/fileutils/filesearcher_booster_windows.go: `ExtractAndParseMFTThenSearch`. What the
-- package go-ntfs yields is a parameter: `open_stream` is the outcome of opening the raw device,
-- of the paged reader, of the NTFS context and of the stream of the file table, each of which ends
-- in the same fallback error, and the rows are those of `ntfs.ParseMFTFile`.
pub mod Rows
use cramc.Prelude.{ℕ, ◌+◌, Bool, not, ◌&&◌, ◌||◌, List, [], ◌∷◌, ◌++◌, leb, if◌then◌else◌, Bytes}
use cramc.Prelude.Outcome.{
  Outcome, ok, err, panic, blocked, ◌>>=◌, invalid_input, fallback_to_compatible_solution,
}
use cramc.Paths.{has_prefix, replace_byte, split_on}
use cramc.Search.{is_target}
use cramc.Search.Walk.{Found}

pub record MftRow : Type 0 where
  pub in_use : Bool
  pub is_dir : Bool
  pub full_path : Bytes

-- `^[a-zA-Z]$` on one byte.
unfoldable pub is_disk_letter : ℕ → Bool
is_disk_letter c = (leb b'a' c && leb c b'z') || (leb b'A' c && leb c b'Z')

-- `matchF`: below the directory of the action path, and a target.
unfoldable pub mft_match : Bytes → List Bytes → Bytes → Bool
mft_match residential allowed_exts p = has_prefix p residential && is_target allowed_exts p

-- One round of the loop.
unfoldable pub mft_row : ℕ → Bytes → List Bytes → MftRow → Found → Found
unfolding mft_match
mft_row letter residential allowed_exts item f =
    if not item.in_use
    then f
    else if item.is_dir
    then f
    else if mft_match residential allowed_exts item.full_path
    then record { counter = f.counter + 1; sent = f.sent ++ (letter ∷ b':' ∷ item.full_path) ∷ [] }
    else f

unfoldable pub mft_rows : ℕ → Bytes → List Bytes → List MftRow → Found → Found
mft_rows letter residential allowed_exts [] f = f
mft_rows letter residential allowed_exts (item ∷ items) f =
    mft_rows letter residential allowed_exts items (mft_row letter residential allowed_exts item f)

-- `len(residentialPathDir) != 2`
abbrev pub residential_of : List Bytes → Outcome Bytes
residential_of (drive ∷ below ∷ []) = ok below
residential_of _ = err invalid_input

abbrev pub as_fallback : Outcome (List MftRow) → Outcome (List MftRow)
as_fallback (ok rows) = ok rows
as_fallback (err e) = err fallback_to_compatible_solution
as_fallback panic = panic
as_fallback blocked = blocked

-- The result is the counter and what was sent; an empty action path has no first byte.
unfoldable pub extract_and_parse_mft_then_search :
    Bytes → List Bytes → Outcome (List MftRow) → Outcome Found
unfolding is_disk_letter
extract_and_parse_mft_then_search [] allowed_exts open_stream = panic
extract_and_parse_mft_then_search (letter ∷ path) allowed_exts open_stream =
    if not (is_disk_letter letter) then err invalid_input else do
      rows ← as_fallback open_stream
      residential ← residential_of (split_on b':' (replace_byte b'\\' b'/' (letter ∷ path)))
      ok (mft_rows letter residential allowed_exts rows (record { counter = 0; sent = [] }))
