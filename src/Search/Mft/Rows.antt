-- ===== src/Search/Mft/Rows.antt =====
-- Lemmas on the loop of `ExtractAndParseMFTThenSearch`
-- (gocode/fileutils/filesearcher_booster_windows.go).
use cramc.Prelude.{
  ℕ, ◌+◌, ◌≡◌, inl, inr, Bool, not, ◌&&◌, List, [], ◌∷◌, ◌++◌, map, append-nil, append_assoc, arith,
  if◌then◌else◌, Bool-cases, length, Bytes,
}
use cramc.Search.Walk.{Found}
use cramc.Search.Mft.{MftRow, mft_match, mft_row, mft_rows}

-- A file that is on the disk, below the directory, and a target.
unfoldable pub is_hit : Bytes → List Bytes → MftRow → Bool
is_hit residential exts item =
    item.in_use && not item.is_dir && mft_match residential exts item.full_path

unfoldable pub hits : Bytes → List Bytes → List MftRow → List Bytes
hits residential exts [] = []
hits residential exts (item ∷ items) =
    if is_hit residential exts item
    then item.full_path ∷ hits residential exts items
    else hits residential exts items

abbrev pub on_drive : ℕ → List Bytes → List Bytes
on_drive letter = map (λ p. letter ∷ b':' ∷ p)

abbrev add : ℕ → List Bytes → Found → Found
add letter ps f = record { counter = f.counter + length ps; sent = f.sent ++ on_drive letter ps }

module _ (letter : ℕ) (residential : Bytes) (exts : List Bytes) where
  mft_row-is_hit :
      (item : MftRow) (f : Found)
      → mft_row letter residential exts item f
        ≡ (if is_hit residential exts item then add letter (item.full_path ∷ []) f else f)
  unfolding mft_row is_hit
  mft_row-is_hit item f = ground arith

  pub mft_rows-hits :
      (rows : List MftRow) (f : Found)
      → mft_rows letter residential exts rows f ≡ add letter (hits residential exts rows) f
  unfolding mft_rows hits
  mft_rows-hits [] f = ground (arith, append-nil f.sent)
  mft_rows-hits (item ∷ items) f = elim (Bool-cases (is_hit residential exts item)) [
    | inl t ↦ rw (mft_rows-hits items (mft_row letter residential exts item f)) (
        rw (mft_row-is_hit item f) (
          rw t (
            ground (
              arith,
              append_assoc f.sent (on_drive letter (item.full_path ∷ []))
                  (on_drive letter (hits residential exts items)),
            ))))
    | inr e ↦
        rw (mft_rows-hits items (mft_row letter residential exts item f))
          (rw (mft_row-is_hit item f) (rw e))
  ]
